-- ===== src/Infrastructure/Again.antt =====
-- Repeated calls of Scheduler of backend/internal/infrastructure/scheduler.go.
use Prim.Native.String.{String}
use vps_billing_codex.Shared.{ℕ, ◌+◌, ◌≡◌, false, some, arith, if◌then◌else◌}
use vps_billing_codex.Shared.Table.{get}
use vps_billing_codex.Shared.Tx.{World, ok, err, refused, IsUp}
use vps_billing_codex.Store.{Database, Reservation}
use vps_billing_codex.Infrastructure.{
  Postgres, ScheduleRequest, is_invalid, reservation_operation, reservation_id_of, reserve,
  reserve_in_transaction, Target, has_target, is_reserved, change_status, status_step,
  reservation_state,
}

-- While the database answers, a valid Reserve for an operation that has a reservation already returns
-- that reservation and commits nothing.
pub reserve_again :
    (pg : Postgres) (operation_id : ℕ) (request : ScheduleRequest) (w : World Database)
    {r : Reservation} {required : String}
    → IsUp w
    → is_invalid operation_id request ≡ false
    → request.required_capabilities ≡ some required
    → get reservation_operation operation_id w.store.reservations ≡ some r
    → ((reserve pg operation_id request w).0 ≡ ok r)
      × ((reserve pg operation_id request w).1.saved ≡ w.saved)
unfolding reserve reserve_in_transaction
reserve_again pg operation_id request w up valid caps found =
    (ground (arith, up w.calls, up (w.calls + 1)), ground (arith, up w.calls, up (w.calls + 1)))

-- While the database answers, Commit or Release of a reservation that is no longer reserved commits
-- nothing: it returns the reservation where that is its state already and refuses it otherwise.
pub change_status_again :
    (id : ℕ) (target : Target) (w : World Database) {r : Reservation}
    → IsUp w
    → get reservation_id_of id w.store.reservations ≡ some r
    → is_reserved r.status ≡ false
    → ((change_status id target w).0
        ≡ (if has_target target r.status then ok r else err (refused reservation_state)))
      × ((change_status id target w).1.saved ≡ w.saved)
unfolding change_status status_step
change_status_again id target w up found settled =
    (ground (arith, up w.calls, up (w.calls + 1)), ground (arith, up w.calls, up (w.calls + 1)))
