-- ===== src/Infrastructure.antt =====
-- Scheduler of backend/internal/infrastructure/scheduler.go: capacity of a node is reserved for an
-- operation and later committed or released. Its statements are in Infrastructure.Statements.
mod Statements
unfoldable pub use Statements.*
pub mod Room
pub mod Again
mod Tests
use Prim.Native.String.{String}
use vps_billing_codex.Shared.{
  ℕ, ◌+◌, ◌-◌, Bool, true, false, not, ◌&&◌, ◌||◌, Option, none, some, List, [], ◌∷◌, ◌++◌, ltb,
  leb, ◌==◌, if◌then◌else◌, where_, order_by,
}
use vps_billing_codex.Shared.Int.{ℤ, pos, pos_part, ltb_ℤ, leb_ℤ}
use vps_billing_codex.Shared.Table.{get, modify, update_one}
use vps_billing_codex.Shared.Tx.{
  World, Result, ok, err, database, no_rows, unique_violation, refused, M, ◌>>=◌, ◌>>◌, pure, fail,
  fail_if, or_fail, select, change_row, clock, new_id, commit, transaction,
}
use vps_billing_codex.Store.{
  Database, Resource, cpu, memory, disk, ipv4, ipv6, nat_port, Capacity, Node, NodeStatus, online,
  Provider, NodeGroup, Reservation, ReservationStatus,
}

abbrev pub first_of : List Node → Option Node
first_of [] = none
first_of (n ∷ _) = some n

abbrev pub new_reservation : ℕ → ℕ → ℕ → Capacity → ℕ → Reservation
new_reservation id node_id operation_id want expires_at = record {
  id = id;
  node_id = node_id;
  operation_id = operation_id;
  amounts = want;
  status = ReservationStatus.reserved;
  expires_at = expires_at;
}

-- Reserve on the node that was chosen.
unfoldable pub reserve_on : ℕ → Capacity → ℤ → Node → Action Reservation
unfolding add_node_reservation create_reservation
reserve_on operation_id want ttl node = do
  updated ← change_row (add_node_reservation node.id want) (refused resource_exhausted)
  id ← new_id
  now ← clock
  row ←
      change_row
        (create_reservation (new_reservation id node.id operation_id want (now + pos_part ttl)))
        unique_violation
  commit
  pure row

-- Reserve from SelectCandidateNodesForUpdate on.
unfoldable pub reserve_new : Postgres → ℕ → ScheduleRequest → String → Capacity → Action Reservation
unfolding candidate_nodes
reserve_new pg operation_id request required want = do
  candidates ← select (candidate_nodes pg request.node_group_id required want)
  node ← or_fail (first_of candidates) (refused resource_exhausted)
  reserve_on operation_id want request.ttl node

abbrev pub reserve_unless :
    Postgres → ℕ → ScheduleRequest → String → Capacity → Option Reservation → Action Reservation
reserve_unless pg operation_id request required want (some existing) = pure existing
reserve_unless pg operation_id request required want none =
    reserve_new pg operation_id request required want

-- The transaction of Reserve.
unfoldable pub reserve_in_transaction :
    Postgres → ℕ → ScheduleRequest → String → Capacity → Action Reservation
reserve_in_transaction pg operation_id request required want = transaction (do
  existing ← select (λ db. get reservation_operation operation_id db.reservations)
  reserve_unless pg operation_id request required want existing)

-- After a unique violation the reservation is looked up outside the transaction.
abbrev pub or_existing :
    ℕ
    → Result InfrastructureError Reservation × World Database
    → Result InfrastructureError Reservation × World Database
or_existing operation_id (err unique_violation, w) =
    (do
      found ← select (λ db. get reservation_operation operation_id db.reservations)
      or_fail found no_rows)
      w
or_existing operation_id p = p

abbrev pub reserve_or_existing : Postgres → ℕ → ScheduleRequest → String → Action Reservation
reserve_or_existing pg operation_id request required w = or_existing operation_id (
    reserve_in_transaction pg operation_id request required (λ r. pos_part (request.resources r)) w)

-- The first test of Reserve.
abbrev pub is_invalid : ℕ → ScheduleRequest → Bool
is_invalid operation_id request =
    operation_id == 0
    || (request.node_group_id == 0
        || (leb_ℤ request.ttl (pos 0) || not (valid_capacity_request request.resources)))

-- Scheduler.Reserve
unfoldable pub reserve : Postgres → ℕ → ScheduleRequest → Action Reservation
reserve pg operation_id request = do
  fail_if (is_invalid operation_id request) (refused invalid_request)
  required ← or_fail request.required_capabilities (refused invalid_request)
  reserve_or_existing pg operation_id request required

-- The two targets of changeStatus.
pub data Target : Type 0 where
  to_committed to_released : Target

abbrev pub target_status : Target → ReservationStatus
target_status to_committed = ReservationStatus.committed
target_status to_released = ReservationStatus.released

abbrev pub settle_node : Target → Capacity → Node → Node
settle_node to_committed = commit_reserved
settle_node to_released = release_reserved

abbrev pub has_target : Target → ReservationStatus → Bool
has_target to_committed ReservationStatus.committed = true
has_target to_released ReservationStatus.released = true
has_target _ _ = false

abbrev pub is_reserved : ReservationStatus → Bool
is_reserved ReservationStatus.reserved = true
is_reserved _ = false

-- changeStatus of a reservation that is still reserved
unfoldable pub settle_reservation : Target → Reservation → Action Reservation
unfolding take_reserved set_reservation_status
settle_reservation target current = do
  n ← change_row (take_reserved (settle_node target) current.node_id current.amounts) database
  updated ← change_row (set_reservation_status current.id (target_status target)) no_rows
  commit
  pure updated

-- changeStatus of the locked row.
unfoldable pub status_step : Target → Reservation → Action Reservation
status_step target current = if has_target target current.status then pure current else (do
  fail_if (not (is_reserved current.status)) (refused reservation_state)
  settle_reservation target current)

-- Scheduler.changeStatus
unfoldable pub change_status : ℕ → Target → Action Reservation
change_status id target = transaction (do
  found ← select (λ db. get reservation_id_of id db.reservations)
  current ← or_fail found (refused reservation_absent)
  status_step target current)

-- Scheduler.Commit and Scheduler.Release
unfoldable pub commit_reservation : ℕ → Action Reservation
commit_reservation id = change_status id to_committed

unfoldable pub release_reservation : ℕ → Action Reservation
release_reservation id = change_status id to_released

-- The calls of all processes, whatever their results.
pub data Call : Type 0 where
  reserve_call : ℕ → ScheduleRequest → Call
  commit_call release_call : ℕ → Call

unfoldable pub run_call : Postgres → Call → World Database → World Database
run_call pg (reserve_call id request) w = (reserve pg id request w).1
run_call pg (commit_call id) w = (commit_reservation id w).1
run_call pg (release_call id) w = (release_reservation id w).1

unfoldable pub run_calls : Postgres → List (ℕ × Call) → World Database → World Database
run_calls pg [] w = w
run_calls pg ((later, c) ∷ cs) w =
    run_calls pg cs (run_call pg c (record w { now = w.now + later }))
