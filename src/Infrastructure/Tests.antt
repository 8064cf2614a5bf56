-- ===== src/Infrastructure/Tests.antt =====
-- Runs of Scheduler of backend/internal/infrastructure/scheduler.go on one node.
use vps_billing_codex.Shared.{
  ℕ, ◌≡◌, ◌==◌, true, false, some, none, [], ◌∷◌, refl, order_by, arith, inl, inr, Bool-cases,
  some_inj,
}
use mathlib.Core.Path.{subst}
use vps_billing_codex.Shared.Int.{pos}
use vps_billing_codex.Shared.Tx.{World, ok}
use vps_billing_codex.Store.{
  Database, empty_database, Capacity, Node, online, Reservation, ReservationStatus,
}
use vps_billing_codex.Infrastructure.{
  Postgres, ScheduleRequest, reserve, reserve_in_transaction, reserve_new, reserve_on,
  candidate_nodes, add_node_reservation, create_reservation, valid_capacity_request, reserve_call,
  commit_call, release_call, run_calls, new_reservation,
}
use vps_billing_codex.Infrastructure.Room.{InRoom, IsWithin, never_oversubscribed}

abbrev plain_postgres : Postgres
plain_postgres = record { contains = λ _ _. true; quotient = λ a _. a }

abbrev each : ℕ → Capacity
each n _ = n

abbrev small_node : Node
small_node = record {
  id = 1;
  provider_id = 2;
  node_group_id = some 3;
  status = online;
  total = each 10;
  allocated = each 4;
  reserved = each 1;
  weight = pos 1;
  capabilities = "{}";
  version = 1;
  provider_node_id = none;
}

abbrev held : Reservation
held = new_reservation 8 1 30 (each 1) 500

abbrev used : Reservation
used = record held { id = 9; operation_id = 31; status = ReservationStatus.committed }

abbrev node_world : World Database
node_world =
    let db : Database = record empty_database {
      providers = record { id = 2; is_active = true } ∷ [];
      node_groups = record { id = 3; is_active = true } ∷ [];
      nodes = small_node ∷ [];
      reservations = held ∷ used ∷ [];
    } in
    record {
      store = db;
      saved = db;
      now = 100;
      next_id = 1000;
      calls = 0;
      broken = λ _. false;
      locked = λ _. false;
    }

abbrev want_two : ScheduleRequest
want_two = record {
  node_group_id = 3;
  resources = λ _. pos 2;
  required_capabilities = some "{}";
  ttl = pos 60;
}

-- A reservation fits.
reserve_fits :
    (reserve plain_postgres 32 want_two node_world).0 ≡ ok (new_reservation 1000 1 32 (each 2) 160)
unfolding reserve reserve_in_transaction reserve_new reserve_on candidate_nodes add_node_reservation
    create_reservation valid_capacity_request order_by
reserve_fits = refl

small_node-IsWithin : IsWithin small_node
small_node-IsWithin r = omega arith

node_world-InRoom : InRoom node_world.saved
node_world-InRoom k n found = elim (Bool-cases (1 == k)) [
  | inl same ↦ subst IsWithin (some_inj (rw same at found)) small_node-IsWithin
  | inr other ↦ absurd (ground arith)
]

never_oversubscribed_example :
    InRoom
      (run_calls plain_postgres
        ((0, reserve_call 32 want_two) ∷ (5, commit_call 8) ∷ (5, release_call 1000) ∷ [])
        node_world).saved
never_oversubscribed_example =
    never_oversubscribed plain_postgres
      ((0, reserve_call 32 want_two) ∷ (5, commit_call 8) ∷ (5, release_call 1000) ∷ []) node_world
      refl node_world-InRoom
