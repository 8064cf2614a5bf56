-- ===== src/Operation/Create/Again.antt =====
-- Keys that are used already, in Create of backend/internal/operation/repository.go, and updates of a
-- step.
use Prim.Native.String.{String}
use vps_billing_codex.Shared.{ℕ, ◌+◌, ◌≡◌, false, ◌||◌, some, arith, if◌then◌else◌, [], ◌∷◌, ◌++◌}
use vps_billing_codex.Shared.Int.{pos, ltb_ℤ}
use vps_billing_codex.Shared.Table.{get}
use vps_billing_codex.Shared.Tx.{World, ok, err, refused, IsUp, Result}
use vps_billing_codex.Store.{
  Database, Operation, OperationStep, OutboxEvent, OutboxStatus, operation_updated, step_data,
  operation_status_text,
}
use vps_billing_codex.Operation.Statements.{OperationError, idempotency_conflict, op_id}
use vps_billing_codex.Operation.Create.{
  CreateRequest, OperationView, find_operation, steps_of, same_request, operation_with_steps,
  replay_operation, create_operation, StepUpdate, find_step, updated_step, modify_step,
  update_operation_step, create_step_event, update_step, step_status_text,
}

abbrev pub answered : CreateRequest → Operation → Database → Result OperationError OperationView
answered r o db =
    if same_request o r
    then ok (record { row = o; steps = steps_of o.id db })
    else err (refused idempotency_conflict)

-- While the database answers, Create under a key that is used returns the operation of that key with
-- its steps if the request is for the same type, resource, user and admin, refuses it otherwise, and
-- commits nothing.
pub create_operation_again :
    (others : Database → Database) (r : CreateRequest) (w : World Database) {o : Operation}
    → IsUp w
    → find_operation r.idempotency_key w.store.operations ≡ some o
    → ((create_operation others r w).0 ≡ answered r o w.store)
      × ((create_operation others r w).1.saved ≡ w.saved)
unfolding create_operation replay_operation operation_with_steps
create_operation_again others r w up found =
    (ground (arith, up w.calls, up (w.calls + 1)), ground (arith, up w.calls, up (w.calls + 1)))

-- The event of a step.
abbrev pub step_event : ℕ → ℕ → Operation → OperationStep → OutboxEvent
step_event id now o s = record {
  id = id;
  event_type = operation_updated;
  aggregate_id = o.id;
  occurred_at = now;
  payload =
      step_data o.id o.user_id (operation_status_text o.status) o.phase o.progress o.message_key
        o.retryable o.error_code o.trace_id s.step_key (step_status_text s.status) s.progress;
  status = OutboxStatus.pending;
  attempts = 0;
  next_attempt_at = now;
}

-- While the database answers, UpdateStep with a progress from 0 to 100 on a step that is there commits
-- that step's new row and one event for it, and leaves every other table alone.
pub update_step_lem :
    (operation : ℕ) (key : String) (u : StepUpdate) (w : World Database) {s : OperationStep}
    {o : Operation}
    → IsUp w
    → (ltb_ℤ u.progress (pos 0) || ltb_ℤ (pos 100) u.progress) ≡ false
    → find_step operation key w.store.operation_steps ≡ some s
    → get op_id operation w.store.operations ≡ some o
    → ((update_step operation key u w).0 ≡ ok tt)
      × ((update_step operation key u w).1.saved ≡ record (w.store) {
        operation_steps = modify_step operation key (updated_step u w.now) w.store.operation_steps;
        outbox = w.store.outbox ++ step_event w.next_id w.now o (updated_step u w.now s) ∷ [];
      })
unfolding update_step update_operation_step create_step_event
update_step_lem operation key u w up range found there = (
  ground (
    arith,
    up w.calls,
    up (w.calls + 1),
    up (w.calls + 1 + 1),
    up (w.calls + 1 + 1 + 1),
    up (w.calls + 1 + 1 + 1 + 1),
  ),
  ground (
    arith,
    up w.calls,
    up (w.calls + 1),
    up (w.calls + 1 + 1),
    up (w.calls + 1 + 1 + 1),
    up (w.calls + 1 + 1 + 1 + 1),
  ),
)
