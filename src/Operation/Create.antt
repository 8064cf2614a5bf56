-- ===== src/Operation/Create.antt =====
-- Create, GetForUser, Get and UpdateStep of backend/internal/operation/repository.go, Service of
-- backend/internal/operation/operation.go and Execution of backend/internal/operation/workflow.go.
mod Statements
unfoldable pub use Statements.*
pub mod New
pub mod Again
pub mod Busy
mod Tests
use Prim.Native.String.{String, len}
use text.Mathlib.Text.{◌==◌ as str_eq}
use vps_billing_codex.Shared.{
  ℕ, ◌+◌, Bool, true, false, not, ◌&&◌, ◌||◌, Option, none, some, List, [], ◌∷◌, ◌++◌, ◌==◌, ltb,
  if◌then◌else◌, equal_pointer,
}
use vps_billing_codex.Shared.Int.{ℤ, pos, ltb_ℤ}
use vps_billing_codex.Shared.Table.{get}
use vps_billing_codex.Shared.Tx.{
  World, no_rows, unique_violation, refused, ◌>>=◌, ◌>>◌, pure, fail_if, or_fail, select, change,
  change_row, execute, clock, new_id, commit, transaction, meanwhile, for_each,
}
use vps_billing_codex.Store.{
  Database, Operation, OperationStep, StepStatus, operation_status_text, operation_queued,
  operation_updated, step_data, OutboxStatus,
}
use vps_billing_codex.Operation.Statements.{
  Action, op_id, not_found, invalid_request, idempotency_conflict,
}
use vps_billing_codex.Operation.{create_event}

-- Operation of operation.go: the row and its steps.
pub record OperationView : Type 0 where
  pub row : Operation
  pub steps : List OperationStep

-- sameRequest
unfoldable pub same_request : Operation → CreateRequest → Bool
same_request o r =
    str_eq o.kind r.kind
    && (str_eq o.resource_type r.resource_type
        && (o.resource_id == r.resource_id
            && (equal_pointer o.user_id r.user_id
                && equal_pointer o.actor_admin_id r.actor_admin_id)))

-- operationWithSteps
unfoldable pub operation_with_steps : Operation → Action OperationView
unfolding steps_of
operation_with_steps o = do steps ← select (steps_of o.id); pure (record { row = o; steps = steps })

-- The answer to a key that is used already.
unfoldable pub replay_operation : CreateRequest → Operation → Action OperationView
unfolding same_request operation_with_steps
replay_operation r o = do
  fail_if (not (same_request o r)) (refused idempotency_conflict)
  operation_with_steps o

abbrev has_empty_key : List StepDefinition → Bool
has_empty_key [] = false
has_empty_key (d ∷ ds) = str_eq d.key "" || has_empty_key ds

-- The body of the loop over the steps.
unfoldable pub create_step : ℕ → StepDefinition → Action (Unit {0})
unfolding insert_step
create_step operation d = do
  id ← new_id
  change_row (insert_step (step_row id operation d)) unique_violation

-- What follows CreateOperation in the transaction; `none` after a unique violation.
unfoldable pub queue_created : CreateRequest → Option Operation → Action (Option Operation)
unfolding create_event
queue_created r none = pure none
queue_created r (some o) = do
  for_each (create_step o.id) r.steps
  create_event operation_queued o false
  commit
  pure (some o)

-- The transaction of Create
unfoldable pub create_in_transaction : CreateRequest → Action (Option Operation)
unfolding insert_operation
create_in_transaction r = transaction (do
  id ← new_id
  now ← clock
  inserted ← change (insert_operation (operation_row id now r))
  queue_created r inserted)

-- After the transaction; the key is looked up again after a unique violation.
unfoldable pub answer_created : CreateRequest → Option Operation → Action OperationView
unfolding replay_operation
answer_created r (some o) = operation_with_steps o
answer_created r none = do
  found ← select (λ db. find_operation r.idempotency_key db.operations)
  o ← or_fail found (refused idempotency_conflict)
  replay_operation r o

abbrev pub create_unless :
    (Database → Database) → CreateRequest → Option Operation → Action OperationView
create_unless others r (some o) = replay_operation r o
create_unless others r none = do
  fail_if (has_empty_key r.steps) (refused invalid_request)
  meanwhile others
  created ← create_in_transaction r
  answer_created r created

-- PostgresRepository.Create; other sessions may commit before its transaction.
unfoldable pub create_operation : (Database → Database) → CreateRequest → Action OperationView
create_operation others r = do
  found ← select (λ db. find_operation r.idempotency_key db.operations)
  create_unless others r found

abbrev is_empty : List StepDefinition → Bool
is_empty [] = true
is_empty _ = false

-- Service.Create; uuid.Nil is 0, and a count of retries is not negative in the model.
unfoldable pub create_service : (Database → Database) → CreateRequest → Action OperationView
create_service others r = do
  fail_if
      (str_eq r.kind ""
        || (str_eq r.resource_type ""
            || (r.resource_id == 0
                || (ltb (len r.idempotency_key) 8 || (str_eq r.trace_id "" || is_empty r.steps)))))
      (refused invalid_request)
  create_operation others r

-- PostgresRepository.GetForUser
unfoldable pub get_for_user : ℕ → ℕ → Action OperationView
unfolding operation_for_user
get_for_user user id = do
  found ← select (operation_for_user user id)
  o ← or_fail found (refused not_found)
  operation_with_steps o

abbrev pub step_status_text : StepStatus → String
step_status_text StepStatus.pending = "pending"
step_status_text StepStatus.running = "running"
step_status_text StepStatus.waiting = "waiting"
step_status_text StepStatus.succeeded = "succeeded"
step_status_text StepStatus.failed = "failed"
step_status_text StepStatus.skipped = "skipped"

-- createEvent with the keys of a step
unfoldable pub create_step_event : Operation → OperationStep → Action (Unit {0})
create_step_event o s = do
  event_id ← new_id
  now ← clock
  execute (λ db. record db {
    outbox =
        db.outbox
        ++ record {
          id = event_id;
          event_type = operation_updated;
          aggregate_id = o.id;
          occurred_at = now;
          payload =
              step_data o.id o.user_id (operation_status_text o.status) o.phase o.progress
                o.message_key o.retryable o.error_code o.trace_id s.step_key
                (step_status_text s.status) s.progress;
          status = OutboxStatus.pending;
          attempts = 0;
          next_attempt_at = now;
        }
          ∷ [];
  })

-- PostgresRepository.UpdateStep
unfoldable pub update_step : ℕ → String → StepUpdate → Action (Unit {0})
unfolding update_operation_step
update_step operation key u = do
  fail_if (ltb_ℤ u.progress (pos 0) || ltb_ℤ (pos 100) u.progress) (refused invalid_request)
  transaction (do
    now ← clock
    step ← change_row (update_operation_step operation key u now) (refused not_found)
    found ← select (λ db. get op_id operation db.operations)
    o ← or_fail found no_rows
    create_step_event o step
    commit)

-- Execution.Step, for an output that is JSON already
unfoldable pub execution_step :
    ℕ → ℤ → String → StepStatus → ℤ → String → Option String → String → Action (Unit {0})
execution_step operation attempt key status progress error_code error output =
    update_step operation key (record {
      status = status;
      progress = progress;
      attempt = attempt;
      error_code = error_code;
      error_message = elim error [ none ↦ "" | some e ↦ e ];
      output = output;
    })
