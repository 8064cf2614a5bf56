-- ===== src/Operation/Create/New.antt =====
-- New operations: the successful path of Create of backend/internal/operation/repository.go.
use vps_billing_codex.Shared.{
  ℕ, ◌+◌, Bool, true, false, ◌&&◌, Option, none, some, List, [], ◌∷◌, ◌++◌,
}
use vps_billing_codex.Shared.Tx.{World}
use vps_billing_codex.Store.{
  Database, Operation, OperationStep, operation_queued, operation_data, operation_status_text,
  OutboxStatus, OutboxEvent, StepStatus, queued,
}
use vps_billing_codex.Shared.Int.{pos}
use vps_billing_codex.Operation.Create.{
  StepDefinition, CreateRequest, operation_row, find_step, step_row,
}

abbrev is_none : Option OperationStep → Bool
is_none none = true
is_none (some _) = false

-- The rows of the steps, whose ids count from `first`.
abbrev step_rows : ℕ → ℕ → List StepDefinition → List OperationStep
step_rows operation first [] = []
step_rows operation first (d ∷ ds) = step_row first operation d ∷ step_rows operation (first + 1) ds

-- No step of the operation has one of the keys, and no key comes twice.
abbrev pub keys_are_new : ℕ → ℕ → List StepDefinition → List OperationStep → Bool
keys_are_new operation first [] steps = true
keys_are_new operation first (d ∷ ds) steps =
    is_none (find_step operation d.key steps)
    && keys_are_new operation (first + 1) ds (steps ++ step_row first operation d ∷ [])

abbrev after_step : ℕ → StepDefinition → World Database → World Database
after_step operation d w = record w {
  store = record (w.store) {
    operation_steps = w.store.operation_steps ++ step_row w.next_id operation d ∷ [];
  };
  next_id = w.next_id + 1;
  calls = w.calls + 1;
}

abbrev after_steps : ℕ → List StepDefinition → World Database → World Database
after_steps operation [] w = w
after_steps operation (d ∷ ds) w = after_steps operation ds (after_step operation d w)

-- The row of a request that waits in the queue, its steps, which wait too and whose ids count from
-- `first`, and the event that queues it.
abbrev pub queued_row : ℕ → ℕ → CreateRequest → Operation
queued_row id now r = record {
  id = id;
  kind = r.kind;
  resource_type = r.resource_type;
  resource_id = r.resource_id;
  status = queued;
  phase = some "queued";
  progress = pos 0;
  message_key = some "operation.queued";
  idempotency_key = r.idempotency_key;
  retryable = false;
  retry_count = 0;
  max_retries = r.max_retries;
  error_code = none;
  error_message = none;
  trace_id = r.trace_id;
  started_at = none;
  finished_at = none;
  user_id = r.user_id;
  actor_admin_id = r.actor_admin_id;
  next_attempt_at = now;
  heartbeat_at = none;
}

abbrev pub pending_rows : ℕ → ℕ → List StepDefinition → List OperationStep
pending_rows operation first [] = []
pending_rows operation first (d ∷ ds) =
    record {
      id = first;
      operation_id = operation;
      step_key = d.key;
      step_order = d.order;
      status = StepStatus.pending;
      progress = pos 0;
      attempt = pos 0;
      error_code = none;
      error_message = none;
      output = "{}";
      started_at = none;
      finished_at = none;
    }
    ∷ pending_rows operation (first + 1) ds

abbrev pub queued_event : ℕ → ℕ → ℕ → CreateRequest → OutboxEvent
queued_event event_id id now r = record {
  id = event_id;
  event_type = operation_queued;
  aggregate_id = id;
  occurred_at = now;
  payload =
      operation_data id r.user_id "queued" (some "queued") (pos 0) (some "operation.queued") false
        none r.trace_id false;
  status = OutboxStatus.pending;
  attempts = 0;
  next_attempt_at = now;
}

abbrev pub with_operation : ℕ → ℕ → ℕ → CreateRequest → Database → Database
with_operation id event_id now r db = record db {
  operations = db.operations ++ queued_row id now r ∷ [];
  operation_steps = db.operation_steps ++ pending_rows id (id + 1) r.steps;
  outbox = db.outbox ++ queued_event event_id id now r ∷ [];
}

abbrev event_of : ℕ → ℕ → Operation → OutboxEvent
event_of id now o = record {
  id = id;
  event_type = operation_queued;
  aggregate_id = o.id;
  occurred_at = now;
  payload =
      operation_data o.id o.user_id (operation_status_text o.status) o.phase o.progress
        o.message_key o.retryable o.error_code o.trace_id false;
  status = OutboxStatus.pending;
  attempts = 0;
  next_attempt_at = now;
}

abbrev after_event : Operation → World Database → World Database
after_event o w =
    let db = record (w.store) { outbox = w.store.outbox ++ event_of w.next_id w.now o ∷ [] } in
    record w { store = db; saved = db; next_id = w.next_id + 1; calls = w.calls + 1 + 1 }

-- The session in which the transaction of a new operation begins, and its end.
abbrev entered : (Database → Database) → CreateRequest → World Database → World Database
entered others r w = record w {
  store = record (others w.saved) {
    operations = (others w.saved).operations ++ operation_row w.next_id w.now r ∷ [];
  };
  saved = others w.saved;
  next_id = w.next_id + 1;
  calls = w.calls + 1 + 1 + 1;
}

abbrev created : (Database → Database) → CreateRequest → World Database → World Database
created others r w =
    after_event (operation_row w.next_id w.now r)
      (after_steps w.next_id r.steps (entered others r w))
