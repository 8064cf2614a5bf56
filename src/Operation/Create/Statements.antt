-- ===== src/Operation/Create/Statements.antt =====
-- The statements that Create, GetForUser and UpdateStep of backend/internal/operation/repository.go
-- issue, from backend/internal/store/sqlc/operation.sql.go.
use Prim.Native.String.{String}
use text.Mathlib.Text.{◌==◌ as str_eq}
use vps_billing_codex.Shared.{
  ℕ, Bool, true, false, not, ◌&&◌, ◌||◌, Option, none, some, List, [], ◌∷◌, ◌++◌, ◌==◌, leb,
  if◌then◌else◌, where_, order_by, equal_pointer,
}
use vps_billing_codex.Shared.Int.{ℤ, pos, ltb_ℤ, leb_ℤ}
use vps_billing_codex.Shared.Table.{get}
use vps_billing_codex.Store.{Database, Operation, queued, OperationStep, StepStatus}
use vps_billing_codex.Operation.Statements.{op_id, is_final, text_}

pub record StepDefinition : Type 0 where
  pub key : String
  pub order : ℤ

pub record CreateRequest : Type 0 where
  pub kind : String
  pub resource_type : String
  pub resource_id : ℕ
  pub idempotency_key : String
  pub trace_id : String
  pub user_id : Option ℕ
  pub actor_admin_id : Option ℕ
  pub max_retries : ℕ
  pub steps : List StepDefinition

-- GetOperationByIdempotency, over the unique idempotency_key
abbrev pub find_operation : String → List Operation → Option Operation
find_operation key [] = none
find_operation key (o ∷ os) = if str_eq o.idempotency_key key then some o else find_operation key os

abbrev pub is_action : String → Bool
is_action kind =
    str_eq kind "start"
    || (str_eq kind "stop" || (str_eq kind "restart" || str_eq kind "reinstall"))

-- The rows of ux_operations_active_instance_action.
abbrev pub is_active_action : Operation → Bool
is_active_action o =
    str_eq o.resource_type "instance" && (is_action o.kind && not (is_final o.status))

abbrev pub has_active_action : ℕ → List Operation → Bool
has_active_action resource [] = false
has_active_action resource (o ∷ os) =
    is_active_action o && o.resource_id == resource || has_active_action resource os

-- The row of CreateOperation.
abbrev pub operation_row : ℕ → ℕ → CreateRequest → Operation
operation_row id now r = record {
  id = id;
  kind = r.kind;
  resource_type = r.resource_type;
  resource_id = r.resource_id;
  status = queued;
  phase = some "queued";
  progress = pos 0;
  message_key = text_ "operation.queued";
  idempotency_key = r.idempotency_key;
  retryable = false;
  retry_count = 0;
  max_retries = r.max_retries;
  error_code = none;
  error_message = none;
  trace_id = r.trace_id;
  started_at = none;
  finished_at = none;
  user_id = r.user_id;
  actor_admin_id = r.actor_admin_id;
  next_attempt_at = now;
  heartbeat_at = none;
}

-- CreateOperation; `none` for a violation of one of the two unique indexes.
unfoldable pub insert_operation : Operation → Database → Option Operation × Database
insert_operation o db = elim (find_operation o.idempotency_key db.operations) [
  | some _ ↦ (none, db)
  | none ↦
      if is_active_action o && has_active_action o.resource_id db.operations
      then (none, db)
      else (some o, record db { operations = db.operations ++ o ∷ [] })
]

abbrev pub is_step : ℕ → String → OperationStep → Bool
is_step operation key s = s.operation_id == operation && str_eq s.step_key key

abbrev pub find_step : ℕ → String → List OperationStep → Option OperationStep
find_step operation key [] = none
find_step operation key (s ∷ ss) =
    if is_step operation key s then some s else find_step operation key ss

-- CreateOperationStep, over the unique (operation_id, step_key)
abbrev pub step_row : ℕ → ℕ → StepDefinition → OperationStep
step_row id operation d = record {
  id = id;
  operation_id = operation;
  step_key = d.key;
  step_order = d.order;
  status = StepStatus.pending;
  progress = pos 0;
  attempt = pos 0;
  error_code = none;
  error_message = none;
  output = "{}";
  started_at = none;
  finished_at = none;
}

unfoldable pub insert_step : OperationStep → Database → Option (Unit {0} × Database)
insert_step s db = elim (find_step s.operation_id s.step_key db.operation_steps) [
  | some _ ↦ none
  | none ↦ some (tt, record db { operation_steps = db.operation_steps ++ s ∷ [] })
]

-- ListOperationSteps
abbrev step_before : OperationStep → OperationStep → Bool
step_before a b =
    ltb_ℤ a.step_order b.step_order || leb_ℤ a.step_order b.step_order && leb a.id b.id

unfoldable pub steps_of : ℕ → Database → List OperationStep
steps_of operation db =
    order_by step_before (where_ (λ s. s.operation_id == operation) db.operation_steps)

-- GetOperationForUser
unfoldable pub operation_for_user : ℕ → ℕ → Database → Option Operation
operation_for_user user id db = elim (get op_id id db.operations) [
  | none ↦ none
  | some o ↦ if equal_pointer o.user_id (some user) then some o else none
]

-- UpdateOperationStep
pub record StepUpdate : Type 0 where
  pub status : StepStatus
  pub progress : ℤ
  pub attempt : ℤ
  pub error_code : String
  pub error_message : String
  pub output : String

abbrev is_running : StepStatus → Bool
is_running StepStatus.running = true
is_running _ = false

abbrev is_ended : StepStatus → Bool
is_ended StepStatus.succeeded = true
is_ended StepStatus.failed = true
is_ended StepStatus.skipped = true
is_ended _ = false

abbrev first_start : Option ℕ → Bool → ℕ → Option ℕ
first_start (some t) starts now = some t
first_start none starts now = if starts then some now else none

-- nonNilJSON
abbrev pub non_nil_json : String → String
non_nil_json s = if str_eq s "" then "{}" else s

unfoldable pub updated_step : StepUpdate → ℕ → OperationStep → OperationStep
updated_step u now s = record s {
  status = u.status;
  progress = u.progress;
  attempt = u.attempt;
  error_code = text_ u.error_code;
  error_message = text_ u.error_message;
  output = non_nil_json u.output;
  started_at = first_start s.started_at (is_running u.status) now;
  finished_at = if is_ended u.status then some now else s.finished_at;
}

abbrev pub modify_step :
    ℕ → String → (OperationStep → OperationStep) → List OperationStep → List OperationStep
modify_step operation key f [] = []
modify_step operation key f (s ∷ ss) =
    (if is_step operation key s then f s else s) ∷ modify_step operation key f ss

unfoldable pub update_operation_step :
    ℕ → String → StepUpdate → ℕ → Database → Option (OperationStep × Database)
unfolding updated_step
update_operation_step operation key u now db = elim (find_step operation key db.operation_steps) [
  | none ↦ none
  | some s ↦ some (
    updated_step u now s,
    record db {
      operation_steps = modify_step operation key (updated_step u now) db.operation_steps;
    },
  )
]
