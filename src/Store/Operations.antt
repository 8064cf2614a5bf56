-- ===== src/Store/Operations.antt =====
-- The rows of operations and their steps: Operation and OperationStep of
-- backend/internal/store/sqlc/models.go, less created_at, updated_at and the provider's columns.
use vps_billing_codex.Shared.{ℕ, Bool, Option}
use vps_billing_codex.Shared.Int.{ℤ}
use Prim.Native.String.{String}

-- The values that operations_status_valid allows.
pub data OperationStatus : Type 0 where
  queued running waiting_provider waiting_resource verifying retrying succeeded failed cancelled :
      OperationStatus

abbrev pub operation_status_text : OperationStatus → String
operation_status_text queued = "queued"
operation_status_text running = "running"
operation_status_text waiting_provider = "waiting_provider"
operation_status_text waiting_resource = "waiting_resource"
operation_status_text verifying = "verifying"
operation_status_text retrying = "retrying"
operation_status_text succeeded = "succeeded"
operation_status_text failed = "failed"
operation_status_text cancelled = "cancelled"

-- `kind` is the column type.
pub record Operation : Type 0 where
  pub id : ℕ
  pub kind : String
  pub resource_type : String
  pub resource_id : ℕ
  pub status : OperationStatus
  pub phase : Option String
  pub progress : ℤ
  pub message_key : Option String
  pub idempotency_key : String
  pub retryable : Bool
  pub retry_count : ℕ
  pub max_retries : ℕ
  pub error_code : Option String
  pub error_message : Option String
  pub trace_id : String
  pub started_at : Option ℕ
  pub finished_at : Option ℕ
  pub user_id : Option ℕ
  pub actor_admin_id : Option ℕ
  pub next_attempt_at : ℕ
  pub heartbeat_at : Option ℕ

-- The values that operation_steps_status_valid allows.
pub data StepStatus : Type 0 where
  pending running waiting succeeded failed skipped : StepStatus

pub record OperationStep : Type 0 where
  pub id : ℕ
  pub operation_id : ℕ
  pub step_key : String
  pub step_order : ℤ
  pub status : StepStatus
  pub progress : ℤ
  pub attempt : ℤ
  pub error_code : Option String
  pub error_message : Option String
  pub output : String
  pub started_at : Option ℕ
  pub finished_at : Option ℕ
