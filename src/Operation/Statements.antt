-- ===== src/Operation/Statements.antt =====
-- The rows and statements of backend/internal/operation: its errors, and the queries of
-- backend/internal/store/sqlc/operation.sql.go and of RecoverStuck.
use Prim.Native.String.{String}
use text.Mathlib.Text.{◌==◌ as str_eq}
use vps_billing_codex.Shared.{
  ℕ, ◌+◌, Bool, true, false, not, ◌&&◌, Option, none, some, List, ltb, leb, if◌then◌else◌, where_,
  order_by, take,
}
use vps_billing_codex.Shared.Int.{ℤ, pos}
use vps_billing_codex.Shared.Table.{update_one}
use vps_billing_codex.Shared.Tx.{M}
use vps_billing_codex.Store.{
  Database, Operation, OperationStatus, queued, running, waiting_provider, waiting_resource,
  verifying, retrying, succeeded, failed, cancelled,
}

-- The sentinel errors, and processMessage's errors on a payload that is missing or no JSON.
pub data OperationError : Type 0 where
  not_found invalid_request idempotency_conflict workflow_missing : OperationError
  no_payload malformed_payload : OperationError

abbrev pub Action : Type 0 → Type 0
Action = M Database OperationError

pub record WorkflowError : Type 0 where
  pub code : String
  pub message_key : String
  pub retryable : Bool
  pub cause : Option String

-- `text`: an empty string is a null.
abbrev pub text_ : String → Option String
text_ s = if str_eq s "" then none else some s

abbrev pub op_id : Operation → ℕ
op_id o = o.id

-- status IN ('succeeded', 'failed', 'cancelled')
abbrev pub is_final : OperationStatus → Bool
is_final succeeded = true
is_final failed = true
is_final cancelled = true
is_final _ = false

abbrev pub is_queued : OperationStatus → Bool
is_queued queued = true
is_queued _ = false

abbrev pub is_retrying : OperationStatus → Bool
is_retrying retrying = true
is_retrying _ = false

-- status IN ('running','waiting_provider','waiting_resource','verifying')
abbrev pub is_working : OperationStatus → Bool
is_working running = true
is_working waiting_provider = true
is_working waiting_resource = true
is_working verifying = true
is_working _ = false

-- UPDATE operations SET f WHERE id = $1 AND guard RETURNING *
abbrev pub update_operation :
    (Operation → Bool) → (Operation → Operation) → ℕ → Database → Option (Operation × Database)
update_operation guard f id db = elim (update_one op_id id guard f db.operations) [
  | none ↦ none
  | some p ↦ some (p.0, record db { operations = p.1 })
]

abbrev or_else {ℓ} : {A : Type ℓ} → Option A → A → Option A
or_else none a = some a
or_else (some b) a = some b

-- ClaimOperation
abbrev pub claimed : ℕ → Operation → Operation
claimed now o = record o {
  status = running;
  phase = or_else o.phase "starting";
  started_at = or_else o.started_at now;
  heartbeat_at = some now;
}

unfoldable pub claim_operation : ℕ → ℕ → Database → Option (Operation × Database)
claim_operation now =
    update_operation (λ o. is_queued o.status && leb o.next_attempt_at now) (claimed now)

-- UpdateOperationProgress
unfoldable pub update_operation_progress :
    OperationStatus → String → ℤ → String → ℕ → ℕ → Database → Option (Operation × Database)
update_operation_progress status phase progress message_key now =
    update_operation (λ o. not (is_final o.status))
      (λ o. record o {
        status = status;
        phase = text_ phase;
        progress = progress;
        message_key = text_ message_key;
        heartbeat_at = some now;
      })

-- CompleteOperation
abbrev pub completed :
    OperationStatus → String → ℤ → String → String → String → ℕ → Operation → Operation
completed status phase progress message_key error_code error_message now o = record o {
  status = status;
  phase = text_ phase;
  progress = progress;
  message_key = text_ message_key;
  retryable = false;
  error_code = text_ error_code;
  error_message = text_ error_message;
  heartbeat_at = some now;
  finished_at = some now;
}

unfoldable pub complete_operation :
    OperationStatus
    → String
    → ℤ
    → String
    → String
    → String
    → ℕ
    → ℕ
    → Database
    → Option (Operation × Database)
complete_operation status phase progress message_key error_code error_message now =
    update_operation (λ o. not (is_final o.status))
      (completed status phase progress message_key error_code error_message now)

-- ScheduleOperationRetry
abbrev pub rescheduled : String → String → String → ℕ → ℕ → Operation → Operation
rescheduled error_code error_message message_key next now o = record o {
  status = retrying;
  phase = some "retrying";
  retryable = true;
  retry_count = o.retry_count + 1;
  error_code = text_ error_code;
  error_message = text_ error_message;
  message_key = text_ message_key;
  next_attempt_at = next;
  heartbeat_at = some now;
}

unfoldable pub schedule_operation_retry :
    String → String → String → ℕ → ℕ → ℕ → Database → Option (Operation × Database)
schedule_operation_retry error_code error_message message_key next now =
    update_operation (λ o. not (is_final o.status))
      (rescheduled error_code error_message message_key next now)

-- RequeueOperation
unfoldable pub requeue_operation : ℕ → Database → Option (Operation × Database)
requeue_operation =
    update_operation (λ o. is_retrying o.status)
      (λ o. record o {
        status = queued;
        phase = some "queued";
        progress = pos 0;
        message_key = some "operation.queued";
        retryable = false;
        heartbeat_at = none;
      })

abbrev pub is_before : Option ℕ → ℕ → Bool
is_before none cutoff = false
is_before (some t) cutoff = ltb t cutoff

abbrev heartbeat_before : Option ℕ → Option ℕ → Bool
heartbeat_before none none = true
heartbeat_before none (some _) = false
heartbeat_before (some a) none = true
heartbeat_before (some a) (some b) = leb a b

-- The query of RecoverStuck.
unfoldable pub stuck_operations : ℕ → ℕ → (ℕ → Bool) → List Operation → List Operation
stuck_operations cutoff limit locked t = take limit (
    order_by (λ a b. heartbeat_before a.heartbeat_at b.heartbeat_at)
      (where_ (λ o. is_working o.status && (is_before o.heartbeat_at cutoff && not (locked o.id)))
        t))

-- The update of RecoverStuck.
abbrev pub recovered : ℕ → Operation → Operation
recovered now o =
    let again = ltb o.retry_count o.max_retries in
    record o {
      status = if again then queued else failed;
      phase = some (if again then "queued" else "failed");
      progress = if again then pos 0 else pos 100;
      message_key = some (if again then "operation.queued" else "operation.failed");
      retryable = again;
      retry_count = if again then o.retry_count + 1 else o.retry_count;
      error_code = some "WORKER_HEARTBEAT_EXPIRED";
      error_message = some "worker heartbeat expired";
      heartbeat_at = none;
      finished_at = if again then none else some now;
    }

-- Whether a row was affected, and the new rows.
unfoldable pub recover_operation : ℕ → ℕ → Database → Bool × Database
recover_operation now id db =
    elim (update_operation (λ o. is_working o.status) (recovered now) id db) [
      | none ↦ (false, db)
      | some p ↦ (true, p.1)
    ]

-- ClaimDueOperationRetries; rows stand in the order of created_at.
unfoldable pub due_retries : ℕ → ℕ → (ℕ → Bool) → List Operation → List Operation
due_retries now limit locked t = take limit (
    order_by (λ a b. leb a.next_attempt_at b.next_attempt_at)
      (where_ (λ o. is_retrying o.status && (leb o.next_attempt_at now && not (locked o.id))) t))
