-- ===== src/Operation/Queue.antt =====
-- QueueConsumer.processMessage of backend/internal/operation/queue.go, with WorkflowRegistry and
-- Execution of workflow.go. A workflow is code of other packages: a function of the registry that is an
-- argument.
use Prim.Native.String.{String}
use vps_billing_codex.Shared.{
  ℕ, ◌+◌, ◌*◌, ◌^◌, false, ◌&&◌, Option, none, some, ltb, leb, ◌==◌, if◌then◌else◌,
}
use vps_billing_codex.Shared.Tx.{
  World, Result, ok, err, refused, ◌>>=◌, ◌>>◌, fail_if, or_fail, clock,
}
use vps_billing_codex.Store.{Database, Operation}
use vps_billing_codex.Operation.{
  OperationError, not_found, invalid_request, no_payload, malformed_payload, Action, WorkflowError,
  claim, fail_operation, succeed, schedule_retry,
}

-- The error of a workflow: a WorkflowError is in its chain, or it is another error with its text.
pub data Failure : Type 0 where
  workflow_error : WorkflowError → Failure
  other_error : String → Failure

-- Workflow.Execute of an Execution (operation and attempt); `none` is nil.
abbrev pub Workflow : Type 0
Workflow = (operation_id attempt : ℕ) → World Database → Option Failure × World Database

-- WorkflowRegistry.Get
abbrev pub Registry : Type 0
Registry = String → Option Workflow

abbrev execute_workflow : Workflow → ℕ → ℕ → Action (Option Failure)
execute_workflow f id attempt w = let (r, w') = f id attempt w in (ok r, w')

abbrev pub as_workflow_error : Failure → WorkflowError
as_workflow_error (workflow_error e) = e
as_workflow_error (other_error s) = record {
  code = "WORKFLOW_FAILED";
  message_key = "operation.failed";
  retryable = false;
  cause = some s;
}

abbrev pub second : ℕ
second = 10 ^ 9

-- 1 << min(RetryCount, 8) seconds
unfoldable pub backoff : ℕ → ℕ
backoff retry_count = 2 ^ (if leb retry_count 8 then retry_count else 8) * second

-- What follows Execute.
unfoldable pub settle_execution : Operation → Option Failure → Action (Unit {0})
settle_execution current none = succeed current.id
settle_execution current (some failure) = do
  now ← clock
  let e = as_workflow_error failure
  if e.retryable && ltb current.retry_count current.max_retries
      then schedule_retry current e (now + backoff current.retry_count)
      else fail_operation current.id e

abbrev pub missing_workflow : WorkflowError
missing_workflow = record {
  code = "WORKFLOW_NOT_REGISTERED";
  message_key = "operation.errors.workflowMissing";
  retryable = false;
  cause = some "operation workflow is not registered";
}

-- The part after a successful Claim.
unfoldable pub run_claimed : Registry → Operation → Action (Unit {0})
run_claimed registry current = elim (registry current.kind) [
  | none ↦ fail_operation current.id missing_workflow
  | some workflow ↦ do
    failure ← execute_workflow workflow current.id (current.retry_count + 1)
    settle_execution current failure
]

-- errors.Is(err, ErrNotFound): nil, so that the message is acknowledged.
abbrev pub after_claim :
    Registry
    → Result OperationError Operation × World Database
    → Result OperationError (Unit {0}) × World Database
after_claim registry (ok current, w) = run_claimed registry current w
after_claim registry (err (refused not_found), w) = (ok tt, w)
after_claim registry (err e, w) = (err e, w)

abbrev pub claim_and_run : Registry → ℕ → Action (Unit {0})
claim_and_run registry id w = after_claim registry (claim id w)

-- QueueConsumer.processMessage: `decode` reads data.operation_id out of the JSON, the nil uuid (0)
-- where it is absent.
unfoldable pub process_message :
    (decode : String → Option ℕ) → Registry → Option String → Action (Unit {0})
process_message decode registry payload = do
  text ← or_fail payload (refused no_payload)
  id ← or_fail (decode text) (refused malformed_payload)
  fail_if (id == 0) (refused invalid_request)
  claim_and_run registry id
