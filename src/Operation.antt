-- ===== src/Operation.antt =====
-- backend/internal/operation: the queue of provisioning jobs as a state machine in the table
-- operations. PostgresRepository's and RetryScheduler's methods are `do` blocks over the database; the
-- statements that they issue are in Operation.Statements, and the worker that calls them in
-- Operation.Queue.
mod Statements
unfoldable pub use Statements.*
pub mod Queue
pub mod Create
pub mod Final
pub mod Aside
pub mod Claim
pub mod Message
mod Tests
use Prim.Native.String.{String}
use text.Mathlib.Text.{◌==◌ as str_eq}
use vps_billing_codex.Shared.{
  ℕ, ◌+◌, Bool, true, false, not, ◌&&◌, ◌||◌, Option, none, some, List, [], ◌∷◌, ◌++◌, ltb, leb,
  if◌then◌else◌, where_, order_by, take, length,
}
use vps_billing_codex.Shared.Int.{ℤ, pos, pos_part, ltb_ℤ, leb_ℤ}
use vps_billing_codex.Shared.Table.{get, modify, update_one}
use vps_billing_codex.Shared.Tx.{
  World, no_rows, refused, M, ◌>>=◌, ◌>>◌, pure, fail_if, or_fail, select, change, change_row,
  execute, clock, lock_table, new_id, commit, transaction, for_each,
}
use vps_billing_codex.Store.{
  Database, Operation, OperationStatus, queued, running, waiting_provider, waiting_resource,
  verifying, retrying, succeeded, failed, cancelled, operation_status_text, EventType,
  operation_queued, operation_updated, operation_data, OutboxStatus,
}

-- createEvent, with CreateOutboxEvent; `recovered` stands for the extra key of RecoverStuck.
unfoldable pub create_event : EventType → Operation → Bool → Action (Unit {0})
create_event event_type o recovered = do
  event_id ← new_id
  now ← clock
  execute (λ db. record db {
    outbox =
        db.outbox
        ++ record {
          id = event_id;
          event_type = event_type;
          aggregate_id = o.id;
          occurred_at = now;
          payload =
              operation_data o.id o.user_id (operation_status_text o.status) o.phase o.progress
                o.message_key o.retryable o.error_code o.trace_id recovered;
          status = OutboxStatus.pending;
          attempts = 0;
          next_attempt_at = now;
        }
          ∷ [];
  })

-- PostgresRepository.mutate: the statement gets PostgreSQL's now().
unfoldable pub mutate : (ℕ → Database → Option (Operation × Database)) → Action (Unit {0})
mutate mutation = transaction (do
  now ← clock
  updated ← change_row (mutation now) (refused not_found)
  create_event operation_updated updated false
  commit)

-- PostgresRepository.Claim
unfoldable pub claim : ℕ → Action Operation
claim id = transaction (do
  now ← clock
  row ← change_row (claim_operation now id) (refused not_found)
  create_event operation_updated row false
  commit
  pure row)

-- PostgresRepository.UpdateProgress
unfoldable pub update_progress : ℕ → OperationStatus → String → ℤ → String → Action (Unit {0})
update_progress id status phase progress message_key = do
  fail_if (ltb_ℤ progress (pos 0) || ltb_ℤ (pos 100) progress) (refused invalid_request)
  mutate (λ now. update_operation_progress status phase progress message_key now id)

-- PostgresRepository.complete
unfoldable pub complete :
    ℕ → OperationStatus → String → ℤ → String → String → String → Action (Unit {0})
complete id status phase progress message_key error_code error_message =
    mutate
      (λ now. complete_operation status phase progress message_key error_code error_message now id)

-- PostgresRepository.Succeed
unfoldable pub succeed : ℕ → Action (Unit {0})
succeed id = complete id succeeded "finished" (pos 100) "operation.succeeded" "" ""

abbrev pub raw : Option String → String
raw none = ""
raw (some s) = s

-- PostgresRepository.Fail; its callers give an error that is not nil.
unfoldable pub fail_operation : ℕ → WorkflowError → Action (Unit {0})
fail_operation id e = complete id failed "failed" (pos 100) e.message_key e.code (raw e.cause)

-- PostgresRepository.ScheduleRetry; no row is reported as the driver does.
unfoldable pub schedule_retry : Operation → WorkflowError → ℕ → Action (Unit {0})
schedule_retry current e next = transaction (do
  now ← clock
  updated ←
      change_row (schedule_operation_retry e.code (raw e.cause) e.message_key next now current.id)
        no_rows
  create_event operation_updated updated false
  commit)

abbrev pub recovery_event : Operation → Action (Unit {0})
recovery_event o =
    create_event (if is_queued o.status then operation_queued else operation_updated) o true

-- The row is read again and its event is published.
unfoldable pub publish_recovery : ℕ → Action (Unit {0})
publish_recovery id = do
  found ← select (λ db. get op_id id db.operations)
  updated ← or_fail found no_rows
  recovery_event updated

-- The body of RecoverStuck's loop.
unfoldable pub recover_one : Operation → Action (Unit {0})
recover_one o = do
  now ← clock
  affected ← change (recover_operation now o.id)
  if affected then publish_recovery o.id else pure tt

-- The transaction of RecoverStuck.
unfoldable pub recover_batch : ℕ → ℕ → Action ℕ
recover_batch cutoff limit = transaction (do
  locked ← lock_table
  rows ← select (λ db. stuck_operations cutoff limit locked db.operations)
  for_each recover_one rows
  commit
  pure (length rows))

-- PostgresRepository.RecoverStuck
unfoldable pub recover_stuck : ℕ → ℤ → Action ℕ
recover_stuck cutoff batch_size = do
  fail_if (leb_ℤ batch_size (pos 0)) (refused invalid_request)
  recover_batch cutoff (pos_part batch_size)

-- The body of the loop of RetryScheduler.ProcessBatch.
unfoldable pub requeue_one : Operation → Action (Unit {0})
requeue_one o = do
  updated ← change_row (requeue_operation o.id) no_rows
  create_event operation_queued updated false

-- RetryScheduler.ProcessBatch
unfoldable pub requeue_due : ℕ → Action ℕ
requeue_due batch_size = transaction (do
  locked ← lock_table
  now ← clock
  rows ← select (λ db. due_retries now batch_size locked db.operations)
  for_each requeue_one rows
  commit
  pure (length rows))

-- The calls that change an operation after Create, by whichever process makes them.
pub data Call : Type 0 where
  claim_call succeed_call : ℕ → Call
  progress_call : ℕ → OperationStatus → String → ℤ → String → Call
  fail_call : ℕ → WorkflowError → Call
  retry_call : Operation → WorkflowError → ℕ → Call
  recover_call : ℕ → ℤ → Call
  requeue_call : ℕ → Call

-- The world after a call, whatever its result.
unfoldable pub run_call : Call → World Database → World Database
run_call (claim_call id) w = (claim id w).1
run_call (succeed_call id) w = (succeed id w).1
run_call (progress_call id status phase progress message_key) w =
    (update_progress id status phase progress message_key w).1
run_call (fail_call id e) w = (fail_operation id e w).1
run_call (retry_call current e next) w = (schedule_retry current e next w).1
run_call (recover_call cutoff n) w = (recover_stuck cutoff n w).1
run_call (requeue_call n) w = (requeue_due n w).1

-- The calls of all processes one after another; between two of them time passes.
unfoldable pub run_calls : List (ℕ × Call) → World Database → World Database
run_calls [] w = w
run_calls ((later, c) ∷ cs) w = run_calls cs (run_call c (record w { now = w.now + later }))
