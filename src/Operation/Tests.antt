-- ===== src/Operation/Tests.antt =====
-- Runs of backend/internal/operation on small tables.
use vps_billing_codex.Shared.{
  ℕ, ◌+◌, ◌*◌, ◌≤◌, ◌≡◌, ◌==◌, true, false, none, some, List, [], ◌∷◌, refl, option_map,
  if◌then◌else◌, order_by,
}
use vps_billing_codex.Shared.Int.{pos}
use vps_billing_codex.Shared.Table.{get}
use vps_billing_codex.Shared.Tx.{World, ok, err, refused, for_each}
use vps_billing_codex.Store.{Database, empty_database, Operation, queued, running, succeeded}
use vps_billing_codex.Operation.{
  op_id, not_found, WorkflowError, claim, claimed, schedule_retry, recover_stuck, Call, claim_call,
  progress_call, fail_call, retry_call, recover_call, requeue_call, run_call, run_calls,
  recover_batch, recover_one, recover_operation, publish_recovery, stuck_operations, create_event,
  claim_operation, schedule_operation_retry,
}
use vps_billing_codex.Operation.Queue.{second, backoff, process_message, workflow_error, Workflow}
use vps_billing_codex.Operation.Final.{finished_stays}
use vps_billing_codex.Operation.Claim.{claim_once, running_row, backoff_bounds, outcome, expected}
use vps_billing_codex.Operation.Message.{process_message_lem}

abbrev waiting_job : Operation
waiting_job = record {
  id = 5;
  kind = "provision";
  resource_type = "order";
  resource_id = 21;
  status = queued;
  phase = some "queued";
  progress = pos 0;
  message_key = some "operation.queued";
  idempotency_key = "order:21";
  retryable = false;
  retry_count = 0;
  max_retries = 1;
  error_code = none;
  error_message = none;
  trace_id = "trace";
  started_at = none;
  finished_at = none;
  user_id = some 3;
  actor_admin_id = none;
  next_attempt_at = 90;
  heartbeat_at = none;
}

abbrev finished_job : Operation
finished_job = record waiting_job {
  id = 6;
  status = succeeded;
  progress = pos 100;
  finished_at = some 95;
}

abbrev job_world : World Database
job_world =
    let db : Database = record empty_database { operations = waiting_job ∷ finished_job ∷ [] } in
    record {
      store = db;
      saved = db;
      now = 100;
      next_id = 1000;
      calls = 0;
      broken = λ _. false;
      locked = λ _. false;
    }

abbrev time_out : WorkflowError
time_out = record {
  code = "PROVIDER_TIMEOUT";
  message_key = "operation.retrying";
  retryable = true;
  cause = none;
}

abbrev day_of_calls : List (ℕ × Call)
day_of_calls =
    (0, claim_call 5)
    ∷ (10, progress_call 6 running "again" (pos 1) "m")
    ∷ (10, fail_call 6 time_out)
    ∷ (10, recover_call 125 (pos 10))
    ∷ (5, requeue_call 50)
    ∷ []

finished_stays_example :
    get op_id 6 (run_calls day_of_calls job_world).saved.operations ≡ some finished_job
finished_stays_example = finished_stays 6 finished_job day_of_calls job_world refl refl refl

claim_once_example :
    let (r, w') = claim 5 job_world in
    (r ≡ ok (running_row 100 waiting_job))
    × ((k : ℕ)
        → get op_id k w'.saved.operations ≡ (
            if k == 5
            then some (running_row 100 waiting_job)
            else get op_id k job_world.store.operations))
    × ((claim 5 w').0 ≡ err (refused not_found))
claim_once_example = claim_once 5 job_world {o = waiting_job} (λ _. refl) refl refl

backoff_bounds_example : (second ≤ backoff 3) × (backoff 3 ≤ 256 * second) × (backoff 3 ≤ backoff 4)
backoff_bounds_example = backoff_bounds 3

-- A workflow that takes 30 ticks and times out.
abbrev slow_workflow : Workflow
slow_workflow _ _ w = (some (workflow_error time_out), record w { now = w.now + 30 })

process_message_lem_example :
    let (r, w'') = process_message (λ _. some 5) (λ _. some slow_workflow) (some "{}") job_world in
    (r ≡ ok tt)
    × (option_map outcome (get op_id 5 w''.saved.operations)
        ≡ some (
            expected
              (claimed 100 waiting_job)
              (claimed 100 waiting_job)
              (some (workflow_error time_out))
              130))
process_message_lem_example =
    process_message_lem (λ _. some 5) (λ _. some slow_workflow) "{}" 5 job_world {o = waiting_job}
      {row = claimed 100 waiting_job} {f = slow_workflow} (λ _. refl) refl refl refl refl refl refl
      (λ _. refl) refl refl

-- A worker claims the job; its heartbeat expires, so the job is queued again with its one retry used;
-- then the worker, which still holds the row as it claimed it, schedules a retry.
abbrev stale_worker : List (ℕ × Call)
stale_worker =
    (0, claim_call 5)
    ∷ (50, recover_call 120 (pos 10))
    ∷ (10, retry_call (claimed 100 waiting_job) time_out 200)
    ∷ []

retries_passed :
    option_map {B = ℕ × ℕ}
      (λ o. (o.retry_count, o.max_retries))
      (get op_id 5 (run_calls stale_worker job_world).saved.operations)
    ≡ some (2, 1)
unfolding run_calls run_call claim claim_operation create_event recover_stuck recover_batch
    recover_one recover_operation publish_recovery stuck_operations schedule_retry
    schedule_operation_retry for_each order_by
retries_passed = refl
