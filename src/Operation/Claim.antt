-- ===== src/Operation/Claim.antt =====
-- Claim, and the end of an execution in processMessage of backend/internal/operation/queue.go.
use vps_billing_codex.Shared.{
  ℕ, ◌+◌, ◌*◌, ◌≤◌, ◌≡◌, ◌==◌, true, false, ◌&&◌, Option, none, some, List, [], ◌∷◌, arith, inl,
  inr, refl, Bool-cases, Option-cases, if◌then◌else◌, leb, ltb, ==_refl, option_map, eq_of_==, ◌++◌,
  ap, ◌∙◌,
}
use Prim.Native.String.{String}
use vps_billing_codex.Shared.Int.{ℤ, pos}
use native.Mathlib.Nat.{one-le-pow, pow-le-pow_right}
use vps_billing_codex.Shared.Table.{get, modify, get-modify}
use vps_billing_codex.Shared.Tx.{World, ok, err, refused, IsUp}
use vps_billing_codex.Store.{
  Database, Operation, retrying, OutboxEvent, OutboxStatus, OperationStatus, running, succeeded,
  failed, retrying, operation_updated, operation_data, operation_status_text,
}
use vps_billing_codex.Operation.{
  not_found, op_id, is_final, is_queued, claim_operation, claim, claimed, create_event,
  schedule_operation_retry, schedule_retry, WorkflowError, completed, rescheduled, raw, succeed,
  fail_operation, complete, mutate, complete_operation,
}
use vps_billing_codex.Operation.Queue.{
  second, backoff, settle_execution, Failure, as_workflow_error,
}

-- The event of a claim.
abbrev claim_event : World Database → Operation → OutboxEvent
claim_event w o = record {
  id = w.next_id;
  event_type = operation_updated;
  aggregate_id = o.id;
  occurred_at = w.now;
  payload =
      operation_data o.id o.user_id (operation_status_text o.status) o.phase o.progress
        o.message_key o.retryable o.error_code o.trace_id false;
  status = OutboxStatus.pending;
  attempts = 0;
  next_attempt_at = w.now;
}

abbrev pub after_claim : ℕ → World Database → Operation → World Database
after_claim id w o =
    let db = record (w.store) {
      operations = modify op_id id (claimed w.now) w.store.operations;
      outbox = w.store.outbox ++ claim_event w (claimed w.now o) ∷ [];
    } in
    record w { store = db; saved = db; next_id = w.next_id + 1; calls = w.calls + 1 + 1 + 1 + 1 }

pub claim_lem :
    (id : ℕ) (w : World Database) {o : Operation}
    → IsUp w
    → get op_id id w.store.operations ≡ some o
    → (is_queued o.status && leb o.next_attempt_at w.now) ≡ true
    → claim id w ≡ (ok (claimed w.now o), after_claim id w o)
unfolding claim claim_operation create_event
claim_lem id w up found due =
    ground (arith, up w.calls, up (w.calls + 1), up (w.calls + 1 + 1), up (w.calls + 1 + 1 + 1))

claim_refused :
    (id : ℕ) (w : World Database) {o : Operation}
    → IsUp w
    → get op_id id w.store.operations ≡ some o
    → is_queued o.status ≡ false
    → (claim id w).0 ≡ err (refused not_found)
unfolding claim claim_operation
claim_refused id w up found busy = ground (arith, up w.calls, up (w.calls + 1))

-- The row of an operation that runs from a time on: its phase and its start stay if it has them.
abbrev pub running_row : ℕ → Operation → Operation
running_row now o = record o {
  status = running;
  phase = elim o.phase [ none ↦ some "starting" | some p ↦ some p ];
  started_at = elim o.started_at [ none ↦ some now | some t ↦ some t ];
  heartbeat_at = some now;
}

claimed-running_row : (now : ℕ) (o : Operation) → claimed now o ≡ running_row now o
claimed-running_row now o = elim (Option-cases o.phase) [
  | inl no_phase ↦ elim (Option-cases o.started_at) [
    | inl fresh ↦ ground (arith, no_phase, fresh)
    | inr (t, begun) ↦ ground (arith, no_phase, begun)
  ]
  | inr (p, phase) ↦ elim (Option-cases o.started_at) [
    | inl fresh ↦ ground (arith, phase, fresh)
    | inr (t, begun) ↦ ground (arith, phase, begun)
  ]
]

-- While the database answers, a queued operation that is due is claimed: the caller gets the running
-- row, which is committed with every other row as it was, and a second claim finds nothing.
pub claim_once :
    (id : ℕ) (w : World Database) {o : Operation}
    → IsUp w
    → get op_id id w.store.operations ≡ some o
    → (is_queued o.status && leb o.next_attempt_at w.now) ≡ true
    → let (r, w') = claim id w in
      (r ≡ ok (running_row w.now o))
      × ((k : ℕ)
          → get op_id k w'.saved.operations
            ≡ (if k == id then some (running_row w.now o) else get op_id k w.store.operations))
      × ((claim id w').0 ≡ err (refused not_found))
claim_once id w {o} up found due =
    let e = claim_lem id w up found due in
    let same = claimed-running_row w.now o in
    let there = get-modify op_id (claimed w.now) (λ _. refl) in
    (
      ap (λ p. p.0) e ∙ ap ok same,
      λ k.
          ap (λ p. get op_id k p.1.saved.operations) e
          ∙ there k id w.store.operations
          ∙ ground (arith, found, same, eq_of_== k id),
      ap (λ p. (claim id p.1).0) e
          ∙ claim_refused id (after_claim id w o) {o = claimed w.now o} up
              (ground (arith, ==_refl id, there id id w.store.operations)) refl,
    )

capped :
    (n : ℕ)
    → ((if leb n 8 then n else 8) ≤ 8)
      × ((if leb n 8 then n else 8) ≤ (if leb (n + 1) 8 then n + 1 else 8))
capped n = (ground arith, ground arith)

-- The wait before a retry is between one second and 256 seconds and never shrinks from one retry to
-- the next.
pub backoff_bounds :
    (n : ℕ) → (second ≤ backoff n) × (backoff n ≤ 256 * second) × (backoff n ≤ backoff (n + 1))
unfolding backoff
backoff_bounds n = (
  omega (arith, one-le-pow (if leb n 8 then n else 8) 2 (omega arith)),
  omega (arith, pow-le-pow_right {n = 2} (omega arith) (capped n).0),
  omega (arith, pow-le-pow_right {n = 2} (omega arith) (capped n).1),
)

-- What an operation's end depends on.
abbrev pub outcome : Operation → OperationStatus × ℕ × ℕ
outcome o = (o.status, o.next_attempt_at, o.retry_count)

-- The end that an execution should have: `o` is the row as the workflow left it.
abbrev pub expected : Operation → Operation → Option Failure → ℕ → OperationStatus × ℕ × ℕ
expected current o none now = (succeeded, o.next_attempt_at, o.retry_count)
expected current o (some failure) now =
    if (as_workflow_error failure).retryable && ltb current.retry_count current.max_retries
    then (retrying, now + backoff current.retry_count, o.retry_count + 1)
    else (failed, o.next_attempt_at, o.retry_count)

complete_lem :
    (id : ℕ) (status : OperationStatus) (phase : String) (progress : ℤ) (message code text : String)
    (w : World Database) {o : Operation}
    → IsUp w
    → get op_id id w.store.operations ≡ some o
    → is_final o.status ≡ false
    → ((complete id status phase progress message code text w).0 ≡ ok tt)
      × ((complete id status phase progress message code text w).1.saved.operations
          ≡ modify op_id id
              (completed status phase progress message code text w.now)
              w.store.operations)
unfolding complete mutate complete_operation create_event
complete_lem id status phase progress message code text w up found open_ = (
  ground (arith, up w.calls, up (w.calls + 1), up (w.calls + 1 + 1), up (w.calls + 1 + 1 + 1)),
  ground (arith, up w.calls, up (w.calls + 1), up (w.calls + 1 + 1), up (w.calls + 1 + 1 + 1)),
)

schedule_retry_lem :
    (current : Operation) (e : WorkflowError) (next : ℕ) (w : World Database) {o : Operation}
    → IsUp w
    → get op_id current.id w.store.operations ≡ some o
    → is_final o.status ≡ false
    → ((schedule_retry current e next w).0 ≡ ok tt)
      × ((schedule_retry current e next w).1.saved.operations
          ≡ modify op_id current.id
              (rescheduled e.code (raw e.cause) e.message_key next w.now)
              w.store.operations)
unfolding schedule_retry schedule_operation_retry create_event
schedule_retry_lem current e next w up found open_ = (
  ground (arith, up w.calls, up (w.calls + 1), up (w.calls + 1 + 1), up (w.calls + 1 + 1 + 1)),
  ground (arith, up w.calls, up (w.calls + 1), up (w.calls + 1 + 1), up (w.calls + 1 + 1 + 1)),
)

-- The row under its key after an update of it.
outcome-modify :
    (f : Operation → Operation) (id : ℕ) (t : List Operation) {o : Operation}
    → ((u : Operation) → op_id (f u) ≡ op_id u)
    → get op_id id t ≡ some o
    → option_map outcome (get op_id id (modify op_id id f t)) ≡ some (outcome (f o))
outcome-modify f id t keep found = ground (arith, get-modify op_id f keep id id t, ==_refl id)

retried :
    (current : Operation) (e : WorkflowError) (next : ℕ) (w : World Database) {o : Operation}
    → IsUp w
    → get op_id current.id w.store.operations ≡ some o
    → is_final o.status ≡ false
    → ((schedule_retry current e next w).0 ≡ ok tt)
      × (option_map outcome
            (get op_id current.id (schedule_retry current e next w).1.saved.operations)
          ≡ some (retrying, next, o.retry_count + 1))
retried current e next w up found open_ =
    let done = schedule_retry_lem current e next w up found open_ in
    (
      done.0,
      ap (λ x. option_map outcome (get op_id current.id x)) done.1
          ∙ outcome-modify _ current.id w.store.operations (λ _. refl) found,
    )

gave_up :
    (id : ℕ) (e : WorkflowError) (w : World Database) {o : Operation}
    → IsUp w
    → get op_id id w.store.operations ≡ some o
    → is_final o.status ≡ false
    → ((fail_operation id e w).0 ≡ ok tt)
      × (option_map outcome (get op_id id (fail_operation id e w).1.saved.operations)
          ≡ some (failed, o.next_attempt_at, o.retry_count))
unfolding fail_operation
gave_up id e w up found open_ =
    let done =
      complete_lem id failed "failed" (pos 100) e.message_key e.code (raw e.cause) w up found
        open_ in
    (
      done.0,
      ap (λ x. option_map outcome (get op_id id x)) done.1
          ∙ outcome-modify _ id w.store.operations (λ _. refl) found,
    )

pub settle_execution_lem :
    (current : Operation) (failure : Option Failure) (w : World Database) {o : Operation}
    → IsUp w
    → get op_id current.id w.store.operations ≡ some o
    → is_final o.status ≡ false
    → let (r, w') = settle_execution current failure w in
      (r ≡ ok tt)
      × (option_map outcome (get op_id current.id w'.saved.operations)
          ≡ some (expected current o failure w.now))
unfolding settle_execution succeed
settle_execution_lem current none w up found open_ =
    let t = w.store.operations in
    let done =
      complete_lem current.id succeeded "finished" (pos 100) "operation.succeeded" "" "" w up found
        open_ in
    (
      done.0,
      ap (λ x. option_map outcome (get op_id current.id x)) done.1
          ∙ outcome-modify _ current.id t (λ _. refl) found,
    )
settle_execution_lem current (some failure) w {o} up found open_ =
    let e = as_workflow_error failure in
    elim (Bool-cases (e.retryable && ltb current.retry_count current.max_retries)) [
      | inl again ↦
          rw again (retried current e (w.now + backoff current.retry_count) w up found open_)
      | inr never ↦ rw never (gave_up current.id e w up found open_)
    ]
