-- ===== src/Operation/Final.antt =====
-- Finished operations, over the methods of backend/internal/operation/repository.go and queue.go.
use Prim.Native.String.{String}
use vps_billing_codex.Shared.{
  ℕ, ◌+◌, ◌≡◌, ◌==◌, Bool, true, false, not, ◌&&◌, Option, some, List, [], ◌∷◌, arith, inl, inr,
  refl, Bool-cases, Option-cases, eq_of_==, length, leb, if◌then◌else◌,
}
use mathlib.Core.Path.{subst, sym}
use vps_billing_codex.Shared.Int.{ℤ, pos, pos_part, leb_ℤ}
use vps_billing_codex.Shared.Table.{get, get-modify}
use vps_billing_codex.Shared.Tx.{
  World, Error, no_rows, refused, ◌>>=◌, ◌>>◌, pure, or_fail, fail_if, select, change, commit,
  for_each, change_row,
}
use vps_billing_codex.Shared.Invariant.{
  Keeps, Keeps->>=, Keeps-select, Keeps-change_row, Keeps-commit, Keeps-transaction, Keeps-for_each,
  Keeps-or_fail, Keeps-change, Keeps-if, Keeps-commit-pure,
}
use vps_billing_codex.Store.{
  Database, Operation, OperationStatus, EventType, operation_updated, operation_queued,
}
use vps_billing_codex.Operation.{
  OperationError, not_found, Action, WorkflowError, op_id, is_final, is_queued, is_working,
  is_retrying, update_operation, claim_operation, update_operation_progress, complete_operation,
  schedule_operation_retry, requeue_operation, recover_operation, create_event, mutate, claim,
  update_progress, complete, succeed, fail_operation, schedule_retry, recover_one, recover_stuck,
  requeue_one, requeue_due, recovered, claimed, raw, recover_batch, invalid_request, Call,
  claim_call, succeed_call, progress_call, fail_call, retry_call, recover_call, requeue_call,
  run_call, run_calls, publish_recovery, recovery_event, stuck_operations, due_retries,
}

-- The table has `row` under the key `k`.
abbrev Has : ℕ → Operation → Database → Type 0
Has k row db = get op_id k db.operations ≡ some row

update_operation-Has :
    (guard : Operation → Bool) (f : Operation → Operation) (id k : ℕ) (row : Operation)
    (db : Database) (p : Operation × Database)
    → ((o : Operation) → op_id (f o) ≡ op_id o)
    → guard row ≡ false
    → Has k row db
    → update_operation guard f id db ≡ some p
    → Has k row p.1
update_operation-Has guard f id k row db p keep closed found met =
    elim (Option-cases (get op_id id db.operations)) [
      | inl missing ↦ absurd (ground arith)
      | inr (o, there) ↦ elim (Bool-cases (k == id)) [
        | inl same ↦ absurd (ground (arith, eq_of_== k id same))
        | inr other ↦ ground (arith, get-modify op_id f keep k id db.operations)
      ]
    ]

module _ (k : ℕ) (row : Operation) (over : is_final row.status ≡ true) where
  abbrev Stays : {A : Type 0} → Action A → Type 0
  Stays = Keeps OperationError (Has k row)

  create_event-Stays : (t : EventType) (o : Operation) (r : Bool) → Stays (create_event t o r)
  unfolding create_event
  create_event-Stays t o r w s v = ground arith

  -- An update that passes over final rows.
  updated-Stays :
      (guard : Operation → Bool) (f : Operation → Operation) (id : ℕ) (e : Error OperationError)
      → ((o : Operation) → op_id (f o) ≡ op_id o)
      → guard row ≡ false
      → Stays (change_row (update_operation guard f id) e)
  updated-Stays guard f id e keep closed =
      Keeps-change_row OperationError (Has k row) (update_operation guard f id) e
        (λ db p found met. update_operation-Has guard f id k row db p keep closed found met)

  -- An event and the commit.
  event_and_commit-Stays :
      (t : EventType) (o : Operation) (r : Bool) → Stays (create_event t o r >> commit)
  event_and_commit-Stays t o r =
      Keeps->>= OperationError (Has k row) (create_event t o r) (λ _. commit)
        (create_event-Stays t o r) (λ _. Keeps-commit OperationError (Has k row))

  recover_operation-Has :
      (now id : ℕ) (db : Database) → Has k row db → Has k row (recover_operation now id db).1
  unfolding recover_operation
  recover_operation-Has now id db found =
      elim (Option-cases (update_operation (λ o. is_working o.status) (recovered now) id db)) [
        | inl none_met ↦ ground arith
        | inr (p, met) ↦ ground (
          arith,
          update_operation-Has (λ o. is_working o.status) (recovered now) id k row db p (λ _. refl)
              (ground arith) found met,
        )
      ]

  mutate-Stays :
      (m : ℕ → Database → Option (Operation × Database))
      → ((now : ℕ) → Stays (change_row (m now) (refused not_found)))
      → Stays (mutate m)
  unfolding mutate
  mutate-Stays m keep = Keeps-transaction OperationError (Has k row) _ (λ w.
      Keeps->>= OperationError (Has k row) (change_row (m w.now) (refused not_found))
        (λ o. create_event operation_updated o false >> commit) (keep w.now)
        (λ o. event_and_commit-Stays operation_updated o false) w)

  claim-Stays : (id : ℕ) → Stays (claim id)
  unfolding claim claim_operation
  claim-Stays id = Keeps-transaction OperationError (Has k row) _ (λ w.
      Keeps->>= OperationError (Has k row)
        (change_row (claim_operation w.now id) (refused not_found))
        (λ o. create_event operation_updated o false >> (commit >> pure o))
        (updated-Stays (λ o. is_queued o.status && leb o.next_attempt_at w.now) (claimed w.now) id
          (refused not_found) (λ _. refl) (ground arith))
        (λ o.
          Keeps->>= OperationError (Has k row) (create_event operation_updated o false)
            (λ _. commit >> pure o) (create_event-Stays operation_updated o false)
            (λ _. Keeps-commit-pure OperationError (Has k row) o))
        w)

  update_progress-Stays :
      (id : ℕ) (status : OperationStatus) (phase : String) (progress : ℤ) (message_key : String)
      → Stays (update_progress id status phase progress message_key)
  unfolding update_progress update_operation_progress
  update_progress-Stays id status phase progress message_key =
      Keeps->>= OperationError (Has k row) _ _ (λ w s v. (s, v))
        (λ _.
          mutate-Stays (λ now. update_operation_progress status phase progress message_key now id)
            (λ now.
              updated-Stays (λ o. not (is_final o.status)) _ id (refused not_found) (λ _. refl)
                (ground arith)))

  complete-Stays :
      (id : ℕ) (status : OperationStatus) (phase : String) (progress : ℤ)
      (message code text : String)
      → Stays (complete id status phase progress message code text)
  unfolding complete complete_operation
  complete-Stays id status phase progress message code text =
      mutate-Stays (λ now. complete_operation status phase progress message code text now id)
        (λ now.
          updated-Stays (λ o. not (is_final o.status)) _ id (refused not_found) (λ _. refl)
            (ground arith))

  succeed-Stays : (id : ℕ) → Stays (succeed id)
  unfolding succeed
  succeed-Stays id = complete-Stays id _ _ _ _ _ _

  fail_operation-Stays : (id : ℕ) (e : WorkflowError) → Stays (fail_operation id e)
  unfolding fail_operation
  fail_operation-Stays id e = complete-Stays id _ _ _ _ _ _

  schedule_retry-Stays :
      (current : Operation) (e : WorkflowError) (next : ℕ) → Stays (schedule_retry current e next)
  unfolding schedule_retry schedule_operation_retry
  schedule_retry-Stays current e next = Keeps-transaction OperationError (Has k row) _ (λ w.
      Keeps->>= OperationError (Has k row)
        (change_row
          (schedule_operation_retry e.code (raw e.cause) e.message_key next w.now current.id)
          no_rows)
        (λ o. create_event operation_updated o false >> commit)
        (updated-Stays (λ o. not (is_final o.status)) _ current.id no_rows (λ _. refl)
          (ground arith))
        (λ o. event_and_commit-Stays operation_updated o false) w)

  requeue_one-Stays : (o : Operation) → Stays (requeue_one o)
  unfolding requeue_one requeue_operation
  requeue_one-Stays o =
      Keeps->>= OperationError (Has k row) _ (λ u. create_event operation_queued u false)
        (updated-Stays (λ u. is_retrying u.status) _ o.id no_rows (λ _. refl) (ground arith))
        (λ u. create_event-Stays operation_queued u false)

  publish_recovery-Stays : (id : ℕ) → Stays (publish_recovery id)
  unfolding publish_recovery
  publish_recovery-Stays id =
      Keeps->>= OperationError (Has k row) (select (λ db. get op_id id db.operations))
        (λ found. or_fail found no_rows >>= recovery_event)
        (Keeps-select OperationError (Has k row) _)
        (λ found.
          Keeps->>= OperationError (Has k row) (or_fail found no_rows) recovery_event
            (Keeps-or_fail OperationError (Has k row) found no_rows)
            (λ o. create_event-Stays _ o true))

  recover_one-Stays : (o : Operation) → Stays (recover_one o)
  unfolding recover_one
  recover_one-Stays o w =
      Keeps->>= OperationError (Has k row) (change (recover_operation w.now o.id))
        (λ affected. if affected then publish_recovery o.id else pure tt)
        (Keeps-change OperationError (Has k row) (recover_operation w.now o.id)
          (recover_operation-Has w.now o.id))
        (λ affected.
          Keeps-if OperationError (Has k row) affected (publish_recovery o.id) (pure tt)
            (publish_recovery-Stays o.id) (λ w s v. (s, v)))
        w

  recover_batch-Stays : (cutoff limit : ℕ) → Stays (recover_batch cutoff limit)
  unfolding recover_batch
  recover_batch-Stays cutoff limit = Keeps-transaction OperationError (Has k row) _ (λ w.
      Keeps->>= OperationError (Has k row)
        (select (λ db. stuck_operations cutoff limit w.locked db.operations))
        (λ rows. for_each recover_one rows >> (commit >> pure (length rows)))
        (Keeps-select OperationError (Has k row) _)
        (λ rows.
          Keeps->>= OperationError (Has k row) (for_each recover_one rows)
            (λ _. commit >> pure (length rows))
            (Keeps-for_each OperationError (Has k row) recover_one rows recover_one-Stays)
            (λ _. Keeps-commit-pure OperationError (Has k row) (length rows)))
        w)

  recover_stuck-Stays : (cutoff : ℕ) (batch_size : ℤ) → Stays (recover_stuck cutoff batch_size)
  unfolding recover_stuck
  recover_stuck-Stays cutoff batch_size =
      Keeps->>= OperationError (Has k row)
        (fail_if (leb_ℤ batch_size (pos 0)) (refused invalid_request))
        (λ _. recover_batch cutoff (pos_part batch_size)) (λ w s v. (s, v))
        (λ _. recover_batch-Stays cutoff (pos_part batch_size))

  requeue_due-Stays : (batch_size : ℕ) → Stays (requeue_due batch_size)
  unfolding requeue_due
  requeue_due-Stays batch_size = Keeps-transaction OperationError (Has k row) _ (λ w.
      Keeps->>= OperationError (Has k row)
        (select (λ db. due_retries w.now batch_size w.locked db.operations))
        (λ rows. for_each requeue_one rows >> (commit >> pure (length rows)))
        (Keeps-select OperationError (Has k row) _)
        (λ rows.
          Keeps->>= OperationError (Has k row) (for_each requeue_one rows)
            (λ _. commit >> pure (length rows))
            (Keeps-for_each OperationError (Has k row) requeue_one rows requeue_one-Stays)
            (λ _. Keeps-commit-pure OperationError (Has k row) (length rows)))
        w)

  run_call-Has :
      (c : Call) (w : World Database)
      → Has k row w.store
      → Has k row w.saved
      → Has k row (run_call c w).store × Has k row (run_call c w).saved
  unfolding run_call
  run_call-Has (claim_call id) w s v = claim-Stays id w s v
  run_call-Has (progress_call id status phase progress message) w s v =
      update_progress-Stays id status phase progress message w s v
  run_call-Has (succeed_call id) w s v = succeed-Stays id w s v
  run_call-Has (fail_call id e) w s v = fail_operation-Stays id e w s v
  run_call-Has (retry_call current e next) w s v = schedule_retry-Stays current e next w s v
  run_call-Has (recover_call cutoff n) w s v = recover_stuck-Stays cutoff n w s v
  run_call-Has (requeue_call n) w s v = requeue_due-Stays n w s v

  run_calls-Has :
      (cs : List (ℕ × Call)) (w : World Database)
      → Has k row w.store
      → Has k row w.saved
      → Has k row (run_calls cs w).saved
  unfolding run_calls
  run_calls-Has [] w s v = v
  run_calls-Has ((later, c) ∷ cs) w s v =
      let after = run_call-Has c (record w { now = w.now + later }) s v in
      run_calls-Has cs (run_call c (record w { now = w.now + later })) after.0 after.1

-- A finished operation is final: no sequence of claims, progress reports, completions, retries,
-- recoveries and requeues, whatever their arguments and whichever statements fail, changes its
-- committed row.
pub finished_stays :
    (id : ℕ) (row : Operation) (calls : List (ℕ × Call)) (w : World Database)
    → w.store ≡ w.saved
    → get op_id id w.saved.operations ≡ some row
    → is_final row.status ≡ true
    → get op_id id (run_calls calls w).saved.operations ≡ some row
finished_stays id row calls w settled found over =
    run_calls-Has id row over calls w (subst (Has id row) (sym settled) found) found
