-- ===== src/Operation/Aside.antt =====
-- Progress and Step of backend/internal/operation/workflow.go write the tables of operations and the
-- outbox alone: a workflow that reports through them keeps what it has made of the subscriptions.
use Prim.Native.String.{String}
use vps_billing_codex.Shared.{ℕ, ◌≡◌, Bool, true, false, Option, some, List, arith, ◌||◌}
use vps_billing_codex.Shared.Int.{ℤ, pos, ltb_ℤ}
use vps_billing_codex.Shared.Table.{get}
use vps_billing_codex.Shared.Tx.{
  ◌>>=◌, ◌>>◌, select, change_row, or_fail, commit, no_rows, refused, fail_if,
}
use vps_billing_codex.Shared.Invariant.{
  Keeps, Keeps->>=, Keeps-select, Keeps-change_row, Keeps-commit, Keeps-or_fail, Keeps-transaction,
}
use vps_billing_codex.Store.{
  Database, Subscription, Instance, Operation, OperationStep, OperationStatus, StepStatus,
  EventType, operation_updated,
}
use vps_billing_codex.Operation.{
  OperationError, not_found, op_id, create_event, mutate, update_progress,
  update_operation_progress, invalid_request,
}
use vps_billing_codex.Operation.Create.{
  StepUpdate, update_operation_step, create_step_event, update_step, execution_step,
}

module _ (test : List Subscription → List Instance → Bool) where
  abbrev pub Holds : Database → Type 0
  Holds db = test db.subscriptions db.instances ≡ true

  create_event-Keeps :
      (t : EventType) (o : Operation) (r : Bool) → Keeps OperationError Holds (create_event t o r)
  unfolding create_event
  create_event-Keeps t o r w s v = ground arith

  progress_row-Holds :
      (status : OperationStatus) (phase : String) (progress : ℤ) (message_key : String) (now id : ℕ)
      (db : Database) (p : Operation × Database)
      → Holds db
      → update_operation_progress status phase progress message_key now id db ≡ some p
      → Holds p.1
  unfolding update_operation_progress
  progress_row-Holds status phase progress message_key now id db p h met = ground (arith, met)

  pub update_progress-Keeps :
      (id : ℕ) (status : OperationStatus) (phase : String) (progress : ℤ) (message_key : String)
      → Keeps OperationError Holds (update_progress id status phase progress message_key)
  unfolding update_progress mutate
  update_progress-Keeps id status phase progress message_key =
      Keeps->>= OperationError Holds
        (fail_if (ltb_ℤ progress (pos 0) || ltb_ℤ (pos 100) progress) (refused invalid_request))
        (λ _. mutate (λ now. update_operation_progress status phase progress message_key now id))
        (λ w s v. (s, v))
        (λ _. Keeps-transaction OperationError Holds _ (λ w.
          Keeps->>= OperationError Holds
            (change_row (update_operation_progress status phase progress message_key w.now id)
              (refused not_found))
            (λ o. create_event operation_updated o false >> commit)
            (Keeps-change_row OperationError Holds
              (update_operation_progress status phase progress message_key w.now id)
              (refused not_found) (progress_row-Holds status phase progress message_key w.now id))
            (λ o.
              Keeps->>= OperationError Holds (create_event operation_updated o false) (λ _. commit)
                (create_event-Keeps operation_updated o false)
                (λ _. Keeps-commit OperationError Holds))
            w))

  step_row-Holds :
      (operation : ℕ) (key : String) (u : StepUpdate) (now : ℕ) (db : Database)
      (p : OperationStep × Database)
      → Holds db
      → update_operation_step operation key u now db ≡ some p
      → Holds p.1
  unfolding update_operation_step
  step_row-Holds operation key u now db p h met = ground (arith, met)

  step_event-Keeps :
      (o : Operation) (s : OperationStep) → Keeps OperationError Holds (create_step_event o s)
  unfolding create_step_event
  step_event-Keeps o s w h v = ground arith

  step_end-Keeps :
      (operation : ℕ) (s : OperationStep)
      → Keeps OperationError Holds (
          select (λ (db : Database). get op_id operation db.operations) >>= λ found.
          or_fail found no_rows >>= λ o. create_step_event o s >> commit)
  step_end-Keeps operation s =
      Keeps->>= OperationError Holds (select (λ (db : Database). get op_id operation db.operations))
        (λ found. or_fail found no_rows >>= λ o. create_step_event o s >> commit)
        (Keeps-select OperationError Holds _)
        (λ found.
          Keeps->>= OperationError Holds (or_fail found no_rows)
            (λ o. create_step_event o s >> commit)
            (Keeps-or_fail OperationError Holds found no_rows)
            (λ o.
              Keeps->>= OperationError Holds (create_step_event o s) (λ _. commit)
                (step_event-Keeps o s) (λ _. Keeps-commit OperationError Holds)))

  update_step-Keeps :
      (operation : ℕ) (key : String) (u : StepUpdate)
      → Keeps OperationError Holds (update_step operation key u)
  unfolding update_step
  update_step-Keeps operation key u =
      Keeps->>= OperationError Holds
        (fail_if (ltb_ℤ u.progress (pos 0) || ltb_ℤ (pos 100) u.progress) (refused invalid_request))
        _ (λ w s v. (s, v))
        (λ _. Keeps-transaction OperationError Holds _ (λ w.
          Keeps->>= OperationError Holds
            (change_row (update_operation_step operation key u w.now) (refused not_found)) _
            (Keeps-change_row OperationError Holds (update_operation_step operation key u w.now)
              (refused not_found) (step_row-Holds operation key u w.now))
            (λ s. step_end-Keeps operation s) w))

  pub execution_step-Keeps :
      (operation : ℕ) (attempt : ℤ) (key : String) (status : StepStatus) (progress : ℤ)
      (code : String) (error : Option String) (output : String)
      → Keeps OperationError Holds
          (execution_step operation attempt key status progress code error output)
  unfolding execution_step
  execution_step-Keeps operation attempt key status progress code error output =
      update_step-Keeps operation key _
