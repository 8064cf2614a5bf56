-- ===== src/Operation/Create/Busy.antt =====
-- The actions on one instance through Create of backend/internal/operation/repository.go, whatever
-- statement fails.
use text.Mathlib.Text.{◌==◌ as str_eq}
use mathlib.Core.Path.{subst}
use vps_billing_codex.Shared.{
  ℕ, ◌+◌, ◌≤◌, ◌≡◌, ◌==◌, eq_of_==, ◌&&◌, ◌||◌, Bool, true, false, not, none, some, Option, List,
  [], ◌∷◌, ◌++◌, refl, arith, inl, inr, Bool-cases, Option-cases, if◌then◌else◌,
}
use vps_billing_codex.Shared.Tx.{
  World, unique_violation, ◌>>=◌, ◌>>◌, refused, fail_if, select, change, for_each, commit, pure,
  or_fail, meanwhile,
}
use vps_billing_codex.Shared.Invariant.{
  Keeps, Keeps->>=, Keeps-select, Keeps-change, Keeps-change_row, Keeps-commit-pure, Keeps-for_each,
  Keeps-or_fail, Keeps-transaction,
}
use vps_billing_codex.Store.{
  Database, Operation, OperationStep, OperationStatus, queued, running, waiting_provider,
  waiting_resource, verifying, retrying, succeeded, failed, cancelled, EventType, operation_queued,
}
use vps_billing_codex.Operation.Statements.{
  OperationError, is_final, idempotency_conflict, invalid_request,
}
use vps_billing_codex.Operation.{create_event}
use vps_billing_codex.Operation.Create.{
  StepDefinition, CreateRequest, find_operation, is_active_action, has_active_action, operation_row,
  insert_operation, step_row, insert_step, has_empty_key, create_step, queue_created,
  create_in_transaction, answer_created, create_unless, operation_with_steps, replay_operation,
  same_request, create_operation,
}

abbrev is_unfinished : OperationStatus → Bool
is_unfinished queued = true
is_unfinished running = true
is_unfinished waiting_provider = true
is_unfinished waiting_resource = true
is_unfinished verifying = true
is_unfinished retrying = true
is_unfinished succeeded = false
is_unfinished failed = false
is_unfinished cancelled = false

-- A start, stop, restart or reinstall of the instance that is not finished.
abbrev is_open_action : ℕ → Operation → Bool
is_open_action instance_id o =
    (str_eq o.kind "start"
      || (str_eq o.kind "stop" || (str_eq o.kind "restart" || str_eq o.kind "reinstall")))
    && (is_unfinished o.status
        && (str_eq o.resource_type "instance" && o.resource_id == instance_id))

abbrev pub open_actions : ℕ → List Operation → ℕ
open_actions instance_id [] = 0
open_actions instance_id (o ∷ os) =
    (if is_open_action instance_id o then 1 else 0) + open_actions instance_id os

-- The instance has one at most.
abbrev pub HasOneAction : ℕ → Database → Type 0
HasOneAction instance_id db = open_actions instance_id db.operations ≤ 1

is_unfinished-is_final : (s : OperationStatus) → is_unfinished s ≡ not (is_final s)
is_unfinished-is_final queued = refl
is_unfinished-is_final running = refl
is_unfinished-is_final waiting_provider = refl
is_unfinished-is_final waiting_resource = refl
is_unfinished-is_final verifying = refl
is_unfinished-is_final retrying = refl
is_unfinished-is_final succeeded = refl
is_unfinished-is_final failed = refl
is_unfinished-is_final cancelled = refl

open_actions-append :
    (k : ℕ) (os : List Operation) (o : Operation)
    → open_actions k (os ++ o ∷ []) ≡ open_actions k os + (if is_open_action k o then 1 else 0)
open_actions-append k [] o = omega arith
open_actions-append k (p ∷ os) o = omega (arith, open_actions-append k os o)

-- The program's test is the one that is meant.
is_open_action_lem :
    (k : ℕ) (o : Operation) → is_open_action k o ≡ (is_active_action o && o.resource_id == k)
is_open_action_lem k o = ground (arith, is_unfinished-is_final o.status)

no_open_action :
    (k : ℕ) (os : List Operation) → has_active_action k os ≡ false → open_actions k os ≡ 0
no_open_action k [] h = refl
no_open_action k (o ∷ os) h = ground (arith, no_open_action k os, is_open_action_lem k o)

module _ (k : ℕ) where
  insert_operation-HasOneAction :
      (o : Operation) (db : Database) → HasOneAction k db → HasOneAction k (insert_operation o db).1
  unfolding insert_operation
  insert_operation-HasOneAction o db h =
      elim (Option-cases (find_operation o.idempotency_key db.operations)) [
        | inr (p, used) ↦ ground (arith, used, h)
        | inl new ↦
            elim (Bool-cases
              (is_active_action o && has_active_action o.resource_id db.operations)) [
                | inl busy ↦ ground (arith, new, busy, h)
                | inr free ↦ elim (Bool-cases (is_open_action k o)) [
                  | inr other ↦
                      ground (arith, new, free, h, other, open_actions-append k db.operations o)
                  | inl own ↦
                      let lem = is_open_action_lem k o in
                      let active : is_active_action o ≡ true = ground (arith, lem, own) in
                      let named : o.resource_id ≡ k =
                        eq_of_== o.resource_id k (ground (arith, lem, own)) in
                      let idle : has_active_action k db.operations ≡ false =
                        subst (λ n. has_active_action n db.operations ≡ false) named
                          (ground (arith, free, active)) in
                      ground (
                        arith,
                        new,
                        free,
                        own,
                        no_open_action k db.operations idle,
                        open_actions-append k db.operations o,
                      )
                ]
              ]
      ]

  create_event-HasOneAction :
      (t : EventType) (o : Operation) (r : Bool)
      → Keeps OperationError (HasOneAction k) (create_event t o r)
  unfolding create_event
  create_event-HasOneAction t o r w s v = ground arith

  insert_step-HasOneAction :
      (row : OperationStep) (db : Database) (p : Unit {0} × Database)
      → HasOneAction k db
      → insert_step row db ≡ some p
      → HasOneAction k p.1
  unfolding insert_step
  insert_step-HasOneAction row db p h met = ground (arith, met)

  create_step-HasOneAction :
      (operation : ℕ) (d : StepDefinition)
      → Keeps OperationError (HasOneAction k) (create_step operation d)
  unfolding create_step
  create_step-HasOneAction operation d w s v =
      Keeps-change_row OperationError (HasOneAction k)
        (insert_step (step_row w.next_id operation d)) unique_violation
        (insert_step-HasOneAction (step_row w.next_id operation d))
        (record w { next_id = w.next_id + 1 }) s v

  queue_created-HasOneAction :
      (r : CreateRequest) (o : Option Operation)
      → Keeps OperationError (HasOneAction k) (queue_created r o)
  unfolding queue_created
  queue_created-HasOneAction r none = λ w s v. (s, v)
  queue_created-HasOneAction r (some o) =
      let P = HasOneAction k in
      Keeps->>= OperationError P (for_each (create_step o.id) r.steps)
        (λ _. create_event operation_queued o false >> (commit >> pure (some o)))
        (Keeps-for_each OperationError P (create_step o.id) r.steps (create_step-HasOneAction o.id))
        (λ _.
          Keeps->>= OperationError P (create_event operation_queued o false)
            (λ _. commit >> pure (some o)) (create_event-HasOneAction operation_queued o false)
            (λ _. Keeps-commit-pure OperationError P (some o)))

  create_in_transaction-HasOneAction :
      (r : CreateRequest) → Keeps OperationError (HasOneAction k) (create_in_transaction r)
  unfolding create_in_transaction
  create_in_transaction-HasOneAction r =
      let P = HasOneAction k in
      Keeps-transaction OperationError P _ (λ w s v.
        let o = operation_row w.next_id w.now r in
        Keeps->>= OperationError P (change (insert_operation o)) (λ i. queue_created r i)
          (Keeps-change OperationError P (insert_operation o) (insert_operation-HasOneAction o))
          (queue_created-HasOneAction r) (record w { next_id = w.next_id + 1 }) s v)

  with_steps-HasOneAction :
      (o : Operation) → Keeps OperationError (HasOneAction k) (operation_with_steps o)
  unfolding operation_with_steps
  with_steps-HasOneAction o w s v = ground arith

  replay_operation-HasOneAction :
      (r : CreateRequest) (o : Operation)
      → Keeps OperationError (HasOneAction k) (replay_operation r o)
  unfolding replay_operation
  replay_operation-HasOneAction r o =
      Keeps->>= OperationError (HasOneAction k)
        (fail_if (not (same_request o r)) (refused idempotency_conflict))
        (λ _. operation_with_steps o) (λ w s v. (s, v)) (λ _. with_steps-HasOneAction o)

  answer_created-HasOneAction :
      (r : CreateRequest) (o : Option Operation)
      → Keeps OperationError (HasOneAction k) (answer_created r o)
  unfolding answer_created
  answer_created-HasOneAction r (some o) = with_steps-HasOneAction o
  answer_created-HasOneAction r none =
      let P = HasOneAction k in
      let look : Database → Option Operation =
        λ db. find_operation r.idempotency_key db.operations in
      Keeps->>= OperationError P (select look)
        (λ found. or_fail found (refused idempotency_conflict) >>= λ o. replay_operation r o)
        (Keeps-select OperationError P look)
        (λ found.
          Keeps->>= OperationError P (or_fail found (refused idempotency_conflict))
            (λ o. replay_operation r o)
            (Keeps-or_fail OperationError P found (refused idempotency_conflict))
            (replay_operation-HasOneAction r))

  create_unless-HasOneAction :
      (others : Database → Database) (r : CreateRequest) (o : Option Operation)
      → ((db : Database) → HasOneAction k db → HasOneAction k (others db))
      → Keeps OperationError (HasOneAction k) (create_unless others r o)
  create_unless-HasOneAction others r (some o) fair = replay_operation-HasOneAction r o
  create_unless-HasOneAction others r none fair =
      let P = HasOneAction k in
      let rest = create_in_transaction r >>= λ o. answer_created r o in
      Keeps->>= OperationError P (fail_if (has_empty_key r.steps) (refused invalid_request))
        (λ _. meanwhile others >> rest) (λ w s v. (s, v))
        (λ _.
          Keeps->>= OperationError P (meanwhile others) (λ _. rest)
            (λ w s v. (fair w.saved v, fair w.saved v))
            (λ _.
              Keeps->>= OperationError P (create_in_transaction r) (λ o. answer_created r o)
                (create_in_transaction-HasOneAction r) (answer_created-HasOneAction r)))

  -- An instance has one unfinished start, stop, restart or reinstall at most: where this holds of the
  -- rows that the session sees and of the committed ones, and other sessions keep it, it holds of the
  -- committed rows after Create, whatever it asks for and whichever statement fails.
  pub create_keeps_one_action :
      (others : Database → Database) (r : CreateRequest) (w : World Database)
      → HasOneAction k w.store
      → HasOneAction k w.saved
      → ((db : Database) → HasOneAction k db → HasOneAction k (others db))
      → HasOneAction k (create_operation others r w).1.saved
  unfolding create_operation
  create_keeps_one_action others r w seen committed fair =
      let P = HasOneAction k in
      let look : Database → Option Operation =
        λ db. find_operation r.idempotency_key db.operations in
      (Keeps->>= OperationError P (select look) (λ found. create_unless others r found)
        (Keeps-select OperationError P look)
        (λ found. create_unless-HasOneAction others r found fair) w seen committed).1
