-- ===== src/InstanceAction/Steps.antt =====
-- What the parts of Execute in backend/internal/instanceaction/workflow.go make of the instance's states.
use Prim.Native.String.{String}
use text.Mathlib.Text.{◌==◌ as str_eq}
use vps_billing_codex.Shared.{
  ◌&◌, ℕ, ◌+◌, ◌≡◌, ==_refl, Bool, true, false, none, some, List, arith, inl, inr, refl, Bool-cases,
  Option-cases, ◌&&◌, is_some, if◌then◌else◌,
}
use vps_billing_codex.Shared.Int.{pos}
use vps_billing_codex.Shared.Table.{get, get-modify}
use vps_billing_codex.Shared.Tx.{World, refused, outside}
use vps_billing_codex.Shared.Invariant.{Keeps-with_error}
use vps_billing_codex.Shared.Ends.{After, After-then}
use vps_billing_codex.Store.{
  Database, Instance, DesiredState, ObservedState, OperationStatus, StepStatus,
}
use vps_billing_codex.Operation.{update_progress}
use vps_billing_codex.Operation.Create.{execution_step}
use vps_billing_codex.Operation.Aside.{Holds, update_progress-Keeps, execution_step-Keeps}
use vps_billing_codex.Operation.Queue.{Failure, other_error}
use vps_billing_codex.Provider.{Answer, Adapter}
use vps_billing_codex.Provision.{instance_id_of}
use vps_billing_codex.Provision.Workflow.{Flow}
use vps_billing_codex.InstanceAction.{
  action_of, Surroundings, ActionContext, ActionKind, start, stop, suspend, restart, reinstall,
  ActionOutput, desired, transitional, stored, set_action_state, set_observed, report, record_step,
  ask_provider, call, or_unavailable, or_provider_error, no_output, operation_output,
  action_request,
}

-- The tests for the states that an action can end in.
abbrev pub same_desired : DesiredState → DesiredState → Bool
same_desired DesiredState.running DesiredState.running = true
same_desired DesiredState.stopped DesiredState.stopped = true
same_desired DesiredState.suspended DesiredState.suspended = true
same_desired _ _ = false

abbrev pub same_observed : ObservedState → ObservedState → Bool
same_observed ObservedState.running ObservedState.running = true
same_observed ObservedState.stopped ObservedState.stopped = true
same_observed ObservedState.suspended ObservedState.suspended = true
same_observed _ _ = false

abbrev pub wants : ActionKind → ℕ → List Instance → Bool
wants a id t = elim (get instance_id_of id t) [
  | none ↦ false
  | some i ↦ same_desired (desired a) i.desired_state
]

-- The row is there, with a desired and an observed state.
abbrev pub ends_as : DesiredState → ObservedState → ℕ → List Instance → Bool
ends_as d o id t = elim (get instance_id_of id t) [
  | none ↦ false
  | some i ↦ same_desired d i.desired_state && same_observed o i.observed_state
]

abbrev pub has_settled : ActionKind → ℕ → List Instance → Bool
has_settled a = ends_as (desired a) (stored a)

-- What the types of operations end in: stopped, suspended or running.
abbrev pub has_ended : String → ℕ → List Instance → Bool
has_ended kind id t =
    let running = ends_as DesiredState.running ObservedState.running id t in
    if str_eq kind "start"
    then running
    else if str_eq kind "stop"
    then ends_as DesiredState.stopped ObservedState.stopped id t
    else if str_eq kind "suspend"
    then ends_as DesiredState.suspended ObservedState.suspended id t
    else if str_eq kind "restart"
    then running
    else if str_eq kind "reinstall"
    then running
    else false

pub has_settled-has_ended :
    (kind : String) (a : ActionKind) (id : ℕ) (t : List Instance)
    → action_of kind ≡ some a
    → has_settled a id t ≡ true
    → has_ended kind id t ≡ true
has_settled-has_ended kind start id t known h = ground arith
has_settled-has_ended kind stop id t known h = ground arith
has_settled-has_ended kind suspend id t known h = ground arith
has_settled-has_ended kind restart id t known h = ground arith
has_settled-has_ended kind reinstall id t known h = ground arith

desired_itself : (a : ActionKind) → same_desired (desired a) (desired a) ≡ true
desired_itself start = refl
desired_itself stop = refl
desired_itself suspend = refl
desired_itself restart = refl
desired_itself reinstall = refl

stored_itself : (a : ActionKind) → same_observed (stored a) (stored a) ≡ true
stored_itself start = refl
stored_itself stop = refl
stored_itself suspend = refl
stored_itself restart = refl
stored_itself reinstall = refl

abbrev pub present : ℕ → List Instance → Bool
present id t = is_some (get instance_id_of id t)

pub set_action-wants :
    (a : ActionKind) (id : ℕ) (db : Database)
    → present id db.instances ≡ true
    → wants a id (set_action_state id (desired a) (transitional a) db).instances ≡ true
unfolding set_action_state
set_action-wants a id db h = elim (Option-cases (get instance_id_of id db.instances)) [
  | inl missing ↦ absurd (ground (arith, missing, h))
  | inr (i, found) ↦ ground (
    arith,
    found,
    ==_refl id,
    desired_itself a,
    get-modify instance_id_of
        (λ (i : Instance). record i {
          desired_state = desired a;
          observed_state = transitional a;
          version = i.version + 1;
        })
        (λ _. refl) id id db.instances,
  )
]

pub set_observed-settles :
    (a : ActionKind) (id now : ℕ) (db : Database)
    → wants a id db.instances ≡ true
    → has_settled a id (set_observed id (stored a) now db).instances ≡ true
unfolding set_observed
set_observed-settles a id now db h = elim (Option-cases (get instance_id_of id db.instances)) [
  | inl missing ↦ absurd (ground (arith, missing, h))
  | inr (i, found) ↦ ground (
    arith,
    found,
    h,
    ==_refl id,
    stored_itself a,
    get-modify instance_id_of
        (λ (i : Instance). record i {
          observed_state = stored a;
          last_synced_at = some now;
          version = i.version + 1;
        })
        (λ _. refl) id id db.instances,
  )
]

-- A test on the instances, in the session and in what is committed.
abbrev pub Both : (List Instance → Bool) → World Database → Type 0
Both test w = Holds (λ _ t. test t) w.store × Holds (λ _ t. test t) w.saved

-- A statement outside a transaction
pub outside-After :
    (p q : List Instance → Bool) (f : Database → Database)
    → ((db : Database) → p db.instances ≡ true → q (f db).instances ≡ true)
    → {E : Type 0} → After E (Both p) (Both q) (outside (λ db. (tt, f db)))
outside-After p q f step w h a e = elim (Bool-cases (w.broken w.calls)) [
  | inl down ↦ absurd (ground (arith, down, e))
  | inr alive ↦ rw alive (step w.store h.0, step w.store h.0)
]

module _ (l : Surroundings) (operation attempt : ℕ) where
  abbrev pub Leads :
      (List Instance → Bool) → (List Instance → Bool) → {A : Type 0} → Flow A → Type 0
  Leads p q = After Failure (Both p) (Both q)

  pub report-Leads :
      (p : List Instance → Bool) (status : OperationStatus) (phase : String) (percent : ℕ)
      (message_key : String)
      → Leads p p (report l operation attempt status phase percent message_key)
  report-Leads p status phase percent message_key w h a e =
      Keeps-with_error (Holds (λ _ t. p t)) (λ e. refused (other_error (l.operation_text e)))
        (update_progress operation status phase (pos percent) message_key)
        (update_progress-Keeps (λ _ t. p t) operation status phase (pos percent) message_key) w h.0
        h.1

  pub step-Leads :
      (p : List Instance → Bool) (key : String) (status : StepStatus) (percent : ℕ)
      (output : ActionOutput)
      → Leads p p (record_step l operation attempt key status percent output)
  step-Leads p key status percent output w h a e =
      Keeps-with_error (Holds (λ _ t. p t)) (λ e. refused (other_error (l.operation_text e)))
        (execution_step operation (pos attempt) key status (pos percent) "" none (l.marshal output))
        (execution_step-Keeps (λ _ t. p t) operation (pos attempt) key status (pos percent) "" none
          (l.marshal output))
        w h.0 h.1

  unavailable-Leads :
      (p : List Instance → Bool) (answer : Answer Adapter) → Leads p p (or_unavailable l answer)
  unavailable-Leads p (Answer.answered a) w h b e = h
  unavailable-Leads p (Answer.provider_error x) w h b e = h
  unavailable-Leads p (Answer.other_error x) w h b e = h

  answer-Leads :
      {A : Type 0} (p : List Instance → Bool) (answer : Answer A)
      → Leads p p (or_provider_error l answer)
  answer-Leads p (Answer.answered a) w h b e = h
  answer-Leads p (Answer.provider_error x) w h b e = h
  answer-Leads p (Answer.other_error x) w h b e = h

  pub ask-Leads :
      (p : List Instance → Bool) (c : ActionContext) (a : ActionKind)
      → Leads p p (ask_provider l operation attempt c a)
  unfolding ask_provider
  ask-Leads p c a =
      let P = Both p in
      After-then P P P (or_unavailable l (l.resolve attempt c.provider_id)) _
        (unavailable-Leads p (l.resolve attempt c.provider_id))
        (λ adapter.
          After-then P P P
            (report l operation attempt OperationStatus.waiting_provider "provider" 30
              ("operation.instance." & c.operation_type))
            _ (report-Leads p OperationStatus.waiting_provider "provider" 30 _)
            (λ _.
              After-then P P P
                (record_step l operation attempt "provider" StepStatus.running 20 no_output) _
                (step-Leads p "provider" StepStatus.running 20 no_output)
                (λ _.
                  After-then P P P
                    (or_provider_error l
                      (call l a adapter (action_request l operation attempt c) c.image_id))
                    _
                    (answer-Leads p
                      (call l a adapter (action_request l operation attempt c) c.image_id))
                    (λ done.
                      After-then P P P
                        (record_step l operation attempt "provider" StepStatus.succeeded 100
                          (operation_output done.provider_operation_id))
                        _
                        (step-Leads p "provider" StepStatus.succeeded 100
                          (operation_output done.provider_operation_id))
                        (λ _.
                          After-then P P P
                            (report l operation attempt OperationStatus.verifying "verify" 80
                              "operation.instance.verifying")
                            _ (report-Leads p OperationStatus.verifying "verify" 80 _)
                            (λ _. answer-Leads p (
                              adapter.get_instance (record {
                                node_id = c.provider_node_id;
                                provider_instance_id = c.provider_instance_id;
                                platform_instance_id = l.uuid_text c.instance_id;
                              }))))))))
