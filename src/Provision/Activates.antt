-- ===== src/Provision/Activates.antt =====
-- A provisioning run that ends without an error activates its subscription: Execute of
-- backend/internal/provision/workflow.go.
use Prim.Native.String.{String}
use mathlib.Core.Path.{subst}
use vps_billing_codex.Shared.{
  ℕ, ◌+◌, ◌≡◌, Bool-cases, inl, inr, true, false, Option, none, some, arith, ap, ◌∙◌, sym,
}
use vps_billing_codex.Shared.Int.{pos}
use vps_billing_codex.Shared.Tx.{World, ok, refused, ◌>>=◌, ◌>>◌}
use vps_billing_codex.Shared.Invariant.{Keeps, Keeps->>=, Keeps-with_error}
use vps_billing_codex.Shared.Ends.{Ends, Ends-then, Ends-last, Ends-with_error, with_error-ok}
use vps_billing_codex.Shared.Frame.{>>=-inv}
use vps_billing_codex.Store.{Database, OperationStatus, StepStatus, ObservedState}
use vps_billing_codex.Operation.{update_progress}
use vps_billing_codex.Operation.Create.{execution_step}
use vps_billing_codex.Operation.Aside.{update_progress-Keeps, execution_step-Keeps}
use vps_billing_codex.Operation.Queue.{Failure, other_error}
use vps_billing_codex.Provider.{ProviderInstance}
use vps_billing_codex.Provision.{Placement, ContextRow, is_active, provision_context}
use vps_billing_codex.Provision.Finalize.{
  Context, context, complete_context, finalize, save_provider_result,
}
use vps_billing_codex.Provision.Workflow.{
  Flow, Library, StepOutput, wrapped, progress, step, finish_instance, verify_server, create_server,
  place_instance, resolved, provision_flow, provision_workflow, empty_output, nothing,
  subscription_output,
}
use vps_billing_codex.Provision.Returned.{returned-ok, returned-world}
use vps_billing_codex.Provision.Active.{has_active, IsActivated, finalize-IsActivated}

abbrev Activated : ℕ → World Database → Type 0
Activated id w = IsActivated id w.store × IsActivated id w.saved

module _ (l : Library) (operation attempt : ℕ) where
  module _ (id : ℕ) where
    abbrev Stays : {A : Type 0} → Flow A → Type 0
    Stays = Keeps Failure (IsActivated id)

    step-Stays :
        (key : String) (status : StepStatus) (percent : ℕ) (output : StepOutput)
        → Stays (step l operation attempt key status percent output)
    step-Stays key status percent output =
        Keeps-with_error (IsActivated id) (λ e. refused (other_error (l.operation_text e)))
          (execution_step operation (pos attempt) key status (pos percent) "" none
            (l.marshal output))
          (execution_step-Keeps (λ t _. has_active id t) operation (pos attempt) key status
            (pos percent) "" none (l.marshal output))

    progress-Stays :
        (status : OperationStatus) (phase : String) (percent : ℕ) (message_key : String)
        → Stays (progress l operation attempt status phase percent message_key)
    progress-Stays status phase percent message_key =
        Keeps-with_error (IsActivated id) (λ e. refused (other_error (l.operation_text e)))
          (update_progress operation status phase (pos percent) message_key)
          (update_progress-Keeps (λ t _. has_active id t) operation status phase (pos percent)
            message_key)

    then-Stays :
        {B : Type 0} (m : Flow (Unit {0})) (k : Flow B) → Stays m → Stays k → Stays (m >> k)
    then-Stays m k first second = Keeps->>= Failure (IsActivated id) m (λ _. k) first (λ _. second)

  -- What Execute does after Finalize, from its end.
  abbrev told : Flow (Unit {0})
  told =
      step l operation attempt "notify" StepStatus.succeeded 100 nothing
      >> progress l operation attempt OperationStatus.running "finish" 99
          "operation.provision.finishing"

  abbrev activated_and_told : ℕ → Flow (Unit {0})
  activated_and_told id =
      step l operation attempt "activate_subscription" StepStatus.succeeded 100
        (subscription_output id)
      >> told

  abbrev closing : ℕ → Flow (Unit {0})
  closing id =
      step l operation attempt "commit_reservation" StepStatus.succeeded 100 nothing
      >> activated_and_told id

  told-Stays : (id : ℕ) → Stays id told
  told-Stays id =
      then-Stays id (step l operation attempt "notify" StepStatus.succeeded 100 nothing)
        (progress l operation attempt OperationStatus.running "finish" 99
          "operation.provision.finishing")
        (step-Stays id "notify" StepStatus.succeeded 100 nothing)
        (progress-Stays id OperationStatus.running "finish" 99 "operation.provision.finishing")

  closing-Stays : (id : ℕ) → Stays id (closing id)
  closing-Stays id =
      then-Stays id (step l operation attempt "commit_reservation" StepStatus.succeeded 100 nothing)
        (activated_and_told id)
        (step-Stays id "commit_reservation" StepStatus.succeeded 100 nothing)
        (then-Stays id
          (step l operation attempt "activate_subscription" StepStatus.succeeded 100
            (subscription_output id))
          told
          (step-Stays id "activate_subscription" StepStatus.succeeded 100 (subscription_output id))
          (told-Stays id))

  finish-Activated :
      (c : Context) (p : Placement) (i : ProviderInstance)
      → is_active c.row.subscription.status ≡ false
      → Ends Failure (Activated c.row.subscription.id) (finish_instance l operation attempt c p i)
  unfolding finish_instance
  finish-Activated c p i fresh =
      let id = c.row.subscription.id in
      let Q = Activated id in
      Ends-last Q
        (wrapped l "INSTANCE_PERSIST_FAILED" true (
          save_provider_result l.names c.row.instance.id i.provider_instance_id
            ObservedState.running i.ipv4 i.ipv6))
        _
        (λ _.
          Ends-last Q
            (step l operation attempt "persist_network" StepStatus.succeeded 100 empty_output) _
            (λ _.
              Ends-last Q
                (step l operation attempt "commit_reservation" StepStatus.running 80 nothing) _
                (λ _.
                  Ends-then Q Q (wrapped l "PROVISION_FINALIZE_FAILED" true (finalize l.names c p))
                    (λ _. closing id)
                    (Ends-with_error Q _ (finalize l.names c p)
                      (finalize-IsActivated l.names c p fresh))
                    (λ _ w h b e. closing-Stays id w h.0 h.1))))

  -- The row that the context holds.
  complete-row :
      (row : ContextRow) (order group : Option ℕ) (w : World Database) {c : Context}
      → (complete_context row order group w).0 ≡ ok c
      → c.row ≡ row
  complete-row row none group w h = absurd (ground (arith, h))
  complete-row row (some o) none w h = absurd (ground (arith, h))
  complete-row row (some o) (some g) w h = ground (arith, h)

  context-row :
      (w : World Database) {c : Context} {row : ContextRow}
      → (context operation w).0 ≡ ok c
      → provision_context operation w.store ≡ some row
      → c.row ≡ row
  unfolding context
  context-row w {row = row} h met = elim (Bool-cases (w.broken w.calls)) [
    | inl down ↦ absurd (ground (arith, down, h))
    | inr alive ↦
        complete-row row row.subscription.source_order_id row.plan.node_group_id
          (record w { calls = w.calls + 1 }) (simp (alive, met) at h)
  ]

  -- What Execute does with the context.
  abbrev after_context : Context → Flow (Unit {0})
  after_context c = place_instance l operation attempt c >>= λ rp.
      resolved l operation attempt (l.resolve attempt rp.1.provider_id) >>= λ adapter.
      create_server l operation attempt c rp.0 rp.1 adapter >>= λ i.
      verify_server l operation attempt i >> finish_instance l operation attempt c rp.1 i

  after_context-Activated :
      (c : Context)
      → is_active c.row.subscription.status ≡ false
      → Ends Failure (Activated c.row.subscription.id) (after_context c)
  after_context-Activated c fresh =
      let Q = Activated c.row.subscription.id in
      Ends-last Q (place_instance l operation attempt c) _ (λ rp.
        Ends-last Q (resolved l operation attempt (l.resolve attempt rp.1.provider_id)) _
          (λ adapter. Ends-last Q (create_server l operation attempt c rp.0 rp.1 adapter) _ (λ i.
            Ends-last Q (verify_server l operation attempt i)
              (λ _. finish_instance l operation attempt c rp.1 i)
              (λ _. finish-Activated c rp.1 i fresh))))

  flow-Activated :
      (w : World Database) (row : ContextRow)
      → provision_context operation w.store ≡ some row
      → is_active row.subscription.status ≡ false
      → (provision_flow l operation attempt w).0 ≡ ok tt
      → Activated row.subscription.id (provision_flow l operation attempt w).1
  unfolding provision_flow
  flow-Activated w row met fresh done =
      let first = wrapped l "PROVISION_CONTEXT_INVALID" false (context operation) in
      let (c, read, rest) = >>=-inv first after_context w done in
      let same = context-row w (with_error-ok _ (context operation) w read) met in
      subst
        (λ (r : ContextRow). Activated r.subscription.id (provision_flow l operation attempt w).1)
        same
        (subst (λ p. Activated c.row.subscription.id p.1) (sym rest)
          (after_context-Activated c (ap (λ r. is_active r.subscription.status) same ∙ fresh)
            (first w).1 tt (sym (ap (λ p. p.0) rest) ∙ done)))

  -- A provisioning run that returns no error, over a context whose subscription was not active,
  -- leaves the subscription active in what is committed.
  pub workflow_activates :
      (w : World Database) (row : ContextRow)
      → provision_context operation w.store ≡ some row
      → is_active row.subscription.status ≡ false
      → (provision_workflow l operation attempt w).0 ≡ none
      → has_active row.subscription.id
          (provision_workflow l operation attempt w).1.saved.subscriptions
        ≡ true
  unfolding provision_workflow
  workflow_activates w row met fresh done =
      let p = provision_flow l operation attempt w in
      subst (λ (v : World Database). has_active row.subscription.id v.saved.subscriptions ≡ true)
        (sym (returned-world p)) (flow-Activated w row met fresh (returned-ok p done)).1
