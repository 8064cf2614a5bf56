-- ===== src/Provision/Atomic.antt =====
-- EnsureForPaidOrder of backend/internal/provision/repository.go provisions a whole order or nothing.
use Prim.Native.String.{String}
use vps_billing_codex.Shared.{
  ℕ, zero, suc, ◌+◌, ◌≡◌, Option, none, some, arith, refl, inl, inr, Option-cases,
}
use vps_billing_codex.Shared.Int.{pos_part}
use vps_billing_codex.Shared.Tx.{World, Error, err, for_each}
use vps_billing_codex.Shared.Atomic.{KeepsSaved, KeepsSaved-for_each, KeepsSaved->>=}
use vps_billing_codex.Store.{Database, Subscription, Operation}
use vps_billing_codex.Operation.Create.{StepDefinition}
use vps_billing_codex.Provision.{
  ProvisionError, Names, Purchase, create_domain_event, create_operation_event,
  create_provision_step, provision_steps, queue_steps, queue_provision, queue_unless,
  provision_instance, provision_item, provision_items, provision_purchase, ensure_for_paid_order,
  paid_purchase,
}

step-KeepsSaved :
    (names : Names) (order index operation : ℕ) (d : StepDefinition)
    → KeepsSaved (create_provision_step names order index operation d)
unfolding create_provision_step
step-KeepsSaved names order index operation d w = ground arith

event-KeepsSaved : (o : Operation) → KeepsSaved (create_operation_event o)
unfolding create_operation_event create_domain_event
event-KeepsSaved o w = ground arith

queue_steps-KeepsSaved :
    (names : Names) (order index : ℕ) (o : Operation) → KeepsSaved (queue_steps names order index o)
unfolding queue_steps
queue_steps-KeepsSaved names order index o =
    KeepsSaved->>= (for_each (create_provision_step names order index o.id) provision_steps)
      (λ _. create_operation_event o)
      (KeepsSaved-for_each (create_provision_step names order index o.id) provision_steps
        (step-KeepsSaved names order index o.id))
      (λ _. event-KeepsSaved o)

queue_unless-KeepsSaved :
    (names : Names) (order : ℕ) (p : Purchase) (trace : String) (index instance : ℕ)
    (found : Option Operation)
    → KeepsSaved (queue_unless names order p trace index instance found)
unfolding queue_provision
queue_unless-KeepsSaved names order p trace index instance (some o) w = refl
queue_unless-KeepsSaved names order p trace index instance none w =
    grind (arith, queue_steps-KeepsSaved)

provision_instance-KeepsSaved :
    (names : Names) (order : ℕ) (p : Purchase) (trace : String) (index : ℕ) (s : Subscription)
    → KeepsSaved (provision_instance names order p trace index s)
unfolding provision_instance
provision_instance-KeepsSaved names order p trace index s w = grind (arith, queue_unless-KeepsSaved)

provision_item-KeepsSaved :
    (names : Names) (order : ℕ) (p : Purchase) (trace : String) (index : ℕ)
    → KeepsSaved (provision_item names order p trace index)
unfolding provision_item
provision_item-KeepsSaved names order p trace index w = grind (arith, provision_instance-KeepsSaved)

provision_items-KeepsSaved :
    (names : Names) (order : ℕ) (p : Purchase) (trace : String) (rounds index : ℕ)
    → KeepsSaved (provision_items names order p trace rounds index)
unfolding provision_items
provision_items-KeepsSaved names order p trace zero index w = refl
provision_items-KeepsSaved names order p trace (suc rounds) index w =
    KeepsSaved->>= (provision_item names order p trace index)
      (λ _. provision_items names order p trace rounds (index + 1))
      (provision_item-KeepsSaved names order p trace index)
      (λ _. provision_items-KeepsSaved names order p trace rounds (index + 1)) w

-- An EnsureForPaidOrder that ends in an error, also after some items of the order were provisioned,
-- leaves the committed database as it was.
pub ensure_atomic :
    (names : Names) (order : ℕ) (trace : String) (w : World Database) {e : Error ProvisionError}
    → (ensure_for_paid_order names order trace w).0 ≡ err e
    → (ensure_for_paid_order names order trace w).1.saved ≡ w.saved
unfolding ensure_for_paid_order provision_purchase
ensure_atomic names order trace w failed = elim (Option-cases (paid_purchase order w.store)) [
  | inl missing ↦ ground (arith, missing)
  | inr (p, paid) ↦ ground (
    arith,
    paid,
    provision_items-KeepsSaved names order p trace (pos_part p.quantity) 1
        (record w { calls = w.calls + 1 + 1 }),
  )
]
