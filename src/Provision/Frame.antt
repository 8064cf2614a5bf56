-- ===== src/Provision/Frame.antt =====
-- What the transaction of EnsureForPaidOrder of backend/internal/provision/repository.go may change: it
-- appends rows, so what appending keeps it keeps.
use Prim.Native.String.{String}
use vps_billing_codex.Shared.{
  ℕ, zero, suc, ◌+◌, ◌≡◌, Option, none, some, [], ◌∷◌, ◌++◌, ◌&&◌, ◌⊎◌, arith, inl, inr,
  Option-cases, Bool-cases,
}
use mathlib.Core.Path.{subst}
use vps_billing_codex.Shared.Table.{get}
use vps_billing_codex.Shared.Tx.{
  ◌>>=◌, select, change, change_row, or_fail, for_each, unique_violation,
}
use vps_billing_codex.Shared.Frame.{
  Preserves, Preserves->>=, Preserves-select, Preserves-execute, Preserves-change,
  Preserves-change_row, Preserves-or_fail, Preserves-for_each,
}
use vps_billing_codex.Store.{
  Database, Subscription, Instance, Operation, OperationStep, OutboxEvent, EventType, Payload,
}
use vps_billing_codex.Operation.Create.{
  StepDefinition, insert_operation, insert_step, find_operation, operation_row, is_active_action,
  has_active_action,
}
use vps_billing_codex.Provision.{
  ProvisionError, Action, Names, Purchase, create_purchase_subscription, create_pending_instance,
  create_domain_event, domain_event, create_operation_event, create_provision_step, queue_provision,
  queue_steps, queue_unless, provision_instance, provision_item, provision_items, provision_steps,
  provision_request, purchase_subscription, pending_instance, deterministic_id, provision_key,
  find_source, instance_subscription, subscription_id_of, instance_id_of,
}

-- What may be appended to the tables.
pub record IsOpen (P : Database → Type 0) : Type 0 where
  pub subscription :
      (s : Database) (r : Subscription)
      → P s
      → P (record s { subscriptions = s.subscriptions ++ r ∷ [] })
  pub instance_ :
      (s : Database) (r : Instance) → P s → P (record s { instances = s.instances ++ r ∷ [] })
  pub operation :
      (s : Database) (r : Operation) → P s → P (record s { operations = s.operations ++ r ∷ [] })
  pub step :
      (s : Database) (r : OperationStep)
      → P s
      → P (record s { operation_steps = s.operation_steps ++ r ∷ [] })
  pub event : (s : Database) (r : OutboxEvent) → P s → P (record s { outbox = s.outbox ++ r ∷ [] })

insert_step-appends :
    (r : OperationStep) (s : Database) (p : Unit {0} × Database)
    → insert_step r s ≡ some p
    → record s { operation_steps = s.operation_steps ++ r ∷ [] } ≡ p.1
unfolding insert_step
insert_step-appends r s p met = ground (arith, met)

insert_operation-appends :
    (r : Operation) (s : Database)
    → (s ≡ (insert_operation r s).1)
      ⊎ (record s { operations = s.operations ++ r ∷ [] } ≡ (insert_operation r s).1)
unfolding insert_operation
insert_operation-appends r s = elim (Option-cases (find_operation r.idempotency_key s.operations)) [
  | inr (o, found) ↦ inl (ground (arith, found))
  | inl new ↦
      elim (Bool-cases (is_active_action r && has_active_action r.resource_id s.operations)) [
        | inl busy ↦ inl (ground (arith, new, busy))
        | inr free ↦ inr (ground (arith, new, free))
      ]
]

create_purchase_subscription-appends :
    (order index : ℕ) (r : Subscription) (s : Database) (p : Subscription × Database)
    → create_purchase_subscription order index r s ≡ some p
    → (s ≡ p.1) ⊎ (record s { subscriptions = s.subscriptions ++ r ∷ [] } ≡ p.1)
unfolding create_purchase_subscription
create_purchase_subscription-appends order index r s p met =
    elim (Option-cases (find_source order index s.subscriptions)) [
      | inr (o, found) ↦ inl (ground (arith, found, met))
      | inl new ↦ elim (Option-cases (get subscription_id_of r.id s.subscriptions)) [
        | inr (o, taken) ↦ absurd (ground (arith, new, taken, met))
        | inl free ↦ inr (ground (arith, new, free, met))
      ]
    ]

create_pending_instance-appends :
    (r : Instance) (s : Database) (p : Instance × Database)
    → create_pending_instance r s ≡ some p
    → (s ≡ p.1) ⊎ (record s { instances = s.instances ++ r ∷ [] } ≡ p.1)
unfolding create_pending_instance
create_pending_instance-appends r s p met =
    elim (Option-cases (get instance_subscription r.subscription_id s.instances)) [
      | inr (o, found) ↦ inl (ground (arith, found, met))
      | inl new ↦ elim (Option-cases (get instance_id_of r.id s.instances)) [
        | inr (o, taken) ↦ absurd (ground (arith, new, taken, met))
        | inl free ↦ inr (ground (arith, new, free, met))
      ]
    ]

module _ (P : Database → Type 0) (open_ : IsOpen P) where
  abbrev Frames : {A : Type 0} → Action A → Type 0
  Frames = Preserves ProvisionError P

  create_domain_event-Frames :
      (t : EventType) (id : ℕ) (p : Payload) → Frames (create_domain_event t id p)
  unfolding create_domain_event
  create_domain_event-Frames t id p w s =
      Preserves-execute ProvisionError P
        (λ db. record db { outbox = db.outbox ++ domain_event w.next_id w.now t id p ∷ [] })
        (λ db h. open_.event db _ h) (record w { next_id = w.next_id + 1 }) s

  create_operation_event-Frames : (o : Operation) → Frames (create_operation_event o)
  unfolding create_operation_event
  create_operation_event-Frames o = create_domain_event-Frames _ o.id _

  create_provision_step-Frames :
      (names : Names) (order index operation : ℕ) (d : StepDefinition)
      → Frames (create_provision_step names order index operation d)
  unfolding create_provision_step
  create_provision_step-Frames names order index operation d =
      Preserves-change_row ProvisionError P (insert_step _) unique_violation
        (λ db p h met. subst P (insert_step-appends _ db p met) (open_.step db _ h))

  insert_operation-kept : (r : Operation) (db : Database) → P db → P (insert_operation r db).1
  insert_operation-kept r db h = elim (insert_operation-appends r db) [
    | inl same ↦ subst P same h
    | inr more ↦ subst P more (open_.operation db r h)
  ]

  pub queue_steps-Frames :
      (names : Names) (order index : ℕ) (row : Operation)
      → Frames (queue_steps names order index row)
  unfolding queue_steps
  queue_steps-Frames names order index row =
      Preserves->>= ProvisionError P
        (for_each (create_provision_step names order index row.id) provision_steps)
        (λ _. create_operation_event row)
        (Preserves-for_each ProvisionError P (create_provision_step names order index row.id)
          provision_steps (create_provision_step-Frames names order index row.id))
        (λ _. create_operation_event-Frames row)

  queue_provision-Frames :
      (names : Names) (order : ℕ) (p : Purchase) (trace : String) (index instance : ℕ)
      → Frames (queue_provision names order p trace index instance)
  unfolding queue_provision
  queue_provision-Frames names order p trace index instance w =
      Preserves->>= ProvisionError P
        (change (
          insert_operation (
            operation_row (deterministic_id names "operation" order index) w.now
              (provision_request names order p trace index instance))))
        (λ inserted. or_fail inserted unique_violation >>= queue_steps names order index)
        (Preserves-change ProvisionError P _ (insert_operation-kept _))
        (λ inserted.
          Preserves->>= ProvisionError P (or_fail inserted unique_violation)
            (queue_steps names order index)
            (Preserves-or_fail ProvisionError P inserted unique_violation)
            (queue_steps-Frames names order index))
        w

  pub queue_unless-Frames :
      (names : Names) (order : ℕ) (p : Purchase) (trace : String) (index instance : ℕ)
      (found : Option Operation)
      → Frames (queue_unless names order p trace index instance found)
  queue_unless-Frames names order p trace index instance (some _) w s = s
  queue_unless-Frames names order p trace index instance none w s =
      queue_provision-Frames names order p trace index instance w s

  create_instance-Frames :
      (r : Instance) → Frames (change_row (create_pending_instance r) unique_violation)
  create_instance-Frames r =
      Preserves-change_row ProvisionError P (create_pending_instance r) unique_violation
        (λ db q h met. elim (create_pending_instance-appends r db q met) [
          | inl same ↦ subst P same h
          | inr more ↦ subst P more (open_.instance_ db r h)
        ])

  create_subscription-Frames :
      (order index : ℕ) (r : Subscription)
      → Frames (change_row (create_purchase_subscription order index r) unique_violation)
  create_subscription-Frames order index r =
      Preserves-change_row ProvisionError P (create_purchase_subscription order index r)
        unique_violation
        (λ db q h met. elim (create_purchase_subscription-appends order index r db q met) [
          | inl same ↦ subst P same h
          | inr more ↦ subst P more (open_.subscription db r h)
        ])

  -- What follows the subscription of an item.
  after_subscription-Frames :
      (names : Names) (order : ℕ) (p : Purchase) (trace : String) (index : ℕ) (s : Subscription)
      → Frames (provision_instance names order p trace index s)
  unfolding provision_instance
  after_subscription-Frames names order p trace index s =
      Preserves->>= ProvisionError P
        (change_row (create_pending_instance (pending_instance names order p index s.id))
          unique_violation)
        (λ i.
          select (λ (db : Database). find_operation (provision_key names order index) db.operations)
          >>= queue_unless names order p trace index i.id)
        (create_instance-Frames (pending_instance names order p index s.id))
        (λ i.
          Preserves->>= ProvisionError P
            (select
              (λ (db : Database). find_operation (provision_key names order index) db.operations))
            (queue_unless names order p trace index i.id) (Preserves-select ProvisionError P _)
            (queue_unless-Frames names order p trace index i.id))

  pub provision_item-Frames :
      (names : Names) (order : ℕ) (p : Purchase) (trace : String) (index : ℕ)
      → Frames (provision_item names order p trace index)
  unfolding provision_item
  provision_item-Frames names order p trace index =
      Preserves->>= ProvisionError P
        (change_row
          (create_purchase_subscription order index (purchase_subscription names order p index))
          unique_violation)
        (provision_instance names order p trace index)
        (create_subscription-Frames order index (purchase_subscription names order p index))
        (after_subscription-Frames names order p trace index)

  pub provision_items-Frames :
      (names : Names) (order : ℕ) (p : Purchase) (trace : String) (rounds index : ℕ)
      → Frames (provision_items names order p trace rounds index)
  unfolding provision_items
  provision_items-Frames names order p trace zero index w s = s
  provision_items-Frames names order p trace (suc rounds) index w s =
      Preserves->>= ProvisionError P (provision_item names order p trace index)
        (λ _. provision_items names order p trace rounds (index + 1))
        (provision_item-Frames names order p trace index)
        (λ _. provision_items-Frames names order p trace rounds (index + 1)) w s
