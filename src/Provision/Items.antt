-- ===== src/Provision/Items.antt =====
-- The loop of EnsureForPaidOrder of backend/internal/provision/repository.go: it leaves its items
-- covered, and changes no row where they are.
use Prim.Native.String.{String}
use vps_billing_codex.Shared.{
  ℕ, zero, suc, ◌+◌, ◌≡◌, true, Option, none, some, arith, inl, inr, refl, ap, ◌∙◌, Option-cases,
  Bool-cases, ==_refl,
}
use vps_billing_codex.Shared.Tx.{
  World, ok, ◌>>=◌, select, change_row, unique_violation, IsUp, >>-ok,
}
use vps_billing_codex.Shared.Frame.{>>=-inv, change_row-inv}
use vps_billing_codex.Store.{Database, Subscription, Operation}
use vps_billing_codex.Operation.Create.{find_operation, insert_operation, operation_row}
use vps_billing_codex.Provision.{
  ProvisionError, Action, Names, Purchase, find_source, provision_key, provision_instance,
  provision_item, provision_items, queue_provision, queue_unless, queue_steps,
  create_purchase_subscription, create_pending_instance, purchase_subscription, pending_instance,
  deterministic_id, provision_request,
}
use vps_billing_codex.Provision.Frame.{
  queue_steps-Frames, queue_unless-Frames, provision_items-Frames,
}
use vps_billing_codex.Provision.Covered.{
  has_instance, has_operation, IsCovered, AreCovered, has_instance-IsOpen, has_operation-IsOpen,
  created_subscription, created_instance, created_operation,
}

queue_provision-has_operation :
    (names : Names) (order : ℕ) (p : Purchase) (trace : String) (index instance : ℕ)
    (w : World Database)
    → (queue_provision names order p trace index instance w).0 ≡ ok tt
    → has_operation names order index (queue_provision names order p trace index instance w).1.store
      ≡ true
unfolding queue_provision
queue_provision-has_operation names order p trace index instance w h =
    let row =
      operation_row (deterministic_id names "operation" order index) w.now
        (provision_request names order p trace index instance) in
    let w' = record w { calls = w.calls + 1; store = (insert_operation row w.store).1 } in
    elim (Bool-cases (w.broken w.calls)) [
      | inl down ↦ absurd (ground (arith, down, h))
      | inr alive ↦ elim (Option-cases (insert_operation row w.store).0) [
        | inl refused_ ↦ absurd (ground (arith, alive, refused_, h))
        | inr (o, made) ↦
            let run : queue_provision names order p trace index instance w
                ≡ queue_steps names order index o w' =
              ground (arith, alive, made) in
            rw run (
              queue_steps-Frames (λ db. has_operation names order index db ≡ true)
                (has_operation-IsOpen names order index) names order index o w'
                (created_operation row w.store made))
      ]
    ]

queue_unless-has_operation :
    (names : Names) (order : ℕ) (p : Purchase) (trace : String) (index instance : ℕ)
    (found : Option Operation) (w : World Database)
    → find_operation (provision_key names order index) w.store.operations ≡ found
    → (queue_unless names order p trace index instance found w).0 ≡ ok tt
    → has_operation names order index
        (queue_unless names order p trace index instance found w).1.store
      ≡ true
queue_unless-has_operation names order p trace index instance (some o) w met h = rw met
queue_unless-has_operation names order p trace index instance none w met h =
    queue_provision-has_operation names order p trace index instance w h

abbrev look_up : Names → ℕ → ℕ → Action (Option Operation)
look_up names order index =
    select (λ db. find_operation (provision_key names order index) db.operations)

-- The look-up of the operation and what follows it.
queue_found-IsCovered :
    (names : Names) (order : ℕ) (p : Purchase) (trace : String) (index instance : ℕ)
    (w : World Database)
    → has_instance order index w.store ≡ true
    → ((look_up names order index >>= queue_unless names order p trace index instance) w).0 ≡ ok tt
    → IsCovered names order index
        ((look_up names order index >>= queue_unless names order p trace index instance) w).1.store
queue_found-IsCovered names order p trace index instance w there h =
    elim (Bool-cases (w.broken w.calls)) [
      | inl down ↦ absurd (ground (arith, down, h))
      | inr alive ↦
          let found = find_operation (provision_key names order index) w.store.operations in
          let w' = record w { calls = w.calls + 1 } in
          let queue = queue_unless names order p trace index instance found in
          let run : (look_up names order index >>= queue_unless names order p trace index instance)
                w
              ≡ queue w' =
            ground (arith, alive) in
          rw run (
            queue_unless-Frames (λ db. has_instance order index db ≡ true)
                (has_instance-IsOpen order index) names order p trace index instance found w' there,
            queue_unless-has_operation names order p trace index instance found w' refl
                (rw run at h),
          )
    ]

-- What follows the subscription leaves the item covered, if it ends without an error.
provision_instance-IsCovered :
    (names : Names) (order : ℕ) (p : Purchase) (trace : String) (index : ℕ) (s : Subscription)
    (w : World Database)
    → find_source order index w.store.subscriptions ≡ some s
    → (provision_instance names order p trace index s w).0 ≡ ok tt
    → IsCovered names order index (provision_instance names order p trace index s w).1.store
unfolding provision_instance
provision_instance-IsCovered names order p trace index s w found h =
    let row = pending_instance names order p index s.id in
    let insert = change_row {E = ProvisionError} (create_pending_instance row) unique_violation in
    let (i, made, run) =
      >>=-inv insert
        (λ i. look_up names order index >>= queue_unless names order p trace index i.id) w h in
    let w' = (insert w).1 in
    let kept =
      created_instance row w.store (i, w'.store)
        (change_row-inv (create_pending_instance row) unique_violation w made) in
    let source : find_source order index w'.store.subscriptions ≡ some s =
      ap (find_source order index) kept.1 ∙ found in
    let there : has_instance order index w'.store ≡ true = ground (arith, source, kept.0) in
    rw run (queue_found-IsCovered names order p trace index i.id w' there (rw run at h))

provision_item-IsCovered :
    (names : Names) (order : ℕ) (p : Purchase) (trace : String) (index : ℕ) (w : World Database)
    → (provision_item names order p trace index w).0 ≡ ok tt
    → IsCovered names order index (provision_item names order p trace index w).1.store
unfolding provision_item
provision_item-IsCovered names order p trace index w h =
    let row = purchase_subscription names order p index in
    let insert =
      change_row {E = ProvisionError} (create_purchase_subscription order index row)
        unique_violation in
    let (s, made, run) = >>=-inv insert (provision_instance names order p trace index) w h in
    let found =
      created_subscription order index row w.store (s, (insert w).1.store)
        (ground (arith, ==_refl order, ==_refl index))
        (change_row-inv (create_purchase_subscription order index row) unique_violation w made) in
    rw run
      (provision_instance-IsCovered names order p trace index s (insert w).1 found (rw run at h))

IsCovered-kept :
    (names : Names) (order : ℕ) (p : Purchase) (trace : String) (rounds from index : ℕ)
    (w : World Database)
    → IsCovered names order index w.store
    → IsCovered names order index (provision_items names order p trace rounds from w).1.store
IsCovered-kept names order p trace rounds from index w h = (
  provision_items-Frames (λ db. has_instance order index db ≡ true)
      (has_instance-IsOpen order index) names order p trace rounds from w h.0,
  provision_items-Frames (λ db. has_operation names order index db ≡ true)
      (has_operation-IsOpen names order index) names order p trace rounds from w h.1,
)

-- A loop that ends without an error leaves all its items covered.
pub provision_items-AreCovered :
    (names : Names) (order : ℕ) (p : Purchase) (trace : String) (rounds index : ℕ)
    (w : World Database)
    → (provision_items names order p trace rounds index w).0 ≡ ok tt
    → AreCovered names order rounds index
        (provision_items names order p trace rounds index w).1.store
unfolding provision_items
provision_items-AreCovered names order p trace zero index w h = tt
provision_items-AreCovered names order p trace (suc rounds) index w h =
    let rest = provision_items names order p trace rounds (index + 1) in
    let (u, first, run) = >>=-inv (provision_item names order p trace index) (λ _. rest) w h in
    let w' = (provision_item names order p trace index w).1 in
    rw run (
      IsCovered-kept names order p trace rounds (index + 1) index w'
          (provision_item-IsCovered names order p trace index w first),
      provision_items-AreCovered names order p trace rounds (index + 1) w' (rw run at h),
    )

-- The loop over items that are covered changes no row.
provision_item-again :
    (names : Names) (order : ℕ) (p : Purchase) (trace : String) (index : ℕ) (w : World Database)
    → IsUp w
    → IsCovered names order index w.store
    → provision_item names order p trace index w ≡ (ok tt, record w { calls = w.calls + 1 + 1 + 1 })
unfolding provision_item provision_instance create_purchase_subscription create_pending_instance
provision_item-again names order p trace index w up h =
    elim (Option-cases (find_source order index w.store.subscriptions)) [
      | inl missing ↦ absurd (ground (arith, missing, h.0))
      | inr (s, found) ↦
          ground (arith, found, h.0, h.1, up w.calls, up (w.calls + 1), up (w.calls + 1 + 1))
    ]

pub provision_items-again :
    (names : Names) (order : ℕ) (p : Purchase) (trace : String) (rounds index : ℕ)
    (w : World Database)
    → IsUp w
    → AreCovered names order rounds index w.store
    → (n : ℕ) × (provision_items names order p trace rounds index w
        ≡ (ok tt, record w { calls = n }))
unfolding provision_items
provision_items-again names order p trace zero index w up h = (w.calls, refl)
provision_items-again names order p trace (suc rounds) index w up h =
    let w' = record w { calls = w.calls + 1 + 1 + 1 } in
    let (n, run) = provision_items-again names order p trace rounds (index + 1) w' up h.1 in
    (
      n,
      >>-ok (provision_item names order p trace index)
            (provision_items names order p trace rounds (index + 1))
            (provision_item-again names order p trace index w up h.0)
          ∙ run,
    )
