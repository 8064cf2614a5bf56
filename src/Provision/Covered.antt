-- ===== src/Provision/Covered.antt =====
-- An item of an order that EnsureForPaidOrder of backend/internal/provision/repository.go has dealt
-- with: it has a subscription, an instance and a provisioning operation.
use Prim.Native.String.{String}
use text.Mathlib.TextPositions.{eq_refl as str_refl}
use vps_billing_codex.Shared.{
  is_some, ℕ, zero, suc, ◌+◌, ◌≡◌, Bool, true, false, none, some, List, [], ◌∷◌, ◌++◌, arith, inl,
  inr, refl, Option-cases,
}
use vps_billing_codex.Shared.Table.{get, get-append}
use vps_billing_codex.Store.{Database, Subscription, Instance, Operation}
use vps_billing_codex.Operation.Create.{find_operation, insert_operation}
use vps_billing_codex.Provision.{
  Names, find_source, instance_subscription, provision_key, create_purchase_subscription,
  create_pending_instance, subscription_id_of, instance_id_of,
}
use vps_billing_codex.Provision.Frame.{IsOpen}

-- The item of the order has a subscription with an instance.
abbrev pub has_instance : ℕ → ℕ → Database → Bool
has_instance order index db = elim (find_source order index db.subscriptions) [
  | none ↦ false
  | some s ↦ is_some (get instance_subscription s.id db.instances)
]

abbrev pub has_operation : Names → ℕ → ℕ → Database → Bool
has_operation names order index db =
    is_some (find_operation (provision_key names order index) db.operations)

abbrev pub IsCovered : Names → ℕ → ℕ → Database → Type 0
IsCovered names order index db =
    (has_instance order index db ≡ true) × (has_operation names order index db ≡ true)

-- The items `index`, `index` + 1, ..., as many as `rounds`.
abbrev pub AreCovered : Names → ℕ → ℕ → ℕ → Database → Type 0
AreCovered names order zero index db = Unit
AreCovered names order (suc rounds) index db =
    IsCovered names order index db × AreCovered names order rounds (index + 1) db

find_source-append :
    (order index : ℕ) (t : List Subscription) (r : Subscription) {s : Subscription}
    → find_source order index t ≡ some s
    → find_source order index (t ++ r ∷ []) ≡ some s
find_source-append order index [] r {s} h = absurd (ground (arith, h))
find_source-append order index (x ∷ t) r {s} h =
    ground (arith, find_source-append order index t r {s = s})

get-append_kept :
    (k : ℕ) (t : List Instance) (r : Instance)
    → is_some (get instance_subscription k t) ≡ true
    → is_some (get instance_subscription k (t ++ r ∷ [])) ≡ true
get-append_kept k [] r h = absurd (ground (arith, h))
get-append_kept k (x ∷ t) r h = ground (arith, get-append_kept k t r)

find_operation-append :
    (key : String) (t : List Operation) (r : Operation)
    → is_some (find_operation key t) ≡ true
    → is_some (find_operation key (t ++ r ∷ [])) ≡ true
find_operation-append key [] r h = absurd (ground (arith, h))
find_operation-append key (x ∷ t) r h = ground (arith, find_operation-append key t r)

has_instance-subscription :
    (order index : ℕ) (db : Database) (r : Subscription)
    → has_instance order index db ≡ true
    → has_instance order index (record db { subscriptions = db.subscriptions ++ r ∷ [] }) ≡ true
has_instance-subscription order index db r h =
    elim (Option-cases (find_source order index db.subscriptions)) [
      | inl missing ↦ absurd (ground (arith, missing, h))
      | inr (s, found) ↦
          ground (arith, found, h, find_source-append order index db.subscriptions r found)
    ]

has_instance-instance :
    (order index : ℕ) (db : Database) (r : Instance)
    → has_instance order index db ≡ true
    → has_instance order index (record db { instances = db.instances ++ r ∷ [] }) ≡ true
has_instance-instance order index db r h =
    elim (Option-cases (find_source order index db.subscriptions)) [
      | inl missing ↦ absurd (ground (arith, missing, h))
      | inr (s, found) ↦ ground (arith, found, h, get-append_kept s.id db.instances r)
    ]

pub has_instance-IsOpen : (order index : ℕ) → IsOpen (λ db. has_instance order index db ≡ true)
has_instance-IsOpen order index = record {
  subscription = has_instance-subscription order index;
  instance_ = has_instance-instance order index;
  operation = λ db r h. h;
  step = λ db r h. h;
  event = λ db r h. h;
}

pub has_operation-IsOpen :
    (names : Names) (order index : ℕ) → IsOpen (λ db. has_operation names order index db ≡ true)
has_operation-IsOpen names order index = record {
  subscription = λ db r h. h;
  instance_ = λ db r h. h;
  operation = λ db r h. find_operation-append (provision_key names order index) db.operations r h;
  step = λ db r h. h;
  event = λ db r h. h;
}

find_source-append_new :
    (order index : ℕ) (t : List Subscription) (r : Subscription)
    → find_source order index t ≡ none
    → find_source order index (t ++ r ∷ []) ≡ find_source order index (r ∷ [])
find_source-append_new order index [] r h = refl
find_source-append_new order index (x ∷ t) r h =
    ground (arith, find_source-append_new order index t r)

-- The row that CreatePurchaseSubscription returns is found afterwards.
pub created_subscription :
    (order index : ℕ) (r : Subscription) (db : Database) (p : Subscription × Database)
    → find_source order index (r ∷ []) ≡ some r
    → create_purchase_subscription order index r db ≡ some p
    → find_source order index p.1.subscriptions ≡ some p.0
unfolding create_purchase_subscription
created_subscription order index r db p own met =
    elim (Option-cases (find_source order index db.subscriptions)) [
      | inr (s, found) ↦ ground (arith, found, met)
      | inl new ↦ elim (Option-cases (get subscription_id_of r.id db.subscriptions)) [
        | inr (o, taken) ↦ absurd (ground (arith, new, taken, met))
        | inl free ↦
            let last = find_source-append_new order index db.subscriptions r new in
            ground (arith, new, free, met, own, last)
      ]
    ]

pub created_instance :
    (r : Instance) (db : Database) (p : Instance × Database)
    → create_pending_instance r db ≡ some p
    → (is_some (get instance_subscription r.subscription_id p.1.instances) ≡ true)
      × (p.1.subscriptions ≡ db.subscriptions)
unfolding create_pending_instance
created_instance r db p met =
    elim (Option-cases (get instance_subscription r.subscription_id db.instances)) [
      | inr (s, found) ↦ (ground (arith, found, met), ground (arith, found, met))
      | inl new ↦ elim (Option-cases (get instance_id_of r.id db.instances)) [
        | inr (o, taken) ↦ absurd (ground (arith, new, taken, met))
        | inl free ↦
            let last = get-append instance_subscription r.subscription_id db.instances r new refl in
            (ground (arith, new, free, met, last), ground (arith, new, free, met))
      ]
    ]

find_operation-append_new :
    (t : List Operation) (r : Operation)
    → is_some (find_operation r.idempotency_key (t ++ r ∷ [])) ≡ true
find_operation-append_new [] r = ground (arith, str_refl r.idempotency_key)
find_operation-append_new (x ∷ t) r = ground (arith, find_operation-append_new t r)

pub created_operation :
    (r : Operation) (db : Database) {o : Operation}
    → (insert_operation r db).0 ≡ some o
    → is_some (find_operation r.idempotency_key (insert_operation r db).1.operations) ≡ true
unfolding insert_operation
created_operation r db h = ground (arith, find_operation-append_new db.operations r)
