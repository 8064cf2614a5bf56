-- ===== src/Commerce/Order/Atomic.antt =====
-- CreateOrder and CreateRenewalOrder of backend/internal/commerce/repository.go commit an order whole
-- or not at all.
use Prim.Native.String.{String}
use vps_billing_codex.Shared.{
  ℕ, ◌≡◌, ◌⊎◌, inl, inr, Option, none, some, arith, refl, Bool, ◌∙◌, Option-cases, Bool-cases, ◌+◌,
}
use vps_billing_codex.Shared.Int.{ℤ}
use vps_billing_codex.Shared.Tx.{
  World, Error, Result, ok, err, database, no_rows, unique_violation, refused, transaction,
  Result-cases,
}
use vps_billing_codex.Shared.Atomic.{Atomic}
use vps_billing_codex.Store.{Database, Order}
use vps_billing_codex.Commerce.Base.{CommerceError, Action}
use vps_billing_codex.Commerce.Order.{
  Draft, OrderView, find_order, order_with_payment, replay, bill, place, or_replay, by_key,
  once_per_key, place_purchase, place_renewal, create_order, create_renewal_order, is_purchase,
  is_renewal_of,
}

replay-saved :
    (same : Order → Bool) (o : Order) (w : World Database) → (replay same o w).1.saved ≡ w.saved
unfolding replay order_with_payment
replay-saved same o w = ground arith

bill_atomic :
    (i p : ℕ) (d : Draft) (o : Order) (w : World Database) {e : Error CommerceError}
    → (bill i p d o w).0 ≡ err e
    → (bill i p d o w).1.saved ≡ w.saved
unfolding bill
bill_atomic i p d o w failed = ground arith

place_atomic :
    (d : Draft) (w : World Database) {e : Error CommerceError}
    → (place d w).0 ≡ err e
    → (place d w).1.saved ≡ w.saved
unfolding place
place_atomic d w failed = grind (arith, bill_atomic)

place_purchase_atomic :
    (user plan_id : ℕ) (quantity : ℤ) (key : String) (w : World Database) {e : Error CommerceError}
    → (place_purchase user plan_id quantity key w).0 ≡ err e
    → (place_purchase user plan_id quantity key w).1.saved ≡ w.saved
unfolding place_purchase
place_purchase_atomic user plan_id quantity key w failed = grind (arith, place_atomic)

place_renewal_atomic :
    (user id : ℕ) (key : String) (w : World Database) {e : Error CommerceError}
    → (place_renewal user id key w).0 ≡ err e
    → (place_renewal user id key w).1.saved ≡ w.saved
unfolding place_renewal
place_renewal_atomic user id key w failed = grind (arith, place_atomic)

or_replay-saved :
    (same : Order → Bool) (user : ℕ) (key : String)
    (p : Result CommerceError OrderView × World Database)
    → (or_replay same user key p).1.saved ≡ p.1.saved
or_replay-saved same user key (ok a, w) = refl
or_replay-saved same user key (err database, w) = refl
or_replay-saved same user key (err no_rows, w) = refl
or_replay-saved same user key (err (refused x), w) = refl
or_replay-saved same user key (err unique_violation, w) =
    elim (Option-cases (find_order user key w.store.orders)) [
      | inl missing ↦ ground arith
      | inr (o, found) ↦ ground (arith, replay-saved same o (record w { calls = w.calls + 1 }))
    ]

transaction-Atomic : (body : Action OrderView) → Atomic body → Atomic (transaction body)
transaction-Atomic body keep v e failed = ground (arith, keep (record v { calls = v.calls + 1 }) e)

or_replay-Atomic :
    (same : Order → Bool) (user : ℕ) (key : String) (body : Action OrderView) (v : World Database)
    {e : Error CommerceError}
    → Atomic body
    → (or_replay same user key (transaction body v)).0 ≡ err e
    → (or_replay same user key (transaction body v)).1.saved ≡ v.saved
or_replay-Atomic same user key body v keep failed = elim (Result-cases (transaction body v).0) [
  | inl (x, e) ↦
      or_replay-saved same user key (transaction body v) ∙ transaction-Atomic body keep v x e
  | inr (a, e) ↦ absurd (ground (arith, e))
]

by_key-Atomic :
    (others : Database → Database) (same : Order → Bool) (user : ℕ) (key : String)
    (body : Action OrderView) (o : Option Order) (w : World Database) {e : Error CommerceError}
    → Atomic body
    → (by_key others same user key body o w).0 ≡ err e
    → ((by_key others same user key body o w).1.saved ≡ w.saved)
      ⊎ ((by_key others same user key body o w).1.saved ≡ others w.saved)
by_key-Atomic others same user key body (some o) w keep failed = inl (replay-saved same o w)
by_key-Atomic others same user key body none w keep failed = inr (
    or_replay-Atomic same user key body
      (record w { store = others w.saved; saved = others w.saved }) keep failed)

once_per_key-Atomic :
    (others : Database → Database) (same : Order → Bool) (user : ℕ) (key : String)
    (body : Action OrderView) (w : World Database) {e : Error CommerceError}
    → Atomic body
    → (once_per_key others same user key body w).0 ≡ err e
    → ((once_per_key others same user key body w).1.saved ≡ w.saved)
      ⊎ ((once_per_key others same user key body w).1.saved ≡ others w.saved)
unfolding once_per_key
once_per_key-Atomic others same user key body w keep failed = elim (Bool-cases (w.broken w.calls)) [
  | inl down ↦ inl (rw down refl)
  | inr up ↦ rw up (
      by_key-Atomic others same user key body (find_order user key w.store.orders)
        (record w { calls = w.calls + 1 }) keep (rw up at failed))
]

-- A call of CreateOrder or CreateRenewalOrder.
pub data OrderCall : Type 0 where
  buy : ℕ → ℕ → ℤ → String → OrderCall
  renew : ℕ → ℕ → String → OrderCall

abbrev pub run_order : (Database → Database) → OrderCall → Action OrderView
run_order others (buy user plan_id quantity key) = create_order others user plan_id quantity key
run_order others (renew user id key) = create_renewal_order others user id key

-- A call of CreateOrder or CreateRenewalOrder that ends in an error, whichever statement fails, leaves
-- in the database what it found, or what another session committed meanwhile.
pub create_order_atomic :
    (others : Database → Database) (c : OrderCall) (w : World Database) {e : Error CommerceError}
    → (run_order others c w).0 ≡ err e
    → ((run_order others c w).1.saved ≡ w.saved) ⊎ ((run_order others c w).1.saved ≡ others w.saved)
unfolding create_order create_renewal_order
create_order_atomic others (buy user plan_id quantity key) w =
    once_per_key-Atomic others is_purchase user key (place_purchase user plan_id quantity key) w
      (λ v e failed. place_purchase_atomic user plan_id quantity key v failed)
create_order_atomic others (renew user id key) w =
    once_per_key-Atomic others (is_renewal_of id) user key (place_renewal user id key) w
      (λ v e failed. place_renewal_atomic user id key v failed)
