-- ===== src/Provision/Ensure.antt =====
-- EnsureForPaidOrder of backend/internal/provision/repository.go as a whole: what it leaves, that it may
-- be repeated, and that it fails without a trace.
use Prim.Native.String.{String}
use vps_billing_codex.Shared.{
  is_some, ℕ, zero, suc, ◌+◌, ◌≡◌, ◌==◌, true, false, some, List, [], ◌∷◌, arith, inl, inr, refl,
  ap, ◌∙◌, sym, Bool-cases, Option-cases, ==_refl,
}
use mathlib.Core.Path.{subst}
use vps_billing_codex.Shared.Int.{ℤ, pos_part}
use vps_billing_codex.Shared.Table.{get, modify, get-modify}
use vps_billing_codex.Shared.Tx.{World, ok, IsUp, Result-cases}
use vps_billing_codex.Store.{Database, Order, OrderStatus}
use vps_billing_codex.Provision.{
  Action, Names, Purchase, paid_purchase, order_id_of, fulfilling_if_paid, mark_order_fulfilling,
  provision_items, provision_purchase, ensure_for_paid_order,
}
use vps_billing_codex.Provision.Frame.{IsOpen, provision_items-Frames}
use vps_billing_codex.Provision.Covered.{AreCovered}
use vps_billing_codex.Provision.Items.{provision_items-AreCovered, provision_items-again}

abbrev status_if_paid : OrderStatus → OrderStatus
status_if_paid s = elim s [ OrderStatus.paid ↦ OrderStatus.fulfilling | t ↦ t ]

status_twice : (s : OrderStatus) → status_if_paid (status_if_paid s) ≡ status_if_paid s
status_twice OrderStatus.paid = refl
status_twice _ = refl

fulfilling_if_paid-twice :
    (o : Order) → fulfilling_if_paid (fulfilling_if_paid o) ≡ fulfilling_if_paid o
fulfilling_if_paid-twice o =
    ap (λ (s : OrderStatus). record o { status = s }) (status_twice o.status)

modify-twice :
    (k : ℕ) (t : List Order)
    → modify order_id_of k fulfilling_if_paid (modify order_id_of k fulfilling_if_paid t)
      ≡ modify order_id_of k fulfilling_if_paid t
modify-twice k [] = refl
modify-twice k (o ∷ t) = elim (Bool-cases (o.id == k)) [
  | inl same ↦ ground (arith, same, fulfilling_if_paid-twice o, modify-twice k t)
  | inr other ↦ ground (arith, other, modify-twice k t)
]

mark_order_fulfilling-twice :
    (order : ℕ) (db : Database)
    → mark_order_fulfilling order (mark_order_fulfilling order db) ≡ mark_order_fulfilling order db
unfolding mark_order_fulfilling
mark_order_fulfilling-twice order db =
    ap (λ t. record db { orders = t }) (modify-twice order db.orders)

-- A purchase is provisionable before and after it is marked.
paid_purchase-mark :
    (order : ℕ) (db : Database)
    → paid_purchase order (mark_order_fulfilling order db) ≡ paid_purchase order db
unfolding paid_purchase mark_order_fulfilling
paid_purchase-mark order db = elim (Option-cases (get order_id_of order db.orders)) [
  | inl missing ↦ ground (
    arith,
    missing,
    ==_refl order,
    get-modify order_id_of fulfilling_if_paid (λ _. refl) order order db.orders,
  )
  | inr (o, found) ↦ ground (
    arith,
    found,
    ==_refl order,
    get-modify order_id_of fulfilling_if_paid (λ _. refl) order order db.orders,
  )
]

paid_purchase-IsOpen : (order : ℕ) (p : Purchase) → IsOpen (λ db. paid_purchase order db ≡ some p)
unfolding paid_purchase
paid_purchase-IsOpen order p = record {
  subscription = λ db r h. h;
  instance_ = λ db r h. h;
  operation = λ db r h. h;
  step = λ db r h. h;
  event = λ db r h. h;
}

-- The loop as a call of EnsureForPaidOrder enters it.
abbrev loop : Names → ℕ → String → Purchase → Action (Unit {0})
loop names order trace p = provision_items names order p trace (pos_part p.quantity) 1

abbrev entered : World Database → World Database
entered w = record w { calls = w.calls + 1 + 1 }

-- What a call that succeeds went through.
record Went (names : Names) (order : ℕ) (trace : String) (w : World Database) (q : ℤ) : Type 0 where
  purchase : Purchase
  paid : paid_purchase order w.store ≡ some purchase
  quantity : purchase.quantity ≡ q
  placed : is_some purchase.plan.node_group_id ≡ true
  looped : (loop names order trace purchase (entered w)).0 ≡ ok tt
  saved :
      (ensure_for_paid_order names order trace w).1.saved
      ≡ mark_order_fulfilling order (loop names order trace purchase (entered w)).1.store

-- The end of a call whose loop has run.
finished :
    (names : Names) (order : ℕ) (trace : String) (w : World Database) (p : Purchase) {q : ℤ}
    → w.broken w.calls ≡ false
    → w.broken (w.calls + 1) ≡ false
    → paid_purchase order w.store ≡ some p
    → is_some p.plan.node_group_id ≡ true
    → (ensure_for_paid_order names order trace w).0 ≡ ok q
    → Went names order trace w q
unfolding ensure_for_paid_order provision_purchase
finished names order trace w p {q} first second paid placed h =
    let v = (loop names order trace p (entered w)).1 in
    elim (Result-cases (loop names order trace p (entered w)).0) [
      | inl (e, failed) ↦ absurd (ground (arith, first, second, paid, placed, failed, h))
      | inr (u, looped) ↦ elim (Bool-cases (v.broken v.calls)) [
        | inl down ↦ absurd (ground (arith, first, second, paid, placed, looped, down, h))
        | inr alive ↦ elim (Bool-cases (v.broken (v.calls + 1))) [
          | inl down ↦ absurd (ground (arith, first, second, paid, placed, looped, alive, down, h))
          | inr still ↦ record {
            purchase = p;
            paid = paid;
            quantity = ground (arith, first, second, paid, placed, looped, alive, still, h);
            placed = placed;
            looped = looped;
            saved = ground (arith, first, second, paid, placed, looped, alive, still);
          }
        ]
      ]
    ]

ensure-Went :
    (names : Names) (order : ℕ) (trace : String) (w : World Database) {q : ℤ}
    → (ensure_for_paid_order names order trace w).0 ≡ ok q
    → Went names order trace w q
unfolding ensure_for_paid_order provision_purchase
ensure-Went names order trace w h = elim (Bool-cases (w.broken w.calls)) [
  | inl down ↦ absurd (ground (arith, down, h))
  | inr first ↦ elim (Bool-cases (w.broken (w.calls + 1))) [
    | inl down ↦ absurd (ground (arith, first, down, h))
    | inr second ↦ elim (Option-cases (paid_purchase order w.store)) [
      | inl missing ↦ absurd (ground (arith, first, second, missing, h))
      | inr (p, paid) ↦ elim (Bool-cases (is_some p.plan.node_group_id)) [
        | inl placed ↦ finished names order trace w p first second paid placed h
        | inr unplaced ↦ absurd (ground (arith, first, second, paid, unplaced, h))
      ]
    ]
  ]
]

-- Marking the order touches none of the three tables.
AreCovered-mark :
    (names : Names) (order rounds index : ℕ) (db : Database)
    → AreCovered names order rounds index db
    → AreCovered names order rounds index (mark_order_fulfilling order db)
unfolding mark_order_fulfilling
AreCovered-mark names order zero index db h = tt
AreCovered-mark names order (suc rounds) index db h =
    (h.0, AreCovered-mark names order rounds (index + 1) db h.1)

-- A successful EnsureForPaidOrder commits, for every item of the order from 1 to the quantity that it
-- returns, a subscription of the order, an instance of that subscription and an operation under the
-- item's provisioning key, whichever of these were there before.
pub ensure_covers :
    (names : Names) (order : ℕ) (trace : String) (w : World Database) {q : ℤ}
    → (ensure_for_paid_order names order trace w).0 ≡ ok q
    → AreCovered names order (pos_part q) 1 (ensure_for_paid_order names order trace w).1.saved
ensure_covers names order trace w {q} h =
    let went = ensure-Went names order trace w h in
    let p = went.purchase in
    let covered =
      provision_items-AreCovered names order p trace (pos_part p.quantity) 1 (entered w)
        went.looped in
    rw went.saved (
      subst
        (λ (n : ℤ).
          AreCovered names order (pos_part n) 1
            (mark_order_fulfilling order (loop names order trace p (entered w)).1.store))
        went.quantity (AreCovered-mark names order (pos_part p.quantity) 1 _ covered))

-- A second run, over rows that are covered.
ensure-again :
    (names : Names) (order : ℕ) (trace : String) (p : Purchase) (v : World Database)
    → IsUp v
    → paid_purchase order v.store ≡ some p
    → is_some p.plan.node_group_id ≡ true
    → AreCovered names order (pos_part p.quantity) 1 v.store
    → ((ensure_for_paid_order names order trace v).0 ≡ ok p.quantity)
      × ((ensure_for_paid_order names order trace v).1.saved ≡ mark_order_fulfilling order v.store)
unfolding ensure_for_paid_order provision_purchase
ensure-again names order trace p v up paid placed covered =
    let (n, run) =
      provision_items-again names order p trace (pos_part p.quantity) 1 (entered v) up covered in
    (
      ground (arith, run, up v.calls, up (v.calls + 1), up n, up (n + 1), paid, placed),
      ground (arith, run, up v.calls, up (v.calls + 1), up n, up (n + 1), paid, placed),
    )

-- Payment events may be delivered twice: while the database answers, EnsureForPaidOrder for an order
-- that it has dealt with, called on what the first call committed and under any trace, returns the
-- same quantity and changes no row.
pub ensure_twice :
    (names : Names) (order : ℕ) (trace trace' : String) (w v : World Database) {q : ℤ}
    → (ensure_for_paid_order names order trace w).0 ≡ ok q
    → v.store ≡ (ensure_for_paid_order names order trace w).1.saved
    → IsUp v
    → ((ensure_for_paid_order names order trace' v).0 ≡ ok q)
      × ((ensure_for_paid_order names order trace' v).1.saved ≡ v.store)
ensure_twice names order trace trace' w v {q} h same up =
    let went = ensure-Went names order trace w h in
    let p = went.purchase in
    let db = (loop names order trace p (entered w)).1.store in
    let left : v.store ≡ mark_order_fulfilling order db = same ∙ went.saved in
    let kept =
      provision_items-Frames (λ db. paid_purchase order db ≡ some p) (paid_purchase-IsOpen order p)
        names order p trace (pos_part p.quantity) 1 (entered w) went.paid in
    let paid : paid_purchase order v.store ≡ some p =
      ap (paid_purchase order) left ∙ paid_purchase-mark order db ∙ kept in
    let covered =
      subst (AreCovered names order (pos_part q) 1) (sym same)
        (ensure_covers names order trace w h) in
    let again = ensure-again names order trace' p v up paid went.placed (
      subst (λ (n : ℤ). AreCovered names order (pos_part n) 1 v.store) (sym went.quantity)
        covered) in
    (
      again.0 ∙ ap (λ (n : ℤ). ok n) went.quantity,
      again.1
          ∙ ap (mark_order_fulfilling order) left
          ∙ mark_order_fulfilling-twice order db
          ∙ sym left,
    )
