-- ===== src/Commerce/Order/Again.antt =====
-- Keys that are used already, in CreateOrder and CreateRenewalOrder of
-- backend/internal/commerce/repository.go: before the call, or by another session during it.
use Prim.Native.String.{String}
use vps_billing_codex.Shared.{
  ℕ, ◌+◌, ◌≡◌, ◌⊎◌, inl, inr, refl, ap, ◌∙◌, ◌==◌, ==_refl, eq_of_==, Bool-cases, Option, Bool,
  true, false, some, none, arith, if◌then◌else◌,
}
use vps_billing_codex.Shared.Tx.{World, Result, ok, err, refused, unique_violation, IsUp}
use vps_billing_codex.Store.{Database, Order, OrderKind, Payment}
use vps_billing_codex.Commerce.Base.{CommerceError, Action, idempotency_conflict}
use vps_billing_codex.Commerce.Payment.{is_renewable}
use vps_billing_codex.Commerce.Order.Atomic.{OrderCall, buy, renew, run_order}
use vps_billing_codex.Commerce.Order.{
  Draft, OrderView, PlanRow, RenewalRow, view, find_order, payment_of_order, plan_for_order,
  subscription_for_renewal, purchase_draft, renewal_draft, total_overflows, place, place_purchase,
  place_renewal, is_purchase, is_purchase_kind, is_renewal_of, is_renewal_kind, replay,
  order_with_payment, create_order, create_renewal_order, once_per_key, insert_order,
}

abbrev replayed : (Order → Bool) → Order → Payment → Result CommerceError OrderView
replayed same o p = if same o then ok (view o p) else err (refused idempotency_conflict)

-- The answer to a call for an order of a kind and a subscription, under the key of an order that is
-- there: that order with its payment where it is of that kind and subscription, a conflict otherwise.
abbrev pub Answered :
    OrderKind → Option ℕ → Order → Payment → Result CommerceError OrderView → Type 0
Answered kind subscription o p r =
    ((o.kind ≡ kind)
      × (o.subscription_id ≡ subscription)
      × (r
          ≡ ok (record {
            id = o.id;
            status = o.status;
            total_minor = o.total_minor;
            currency = o.currency;
            kind = kind;
            payment_id = p.id;
            payment_status = p.status;
            subscription_id = subscription;
          })))
    ⊎ (¬ ((o.kind ≡ kind) × (o.subscription_id ≡ subscription))
        × (r ≡ err (refused idempotency_conflict)))

-- What a call asks for: a purchase has no subscription, a renewal has its own.
abbrev pub kind_of : OrderCall → OrderKind
kind_of (buy user plan_id quantity key) = OrderKind.purchase
kind_of (renew user id key) = OrderKind.renewal

abbrev pub subscription_of : OrderCall → Option ℕ
subscription_of (buy user plan_id quantity key) = none
subscription_of (renew user id key) = some id

abbrev pub user_of_call : OrderCall → ℕ
user_of_call (buy user plan_id quantity key) = user
user_of_call (renew user id key) = user

abbrev pub key_of : OrderCall → String
key_of (buy user plan_id quantity key) = key
key_of (renew user id key) = key

purchase_cases :
    (k : OrderKind) (s : Option ℕ)
    → ((k ≡ OrderKind.purchase) × (s ≡ none) × (is_purchase_kind k s ≡ true))
      ⊎ (¬ ((k ≡ OrderKind.purchase) × (s ≡ none)) × (is_purchase_kind k s ≡ false))
purchase_cases OrderKind.purchase none = inl (refl, refl, refl)
purchase_cases OrderKind.purchase (some n) = inr (λ h. ground (arith, h.1), refl)
purchase_cases OrderKind.renewal none = inr (λ h. ground (arith, h.0), refl)
purchase_cases OrderKind.renewal (some n) = inr (λ h. ground (arith, h.0), refl)

renewal_cases :
    (id : ℕ) (k : OrderKind) (s : Option ℕ)
    → ((k ≡ OrderKind.renewal) × (s ≡ some id) × (is_renewal_kind id k s ≡ true))
      ⊎ (¬ ((k ≡ OrderKind.renewal) × (s ≡ some id)) × (is_renewal_kind id k s ≡ false))
renewal_cases id OrderKind.purchase none = inr (λ h. ground (arith, h.0), refl)
renewal_cases id OrderKind.purchase (some n) = inr (λ h. ground (arith, h.0), refl)
renewal_cases id OrderKind.renewal none = inr (λ h. ground (arith, h.1), refl)
renewal_cases id OrderKind.renewal (some n) = elim (Bool-cases (n == id)) [
  | inl same ↦ inl (refl, ap some (eq_of_== n id same), same)
  | inr other ↦ inr (λ h. ground (arith, other, ==_refl id, h.1), other)
]

same_of : OrderCall → Order → Bool
same_of (buy user plan_id quantity key) = is_purchase
same_of (renew user id key) = is_renewal_of id

-- The program's test is the one that is meant.
replayed-Answered :
    (c : OrderCall) (o : Order) (p : Payment) (r : Result CommerceError OrderView)
    → r ≡ replayed (same_of c) o p
    → Answered (kind_of c) (subscription_of c) o p r
unfolding same_of
replayed-Answered (buy user plan_id quantity key) o p r h =
    elim (purchase_cases o.kind o.subscription_id) [
      | inl (k, s, yes_) ↦ inl (k, s, ground (arith, h, yes_, k, s))
      | inr (other, no_) ↦ inr (other, ground (arith, h, no_))
    ]
replayed-Answered (renew user id key) o p r h = elim (renewal_cases id o.kind o.subscription_id) [
  | inl (k, s, yes_) ↦ inl (k, s, ground (arith, h, yes_, k, s))
  | inr (other, no_) ↦ inr (other, ground (arith, h, no_))
]

again :
    (others : Database → Database) (c : OrderCall) (w : World Database) {o : Order} {p : Payment}
    → IsUp w
    → find_order (user_of_call c) (key_of c) w.store.orders ≡ some o
    → payment_of_order o.id w.store.payments ≡ some p
    → ((run_order others c w).0 ≡ replayed (same_of c) o p)
      × ((run_order others c w).1.saved ≡ w.saved)
unfolding create_order create_renewal_order once_per_key replay order_with_payment same_of
again others (buy user plan_id quantity key) w up found paid =
    (ground (arith, up w.calls, up (w.calls + 1)), ground (arith, up w.calls, up (w.calls + 1)))
again others (renew user id key) w up found paid =
    (ground (arith, up w.calls, up (w.calls + 1)), ground (arith, up w.calls, up (w.calls + 1)))

-- While the database answers, CreateOrder and CreateRenewalOrder under a key of an order that the user
-- has placed, and that has its payment, return that order with its payment if it is of the same kind and
-- subscription (a purchase has none), refuse the call otherwise, and commit nothing.
pub create_order_again :
    (others : Database → Database) (c : OrderCall) (w : World Database) {o : Order} {p : Payment}
    → IsUp w
    → find_order (user_of_call c) (key_of c) w.store.orders ≡ some o
    → payment_of_order o.id w.store.payments ≡ some p
    → Answered (kind_of c) (subscription_of c) o p (run_order others c w).0
      × ((run_order others c w).1.saved ≡ w.saved)
create_order_again others c w {o} {p} up found paid =
    let done = again others c w {o = o} {p = p} up found paid in
    (replayed-Answered c o p (run_order others c w).0 done.0, done.1)

place_taken :
    (d : Draft) (w : World Database) {o : Order}
    → IsUp w
    → find_order d.user_id d.idempotency_key w.store.orders ≡ some o
    → ((place d w).0 ≡ err unique_violation)
      × ((place d w).1.saved ≡ w.saved)
      × ((place d w).1.calls ≡ w.calls + 1)
      × ((place d w).1.broken ≡ w.broken)
unfolding place insert_order
place_taken d w up found = (
  ground (arith, up w.calls),
  ground (arith, up w.calls),
  ground (arith, up w.calls),
  ground (arith, up w.calls),
)

-- A body that loses the race for its key, and the look-up that follows.
lost_race :
    (others : Database → Database) (same : Order → Bool) (user : ℕ) (key : String)
    (body : Action OrderView) (w : World Database) {o : Order} {p : Payment}
    → let v : World Database = record w {
      store = others w.saved;
      saved = others w.saved;
      calls = w.calls + 1 + 1;
    } in
      IsUp w
      → find_order user key w.store.orders ≡ none
      → find_order user key (others w.saved).orders ≡ some o
      → payment_of_order o.id (others w.saved).payments ≡ some p
      → (body v).0 ≡ err unique_violation
      → (body v).1.saved ≡ others w.saved
      → (body v).1.broken ≡ w.broken
      → ((once_per_key others same user key body w).0 ≡ replayed same o p)
        × ((once_per_key others same user key body w).1.saved ≡ others w.saved)
unfolding once_per_key replay order_with_payment
lost_race others same user key body w {o} {p} up new taken paid lost kept alive =
    let v : World Database = record w {
      store = others w.saved;
      saved = others w.saved;
      calls = w.calls + 1 + 1;
    } in
    let n = (body v).1.calls in
    let first : (body v).1.broken n ≡ false = ap (λ b. b n) alive ∙ up n in
    let second : (body v).1.broken (n + 1) ≡ false = ap (λ b. b (n + 1)) alive ∙ up (n + 1) in
    (
      ground (arith, up w.calls, up (w.calls + 1), first, second),
      ground (arith, up w.calls, up (w.calls + 1), first, second),
    )

-- What another session has to leave for a call to reach its insert: a plan on sale with a total that is
-- an int64, or a subscription of the user that can be renewed.
abbrev pub IsPlaceable : OrderCall → Database → Type 0
IsPlaceable (buy user plan_id quantity key) db =
    (row : PlanRow) × (plan_for_order plan_id db ≡ some row)
    × (total_overflows row.plan.price_minor quantity ≡ false)
IsPlaceable (renew user id key) db =
    (row : RenewalRow) × (subscription_for_renewal id user db ≡ some row)
    × (is_renewable row.subscription.status ≡ true)

races :
    (others : Database → Database) (c : OrderCall) (w : World Database) {o : Order} {p : Payment}
    → IsUp w
    → find_order (user_of_call c) (key_of c) w.store.orders ≡ none
    → find_order (user_of_call c) (key_of c) (others w.saved).orders ≡ some o
    → payment_of_order o.id (others w.saved).payments ≡ some p
    → IsPlaceable c (others w.saved)
    → ((run_order others c w).0 ≡ replayed (same_of c) o p)
      × ((run_order others c w).1.saved ≡ others w.saved)
unfolding create_order create_renewal_order place_purchase place_renewal purchase_draft
    renewal_draft same_of
races others (buy user plan_id quantity key) w {o} {p} up new taken paid (row, sold, small) =
    let v : World Database = record w {
      store = others w.saved;
      saved = others w.saved;
      calls = w.calls + 1 + 1 + 1;
    } in
    let lost = place_taken (purchase_draft user key quantity row) v {o = o} up taken in
    lost_race others is_purchase user key (place_purchase user plan_id quantity key) w {o = o}
      {p = p} up new taken paid (ground (arith, up (w.calls + 1 + 1), sold, small, lost.0))
      (ground (arith, up (w.calls + 1 + 1), sold, small, lost.1))
      (ground (arith, up (w.calls + 1 + 1), sold, small, lost.3))
races others (renew user id key) w {o} {p} up new taken paid (row, subscribed, open_) =
    let v : World Database = record w {
      store = others w.saved;
      saved = others w.saved;
      calls = w.calls + 1 + 1 + 1;
    } in
    let lost = place_taken (renewal_draft user key row) v {o = o} up taken in
    lost_race others (is_renewal_of id) user key (place_renewal user id key) w {o = o} {p = p} up
      new taken paid (ground (arith, up (w.calls + 1 + 1), subscribed, open_, lost.0))
      (ground (arith, up (w.calls + 1 + 1), subscribed, open_, lost.1))
      (ground (arith, up (w.calls + 1 + 1), subscribed, open_, lost.3))

-- While the database answers, a purchase of a plan on sale with a total that is an int64, or a renewal of
-- a subscription of the user that can be renewed, whose key another session of the user takes between
-- the look-up and the transaction: the call returns that session's order with its payment where that is
-- of the same kind and subscription, is refused otherwise, and commits nothing of its own.
pub create_order_races :
    (others : Database → Database) (c : OrderCall) (w : World Database) {o : Order} {p : Payment}
    → IsUp w
    → find_order (user_of_call c) (key_of c) w.store.orders ≡ none
    → find_order (user_of_call c) (key_of c) (others w.saved).orders ≡ some o
    → payment_of_order o.id (others w.saved).payments ≡ some p
    → IsPlaceable c (others w.saved)
    → Answered (kind_of c) (subscription_of c) o p (run_order others c w).0
      × ((run_order others c w).1.saved ≡ others w.saved)
create_order_races others c w {o} {p} up new taken paid placeable =
    let done = races others c w {o = o} {p = p} up new taken paid placeable in
    (replayed-Answered c o p (run_order others c w).0 done.0, done.1)
