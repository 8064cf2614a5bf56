-- ===== src/Commerce/Order/Create.antt =====
-- New orders: the successful paths of CreateOrder and CreateRenewalOrder of
-- backend/internal/commerce/repository.go.
use Prim.Native.String.{String}
use vps_billing_codex.Shared.{
  ℕ, ◌+◌, ◌*◌, ◌≡◌, ◌∙◌, ◌==◌, Option, Option-cases, Bool-cases, inl, inr, true, false, some, none,
  arith, suc, ap, [], ◌∷◌, ◌++◌,
}
use vps_billing_codex.Shared.Int.{ℤ, pos}
use vps_billing_codex.Shared.Table.{get, get_id}
use vps_billing_codex.Shared.Tx.{World, ok, IsUp}
use vps_billing_codex.Store.{
  Database, OrderKind, OrderStatus, InvoiceStatus, PaymentStatus, ProductSnapshot, PlanSnapshot,
  Product, Plan, Subscription,
}
use vps_billing_codex.Commerce.Payment.{is_renewable}
use vps_billing_codex.Commerce.Order.{
  subscription_id_of, plan_id_of, product_id_of, OrderView, PlanRow, RenewalRow, find_order,
  plan_for_order, subscription_for_renewal, purchase_draft, renewal_draft, total_overflows,
  place_purchase, place_renewal, create_order, create_renewal_order, once_per_key,
}
use vps_billing_codex.Commerce.Order.Total.{total_overflows_iff}
use vps_billing_codex.Commerce.Order.Place.{placed, placed_view, place_lem}

place_purchase_lem :
    (user plan_id q : ℕ) (key : String) (w : World Database) {row : PlanRow}
    → IsUp w
    → find_order user key w.store.orders ≡ none
    → plan_for_order plan_id w.store ≡ some row
    → total_overflows row.plan.price_minor (pos (suc q)) ≡ false
    → place_purchase user plan_id (pos (suc q)) key w ≡ (
      ok (placed_view w.next_id (purchase_draft user key (pos (suc q)) row)),
      placed (purchase_draft user key (pos (suc q)) row) (record w { calls = w.calls + 1 }),
    )
unfolding place_purchase purchase_draft
place_purchase_lem user plan_id q key w {row} up new found small = ground (
  arith,
  up w.calls,
  place_lem (purchase_draft user key (pos (suc q)) row) (record w { calls = w.calls + 1 }) up,
)

-- The session in which the transaction of a new order begins.
abbrev pub entered : (Database → Database) → World Database → World Database
entered others w = record w {
  store = others w.saved;
  saved = others w.saved;
  calls = w.calls + 1 + 1 + 1;
}

pub create_order_run :
    (others : Database → Database) (user plan_id q : ℕ) (key : String) (w : World Database)
    {row : PlanRow}
    → IsUp w
    → find_order user key w.store.orders ≡ none
    → find_order user key (others w.saved).orders ≡ none
    → plan_for_order plan_id (others w.saved) ≡ some row
    → total_overflows row.plan.price_minor (pos (suc q)) ≡ false
    → create_order others user plan_id (pos (suc q)) key w ≡ (
      ok (placed_view w.next_id (purchase_draft user key (pos (suc q)) row)),
      placed (purchase_draft user key (pos (suc q)) row) (entered others w),
    )
unfolding create_order once_per_key
create_order_run others user plan_id q key w {row} up new still_new found small =
    let v : World Database = record w {
      store = others w.saved;
      saved = others w.saved;
      calls = w.calls + 1 + 1;
    } in
    ground (
      arith,
      up w.calls,
      up (w.calls + 1),
      place_purchase_lem user plan_id q key v {row = row} up still_new found small,
    )

-- The rows of one order that a user places: the five ids that follow `n` are new, and the payment is due
-- thirty minutes after `now`.
abbrev pub five_rows :
    (n now user : ℕ) (key : String) (kind : OrderKind) (subscription : Option ℕ) (quantity : ℤ)
    (unit_price : ℕ) (total : ℤ) (currency : String)
    → ProductSnapshot
    → PlanSnapshot
    → Database
    → Database
five_rows n now user key kind subscription quantity unit_price total currency product plan db =
    record db {
      orders =
          db.orders
          ++ record {
            id = n;
            user_id = user;
            status = OrderStatus.pending;
            total_minor = total;
            currency = currency;
            kind = kind;
            subscription_id = subscription;
            idempotency_key = key;
          }
            ∷ [];
      order_items =
          db.order_items
          ++ record {
            id = n + 1 + 1 + 1;
            order_id = n;
            product_id = product.id;
            plan_id = plan.id;
            quantity = quantity;
            unit_price_minor = unit_price;
            total_minor = total;
            product_snapshot = product;
            plan_snapshot = plan;
          }
            ∷ [];
      invoices =
          db.invoices
          ++ record {
            id = n + 1;
            user_id = user;
            subscription_id = subscription;
            order_id = n;
            status = InvoiceStatus.open_;
            amount_minor = total;
            currency = currency;
            due_at = now + 1800 * 1000000000;
          }
            ∷ [];
      invoice_items =
          db.invoice_items
          ++ record {
            id = n + 1 + 1 + 1 + 1;
            invoice_id = n + 1;
            description = plan.name;
            quantity = quantity;
            unit_amount_minor = unit_price;
            total_minor = total;
          }
            ∷ [];
      payments =
          db.payments
          ++ record {
            id = n + 1 + 1;
            order_id = n;
            gateway = "fake";
            gateway_payment_id = none;
            status = PaymentStatus.pending;
            amount_minor = total;
            currency = currency;
            gateway_payload = "{}";
          }
            ∷ [];
    }

-- What the caller of a new order is told: the order and its payment are pending.
abbrev pub pending_view : (n : ℕ) → OrderKind → Option ℕ → ℤ → String → OrderView
pending_view n kind subscription total currency = record {
  id = n;
  status = OrderStatus.pending;
  total_minor = total;
  currency = currency;
  kind = kind;
  payment_id = n + 1 + 1;
  payment_status = PaymentStatus.pending;
  subscription_id = subscription;
}

-- The snapshots of an item: of the product, of a plan that is bought, and of a plan that is renewed at
-- the subscription's own price and cycle.
abbrev pub snapshot_of : Product → ProductSnapshot
snapshot_of p = record { id = p.id; slug = p.slug; name = p.name; description = p.description }

abbrev pub bought_plan : Plan → PlanSnapshot
bought_plan p = record {
  id = p.id;
  slug = p.slug;
  name = p.name;
  sizes = some (record {
    cpu_cores = p.cpu_cores;
    memory_mb = p.memory_mb;
    disk_gb = p.disk_gb;
    virtualization = p.virtualization;
  });
  billing_cycle = p.billing_cycle;
  price_minor = p.price_minor;
  currency = p.currency;
}

abbrev pub renewed_plan : Plan → Subscription → PlanSnapshot
renewed_plan p s = record {
  id = p.id;
  slug = p.slug;
  name = p.name;
  sizes = none;
  billing_cycle = s.billing_cycle;
  price_minor = s.price_minor;
  currency = s.currency;
}

-- While the database answers, an order of a positive quantity of a plan on sale, under a key that
-- neither the user nor a session in between has used and with a total that is an int64, is placed: the
-- order, its item, its invoice with an item and its payment are committed and the pending order is
-- returned, all for price times quantity.
pub create_order_places :
    (others : Database → Database) (user plan_id q : ℕ) (key : String) (w : World Database)
    {row : PlanRow}
    → IsUp w
    → find_order user key w.store.orders ≡ none
    → find_order user key (others w.saved).orders ≡ none
    → plan_for_order plan_id (others w.saved) ≡ some row
    → total_overflows row.plan.price_minor (pos (suc q)) ≡ false
    → let total = pos (row.plan.price_minor * suc q) in
      let (r, w') = create_order others user plan_id (pos (suc q)) key w in
      (r ≡ ok (pending_view w.next_id OrderKind.purchase none total row.plan.currency))
      × (w'.saved
          ≡ five_rows w.next_id w.now user key OrderKind.purchase none
              (pos (suc q))
              row.plan.price_minor
              total
              row.plan.currency
              (snapshot_of row.product)
              (bought_plan row.plan)
              (others w.saved))
unfolding purchase_draft
create_order_places others user plan_id q key w {row} up new still_new found small =
    let run =
      create_order_run others user plan_id q key w {row = row} up new still_new found small in
    let total = ((total_overflows_iff row.plan.price_minor (suc q)).0 small).1 in
    (
      ap (λ p. p.0) run
          ∙ ap (λ t. ok (pending_view w.next_id OrderKind.purchase none t row.plan.currency)) total,
      ap (λ p. p.1.saved) run
          ∙ ap
              (λ t.
                five_rows w.next_id w.now user key OrderKind.purchase none (pos (suc q))
                  row.plan.price_minor t row.plan.currency (snapshot_of row.product)
                  (bought_plan row.plan) (others w.saved))
              total,
    )

place_renewal_lem :
    (user id : ℕ) (key : String) (w : World Database) {row : RenewalRow}
    → IsUp w
    → find_order user key w.store.orders ≡ none
    → subscription_for_renewal id user w.store ≡ some row
    → is_renewable row.subscription.status ≡ true
    → place_renewal user id key w ≡ (
      ok (placed_view w.next_id (renewal_draft user key row)),
      placed (renewal_draft user key row) (record w { calls = w.calls + 1 }),
    )
unfolding place_renewal renewal_draft
place_renewal_lem user id key w {row} up new found open_ = ground (
  arith,
  up w.calls,
  place_lem (renewal_draft user key row) (record w { calls = w.calls + 1 }) up,
)

-- The subscription that is renewed is the one that was asked for.
renewed-id :
    (id user : ℕ) (db : Database) {row : RenewalRow}
    → subscription_for_renewal id user db ≡ some row
    → row.subscription.id ≡ id
unfolding subscription_for_renewal
renewed-id id user db {row} found =
    elim (Option-cases (get subscription_id_of id db.subscriptions)) [
      | inl missing ↦ absurd (ground (arith, missing, found))
      | inr (s, met) ↦ elim (Option-cases (get plan_id_of s.plan_id db.plans)) [
        | inl missing ↦ absurd (ground (arith, met, missing, found))
        | inr (p, sold) ↦ elim (Option-cases (get product_id_of p.product_id db.products)) [
          | inl missing ↦ absurd (ground (arith, met, sold, missing, found))
          | inr (x, made) ↦ elim (Bool-cases (s.user_id == user)) [
            | inl own ↦
                let named = get_id subscription_id_of id db.subscriptions {r = s} met in
                ground (arith, met, sold, made, own, found, named)
            | inr foreign ↦ absurd (ground (arith, met, sold, made, foreign, found))
          ]
        ]
      ]
    ]

-- While the database answers, a renewal of the user's subscription that is active, past due or
-- suspended, under a key that neither the user nor a session in between has used, is placed: the
-- order, its item, its invoice with an item and its payment are committed for the subscription's own
-- price, and the pending order is returned.
pub create_renewal_order_places :
    (others : Database → Database) (user id : ℕ) (key : String) (w : World Database)
    {row : RenewalRow}
    → IsUp w
    → find_order user key w.store.orders ≡ none
    → find_order user key (others w.saved).orders ≡ none
    → subscription_for_renewal id user (others w.saved) ≡ some row
    → is_renewable row.subscription.status ≡ true
    → let s = row.subscription in
      let (r, w') = create_renewal_order others user id key w in
      (r ≡ ok (pending_view w.next_id OrderKind.renewal (some id) (pos s.price_minor) s.currency))
      × (w'.saved
          ≡ five_rows w.next_id w.now user key OrderKind.renewal
              (some id)
              (pos 1)
              s.price_minor
              (pos s.price_minor)
              s.currency
              (snapshot_of row.product)
              (renewed_plan row.plan s)
              (others w.saved))
unfolding create_renewal_order once_per_key renewal_draft
create_renewal_order_places others user id key w {row} up new still_new found open_ =
    let v : World Database = record w {
      store = others w.saved;
      saved = others w.saved;
      calls = w.calls + 1 + 1;
    } in
    let done = place_renewal_lem user id key v {row = row} up still_new found open_ in
    let own = renewed-id id user (others w.saved) {row = row} found in
    (
      ground (arith, up w.calls, up (w.calls + 1), done, own),
      ground (arith, up w.calls, up (w.calls + 1), done, own),
    )
