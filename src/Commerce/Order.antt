-- ===== src/Commerce/Order.antt =====
-- CreateOrder, CreateRenewalOrder, orderWithPayment and EnsureWallet of
-- backend/internal/commerce/repository.go, and the guards of Service in
-- backend/internal/commerce/commerce.go. The two kinds of order share what follows their look-ups.
mod Statements
unfoldable pub use Statements.*
pub mod Total
pub mod Place
pub mod Create
pub mod Again
pub mod Atomic
pub mod Paid
pub mod Ensure
mod Tests
use Prim.Native.String.{String, len}
use vps_billing_codex.Shared.{
  ℕ, suc, ◌+◌, ◌-◌, ◌*◌, ◌/◌, ◌%◌, ◌^◌, Bool, true, false, not, ◌&&◌, ◌||◌, Option, none, some,
  ◌==◌, ltb, if◌then◌else◌, equal_pointer,
}
use vps_billing_codex.Shared.Int.{ℤ, pos, negsuc, ltb_ℤ}
use vps_billing_codex.Shared.Tx.{
  World, Result, ok, err, no_rows, unique_violation, database, refused, ◌>>=◌, ◌>>◌, pure, fail,
  fail_if, or_fail, select, change, change_row, clock, new_id, commit, transaction, meanwhile,
  outside,
}
use vps_billing_codex.Store.{
  Database, Order, OrderStatus, OrderKind, purchase, renewal, ProductSnapshot, PlanSizes,
  PlanSnapshot, Payment, PaymentStatus, InvoiceStatus, Plan, Product, Wallet,
}
use vps_billing_codex.Commerce.Base.{
  CommerceError, plan_not_found, invalid_quantity, invalid_idempotency, idempotency_conflict,
  payment_mismatch, subscription_not_found, subscription_state, Action, Library,
}
use vps_billing_codex.Commerce.Payment.{fake_gateway, is_renewable}

-- Order of commerce.go
pub record OrderView : Type 0 where
  pub id : ℕ
  pub status : OrderStatus
  pub total_minor : ℤ
  pub currency : String
  pub kind : OrderKind
  pub payment_id : ℕ
  pub payment_status : PaymentStatus
  pub subscription_id : Option ℕ

abbrev max_int64 : ℕ
max_int64 = 2 ^ 63 - 1

-- The int64 with a 64-bit pattern.
abbrev signed : ℕ → ℤ
signed n = if ltb max_int64 n then negsuc (2 ^ 64 - n - 1) else pos n

-- The product of two int64, the first of which is not negative.
unfoldable pub times_int64 : ℕ → ℤ → ℤ
times_int64 price (pos q) = signed (price * q % 2 ^ 64)
times_int64 price (negsuc n) = signed ((2 ^ 64 - price * suc n % 2 ^ 64) % 2 ^ 64)

-- `plan.PriceMinor > 0 && int64(quantity) > math.MaxInt64/plan.PriceMinor`
unfoldable pub total_overflows : ℕ → ℤ → Bool
total_overflows price quantity = ltb 0 price && ltb_ℤ (pos (max_int64 / price)) quantity

-- What the two kinds of order put into the rows.
pub record Draft : Type 0 where
  pub user_id : ℕ
  pub idempotency_key : String
  pub kind : OrderKind
  pub subscription_id : Option ℕ
  pub quantity : ℤ
  pub unit_price_minor : ℕ
  pub total_minor : ℤ
  pub currency : String
  pub product_snapshot : ProductSnapshot
  pub plan_snapshot : PlanSnapshot

abbrev product_snapshot_of : Product → ProductSnapshot
product_snapshot_of p = record {
  id = p.id;
  slug = p.slug;
  name = p.name;
  description = p.description;
}

unfoldable pub purchase_draft : ℕ → String → ℤ → PlanRow → Draft
unfolding times_int64
purchase_draft user key quantity row = record {
  user_id = user;
  idempotency_key = key;
  kind = purchase;
  subscription_id = none;
  quantity = quantity;
  unit_price_minor = row.plan.price_minor;
  total_minor = times_int64 row.plan.price_minor quantity;
  currency = row.plan.currency;
  product_snapshot = product_snapshot_of row.product;
  plan_snapshot = record {
    id = row.plan.id;
    slug = row.plan.slug;
    name = row.plan.name;
    sizes = some (record {
      cpu_cores = row.plan.cpu_cores;
      memory_mb = row.plan.memory_mb;
      disk_gb = row.plan.disk_gb;
      virtualization = row.plan.virtualization;
    });
    billing_cycle = row.plan.billing_cycle;
    price_minor = row.plan.price_minor;
    currency = row.plan.currency;
  };
}

unfoldable pub renewal_draft : ℕ → String → RenewalRow → Draft
renewal_draft user key row = record {
  user_id = user;
  idempotency_key = key;
  kind = renewal;
  subscription_id = some row.subscription.id;
  quantity = pos 1;
  unit_price_minor = row.subscription.price_minor;
  total_minor = pos row.subscription.price_minor;
  currency = row.subscription.currency;
  product_snapshot = product_snapshot_of row.product;
  plan_snapshot = record {
    id = row.plan.id;
    slug = row.plan.slug;
    name = row.plan.name;
    sizes = none;
    billing_cycle = row.subscription.billing_cycle;
    price_minor = row.subscription.price_minor;
    currency = row.subscription.currency;
  };
}

abbrev pub order_row : ℕ → Draft → Order
order_row id d = record {
  id = id;
  user_id = d.user_id;
  status = OrderStatus.pending;
  total_minor = d.total_minor;
  currency = d.currency;
  kind = d.kind;
  subscription_id = d.subscription_id;
  idempotency_key = d.idempotency_key;
}

abbrev pub view : Order → Payment → OrderView
view o p = record {
  id = o.id;
  status = o.status;
  total_minor = o.total_minor;
  currency = o.currency;
  kind = o.kind;
  payment_id = p.id;
  payment_status = p.status;
  subscription_id = o.subscription_id;
}

-- orderWithPayment
unfoldable pub order_with_payment : Order → Action OrderView
order_with_payment o = do
  found ← select (λ db. payment_of_order o.id db.payments)
  p ← or_fail found no_rows
  pure (view o p)

-- The answer to a key that is used already: its order, if that is what the caller asks for.
unfoldable pub replay : (Order → Bool) → Order → Action OrderView
unfolding order_with_payment
replay same o = do fail_if (not (same o)) (refused idempotency_conflict); order_with_payment o

-- Thirty minutes, in nanoseconds.
abbrev pub payment_window : ℕ
payment_window = 30 * 60 * 1000000000

-- CreateInvoice, CreateInvoiceItem and CreatePayment for an order, and the commit.
unfoldable pub bill : ℕ → ℕ → Draft → Order → Action OrderView
unfolding insert_invoice insert_invoice_item insert_payment
bill invoice_id payment_id d o = do
  now ← clock
  invoice ← change (
      insert_invoice (record {
        id = invoice_id;
        user_id = d.user_id;
        subscription_id = d.subscription_id;
        order_id = o.id;
        status = InvoiceStatus.open_;
        amount_minor = d.total_minor;
        currency = d.currency;
        due_at = now + payment_window;
      }))
  item_id ← new_id
  change_row
      (insert_invoice_item (record {
        id = item_id;
        invoice_id = invoice.id;
        description = d.plan_snapshot.name;
        quantity = d.quantity;
        unit_amount_minor = d.unit_price_minor;
        total_minor = d.total_minor;
      }))
      database
  payment ← change (
      insert_payment (record {
        id = payment_id;
        order_id = o.id;
        gateway = fake_gateway;
        gateway_payment_id = none;
        status = PaymentStatus.pending;
        amount_minor = d.total_minor;
        currency = d.currency;
        gateway_payload = "{}";
      }))
  commit
  pure (view o payment)

-- Everything from newID on. A unique violation of CreateOrder leaves the transaction.
unfoldable pub place : Draft → Action OrderView
unfolding insert_order insert_order_item
place d = do
  order_id ← new_id
  invoice_id ← new_id
  payment_id ← new_id
  o ← change_row (insert_order (order_row order_id d)) unique_violation
  item_id ← new_id
  change_row
      (insert_order_item (record {
        id = item_id;
        order_id = order_id;
        product_id = d.product_snapshot.id;
        plan_id = d.plan_snapshot.id;
        quantity = d.quantity;
        unit_price_minor = d.unit_price_minor;
        total_minor = d.total_minor;
        product_snapshot = d.product_snapshot;
        plan_snapshot = d.plan_snapshot;
      }))
      database
  bill invoice_id payment_id d o

-- After a unique violation the key is looked up outside the transaction.
abbrev pub or_replay :
    (Order → Bool)
    → ℕ
    → String
    → Result CommerceError OrderView × World Database
    → Result CommerceError OrderView × World Database
or_replay same user key (err unique_violation, w) =
    (do
      found ← select (λ db. find_order user key db.orders)
      o ← or_fail found no_rows
      replay same o)
      w
or_replay same user key p = p

-- The look-up of the key that comes first, then the transaction of a new order. Other sessions may
-- commit in between.
abbrev pub by_key :
    (Database → Database)
    → (Order → Bool)
    → ℕ
    → String
    → Action OrderView
    → Option Order
    → Action OrderView
by_key others same user key body (some o) = replay same o
by_key others same user key body none =
    meanwhile others >> λ w. or_replay same user key (transaction body w)

unfoldable pub once_per_key :
    (Database → Database) → (Order → Bool) → ℕ → String → Action OrderView → Action OrderView
unfolding replay
once_per_key others same user key body = do
  existing ← select (λ db. find_order user key db.orders)
  by_key others same user key body existing

abbrev pub is_purchase_kind : OrderKind → Option ℕ → Bool
is_purchase_kind purchase none = true
is_purchase_kind _ _ = false

abbrev pub is_purchase : Order → Bool
is_purchase o = is_purchase_kind o.kind o.subscription_id

abbrev pub is_renewal_kind : ℕ → OrderKind → Option ℕ → Bool
is_renewal_kind id renewal (some s) = s == id
is_renewal_kind id _ _ = false

abbrev pub is_renewal_of : ℕ → Order → Bool
is_renewal_of id o = is_renewal_kind id o.kind o.subscription_id

-- The transaction of CreateOrder
unfoldable pub place_purchase : ℕ → ℕ → ℤ → String → Action OrderView
unfolding plan_for_order purchase_draft total_overflows
place_purchase user plan_id quantity key = do
  found ← select (plan_for_order plan_id)
  row ← or_fail found (refused plan_not_found)
  fail_if (total_overflows row.plan.price_minor quantity) (refused invalid_quantity)
  place (purchase_draft user key quantity row)

-- PostgresRepository.CreateOrder
unfoldable pub create_order : (Database → Database) → ℕ → ℕ → ℤ → String → Action OrderView
create_order others user plan_id quantity key =
    once_per_key others is_purchase user key (place_purchase user plan_id quantity key)

-- The transaction of CreateRenewalOrder
unfoldable pub place_renewal : ℕ → ℕ → String → Action OrderView
unfolding subscription_for_renewal renewal_draft
place_renewal user id key = do
  found ← select (subscription_for_renewal id user)
  row ← or_fail found (refused subscription_not_found)
  fail_if (not (is_renewable row.subscription.status)) (refused subscription_state)
  place (renewal_draft user key row)

-- PostgresRepository.CreateRenewalOrder
unfoldable pub create_renewal_order : (Database → Database) → ℕ → ℕ → String → Action OrderView
create_renewal_order others user id key =
    once_per_key others (is_renewal_of id) user key (place_renewal user id key)

abbrev pub is_bad_key : String → Bool
is_bad_key key = ltb (len key) 8 || ltb 255 (len key)

-- Service.CreateOrder and Service.CreateRenewalOrder
unfoldable pub order_service : (Database → Database) → ℕ → ℕ → ℤ → String → Action OrderView
order_service others user plan_id quantity key = do
  fail_if (ltb_ℤ quantity (pos 1) || ltb_ℤ (pos 100) quantity) (refused invalid_quantity)
  fail_if (is_bad_key key) (refused invalid_idempotency)
  create_order others user plan_id quantity key

unfoldable pub renewal_service : (Database → Database) → ℕ → ℕ → String → Action OrderView
renewal_service others user id key = do
  fail_if (is_bad_key key) (refused invalid_idempotency)
  create_renewal_order others user id key

-- PostgresRepository.EnsureWallet
unfoldable pub ensure_wallet : Library → ℕ → String → Action Wallet
unfolding ensure_wallet_row
ensure_wallet lib user text = do
  let currency = lib.to_upper text
  fail_if (not (len currency == 3)) (refused payment_mismatch)
  id ← new_id
  outside (ensure_wallet_row id user currency)
