-- ===== src/Commerce/Order/Statements.antt =====
-- The statements that CreateOrder, CreateRenewalOrder and EnsureWallet of
-- backend/internal/commerce/repository.go issue, from backend/internal/store/sqlc/commerce.sql.go and
-- subscription.sql.go. order_no, invoice_no and payment_no are functions of the ids and left out.
use Prim.Native.String.{String}
use text.Mathlib.Text.{◌==◌ as str_eq}
use vps_billing_codex.Shared.{
  ℕ, Bool, ◌&&◌, Option, none, some, List, [], ◌∷◌, ◌++◌, ◌==◌, if◌then◌else◌,
}
use vps_billing_codex.Shared.Int.{pos, ltb_ℤ}
use vps_billing_codex.Shared.Table.{get}
use vps_billing_codex.Store.{
  Database, Plan, Product, Subscription, Order, OrderItem, Payment, Invoice, InvoiceItem, Wallet,
}

abbrev pub plan_id_of : Plan → ℕ
plan_id_of p = p.id

abbrev pub product_id_of : Product → ℕ
product_id_of p = p.id

abbrev pub subscription_id_of : Subscription → ℕ
subscription_id_of s = s.id

abbrev pub has_order_key : ℕ → String → Order → Bool
has_order_key user key o = o.user_id == user && str_eq o.idempotency_key key

-- GetOrderByUserIdempotency, over the unique (user_id, idempotency_key)
abbrev pub find_order : ℕ → String → List Order → Option Order
find_order user key [] = none
find_order user key (o ∷ os) = if has_order_key user key o then some o else find_order user key os

-- GetPaymentByOrder: a payment stands where it was created.
abbrev pub payment_of_order : ℕ → List Payment → Option Payment
payment_of_order order [] = none
payment_of_order order (p ∷ ps) = if p.order_id == order then some p else payment_of_order order ps

-- The row of GetPlanForOrder and of GetSubscriptionForRenewal.
pub record PlanRow : Type 0 where
  pub plan : Plan
  pub product : Product

pub record RenewalRow : Type 0 where
  pub subscription : Subscription
  pub plan : Plan
  pub product : Product

abbrev is_on_sale : Plan → Product → Bool
is_on_sale plan product = str_eq plan.status "active" && str_eq product.status "active"

-- GetPlanForOrder
unfoldable pub plan_for_order : ℕ → Database → Option PlanRow
plan_for_order id db = elim (get plan_id_of id db.plans) [
  | none ↦ none
  | some plan ↦ elim (get product_id_of plan.product_id db.products) [
    | none ↦ none
    | some product ↦
        if is_on_sale plan product then some (record { plan = plan; product = product }) else none
  ]
]

-- GetSubscriptionForRenewal
unfoldable pub subscription_for_renewal : ℕ → ℕ → Database → Option RenewalRow
subscription_for_renewal id user db = elim (get subscription_id_of id db.subscriptions) [
  | none ↦ none
  | some s ↦ elim (get plan_id_of s.plan_id db.plans) [
    | none ↦ none
    | some plan ↦ elim (get product_id_of plan.product_id db.products) [
      | none ↦ none
      | some product ↦
          if s.user_id == user
          then some (record { subscription = s; plan = plan; product = product })
          else none
    ]
  ]
]

-- CreateOrder; ux_orders_user_idempotency refuses a key that the user has used.
unfoldable pub insert_order : Order → Database → Option (Order × Database)
insert_order o db = elim (find_order o.user_id o.idempotency_key db.orders) [
  | some _ ↦ none
  | none ↦ some (o, record db { orders = db.orders ++ o ∷ [] })
]

-- CreateOrderItem and CreateInvoiceItem; the CHECK on their column wants a positive quantity.
unfoldable pub insert_order_item : OrderItem → Database → Option (Unit {0} × Database)
insert_order_item i db =
    if ltb_ℤ (pos 0) i.quantity
    then some (tt, record db { order_items = db.order_items ++ i ∷ [] })
    else none

unfoldable pub insert_invoice_item : InvoiceItem → Database → Option (Unit {0} × Database)
insert_invoice_item i db =
    if ltb_ℤ (pos 0) i.quantity
    then some (tt, record db { invoice_items = db.invoice_items ++ i ∷ [] })
    else none

-- CreateInvoice and CreatePayment
unfoldable pub insert_invoice : Invoice → Database → Invoice × Database
insert_invoice i db = (i, record db { invoices = db.invoices ++ i ∷ [] })

unfoldable pub insert_payment : Payment → Database → Payment × Database
insert_payment p db = (p, record db { payments = db.payments ++ p ∷ [] })

abbrev pub find_wallet : ℕ → String → List Wallet → Option Wallet
find_wallet user currency [] = none
find_wallet user currency (x ∷ xs) =
    if x.user_id == user && str_eq x.currency currency then some x else find_wallet user currency xs

abbrev pub new_wallet : ℕ → ℕ → String → Wallet
new_wallet id user currency = record {
  id = id;
  user_id = user;
  currency = currency;
  available_balance_minor = pos 0;
}

-- EnsureWallet ... ON CONFLICT (user_id, currency) DO UPDATE SET currency = EXCLUDED.currency
unfoldable pub ensure_wallet_row : ℕ → ℕ → String → Database → Wallet × Database
ensure_wallet_row id user currency db = elim (find_wallet user currency db.wallets) [
  | some x ↦ (x, db)
  | none ↦ (
    new_wallet id user currency,
    record db { wallets = db.wallets ++ new_wallet id user currency ∷ [] },
  )
]
