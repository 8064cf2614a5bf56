-- ===== src/Store/Commerce.antt =====
-- The rows of orders, payments, invoices, webhook receipts and the ledger: Order, Payment, Invoice,
-- PaymentWebhookReceipt, LedgerTransaction, LedgerEntry, OrderItem, InvoiceItem and Wallet of
-- backend/internal/store/sqlc/models.go, less the columns that no modelled statement reads.
use vps_billing_codex.Shared.{ℕ, Bool, Option}
use vps_billing_codex.Shared.Int.{ℤ}
use vps_billing_codex.Store.Subscriptions.{BillingCycle}
use Prim.Native.String.{String}

pub data OrderStatus : Type 0 where
  pending paid fulfilling fulfilled : OrderStatus
  other : String → OrderStatus

pub data PaymentStatus : Type 0 where
  pending processing succeeded : PaymentStatus
  other : String → PaymentStatus

pub data InvoiceStatus : Type 0 where
  open_ paid : InvoiceStatus
  other : String → InvoiceStatus

pub data OrderKind : Type 0 where
  purchase renewal : OrderKind

pub record Order : Type 0 where
  pub id : ℕ
  pub user_id : ℕ
  pub status : OrderStatus
  pub total_minor : ℤ
  pub currency : String
  pub kind : OrderKind
  pub subscription_id : Option ℕ
  pub idempotency_key : String

pub record Payment : Type 0 where
  pub id : ℕ
  pub order_id : ℕ
  pub gateway : String
  pub gateway_payment_id : Option String
  pub status : PaymentStatus
  pub amount_minor : ℤ
  pub currency : String
  pub gateway_payload : String

pub record Invoice : Type 0 where
  pub id : ℕ
  pub user_id : ℕ
  pub subscription_id : Option ℕ
  pub order_id : ℕ
  pub status : InvoiceStatus
  pub amount_minor : ℤ
  pub currency : String
  pub due_at : ℕ

pub record WebhookReceipt : Type 0 where
  pub id : ℕ
  pub gateway : String
  pub external_event_id : String
  pub payload : String
  pub processed : Bool

pub record LedgerTransaction : Type 0 where
  pub id : ℕ
  pub kind : String
  pub reference_type : String
  pub reference_id : ℕ

-- The column is a text that a CHECK holds to the first two; validateBalanced sees any.
pub data Direction : Type 0 where
  debit credit : Direction
  other : String → Direction

pub record LedgerEntry : Type 0 where
  pub id : ℕ
  pub transaction_id : ℕ
  pub account_type : String
  pub account_id : ℕ
  pub direction : Direction
  pub amount_minor : ℤ
  pub currency : String

-- What json.Marshal makes of a product and a plan for an order item; a renewal leaves out the sizes.
pub record ProductSnapshot : Type 0 where
  pub id : ℕ
  pub slug : String
  pub name : String
  pub description : String

pub record PlanSizes : Type 0 where
  pub cpu_cores : ℕ
  pub memory_mb : ℕ
  pub disk_gb : ℕ
  pub virtualization : String

pub record PlanSnapshot : Type 0 where
  pub id : ℕ
  pub slug : String
  pub name : String
  pub sizes : Option PlanSizes
  pub billing_cycle : BillingCycle
  pub price_minor : ℕ
  pub currency : String

pub record OrderItem : Type 0 where
  pub id : ℕ
  pub order_id : ℕ
  pub product_id : ℕ
  pub plan_id : ℕ
  pub quantity : ℤ
  pub unit_price_minor : ℕ
  pub total_minor : ℤ
  pub product_snapshot : ProductSnapshot
  pub plan_snapshot : PlanSnapshot

pub record InvoiceItem : Type 0 where
  pub id : ℕ
  pub invoice_id : ℕ
  pub description : String
  pub quantity : ℤ
  pub unit_amount_minor : ℕ
  pub total_minor : ℤ

pub record Wallet : Type 0 where
  pub id : ℕ
  pub user_id : ℕ
  pub currency : String
  pub available_balance_minor : ℤ
