-- ===== src/Commerce/Payment/Statements.antt =====
-- The statements that CompletePayment of backend/internal/commerce/repository.go issues, from
-- backend/internal/store/sqlc/commerce.sql.go and subscription.sql.go.
use Prim.Native.String.{String}
use text.Mathlib.Text.{◌==◌ as str_eq}
use vps_billing_codex.Shared.{
  ℕ, ◌+◌, Bool, true, false, not, ◌&&◌, ◌||◌, Option, none, some, List, [], ◌∷◌, ◌++◌, ltb, leb,
  ◌==◌, if◌then◌else◌,
}
use vps_billing_codex.Shared.Int.{ℤ}
use vps_billing_codex.Shared.Table.{get, modify, update_one}
use vps_billing_codex.Store.{
  Database, Subscription, SubscriptionStatus, active, past_due, suspended, Order, OrderStatus,
  Payment, PaymentStatus, Invoice, InvoiceStatus, WebhookReceipt, LedgerTransaction, LedgerEntry,
}
use vps_billing_codex.Commerce.Base.{Library, nullable_text}

pub record Webhook : Type 0 where
  pub event_id : String
  pub payment_id : ℕ
  pub external_payment_id : String
  pub amount_minor : ℤ
  pub currency : String

pub record PaymentResult : Type 0 where
  pub payment_id : ℕ
  pub order_id : ℕ
  pub duplicate : Bool

abbrev pub fake_gateway : String
fake_gateway = "fake"

abbrev pub pay_id : Payment → ℕ
pay_id p = p.id

abbrev pub order_id_of : Order → ℕ
order_id_of o = o.id

abbrev pub invoice_id_of : Invoice → ℕ
invoice_id_of i = i.id

abbrev pub invoice_order : Invoice → ℕ
invoice_order i = i.order_id

abbrev pub receipt_id_of : WebhookReceipt → ℕ
receipt_id_of r = r.id

abbrev pub sub_id : Subscription → ℕ
sub_id s = s.id

-- GetWebhookReceipt, over the unique (gateway, external_event_id)
abbrev pub find_receipt : String → String → List WebhookReceipt → Option WebhookReceipt
find_receipt gateway event [] = none
find_receipt gateway event (r ∷ rs) =
    if str_eq r.gateway gateway && str_eq r.external_event_id event
    then some r
    else find_receipt gateway event rs

-- The row of LockPaymentOrderInvoice.
pub record Locked : Type 0 where
  pub payment : Payment
  pub order : Order
  pub invoice : Invoice

-- LockPaymentOrderInvoice
unfoldable pub lock_payment_order_invoice : ℕ → Database → Option Locked
lock_payment_order_invoice id db = elim (get pay_id id db.payments) [
  | none ↦ none
  | some p ↦
      if str_eq p.gateway fake_gateway
      then elim (get order_id_of p.order_id db.orders) [
        | none ↦ none
        | some o ↦ elim (get invoice_order o.id db.invoices) [
          | none ↦ none
          | some i ↦ some (record { payment = p; order = o; invoice = i })
        ]
      ]
      else none
]

-- InsertWebhookReceipt ... ON CONFLICT DO NOTHING
unfoldable pub insert_webhook_receipt : ℕ → String → String → Database → Option ℕ × Database
insert_webhook_receipt id event payload db = elim (find_receipt fake_gateway event db.receipts) [
  | some _ ↦ (none, db)
  | none ↦ (
    some id,
    record db {
      receipts =
          db.receipts
          ++ record {
            id = id;
            gateway = fake_gateway;
            external_event_id = event;
            payload = payload;
            processed = false;
          }
            ∷ [];
    },
  )
]

-- ux_payments_gateway_external: another payment of the gateway has that external id.
unfoldable pub is_external_taken : ℕ → String → List Payment → Bool
is_external_taken id external [] = false
is_external_taken id external (p ∷ ps) =
    not (p.id == id)
      && (str_eq p.gateway fake_gateway
          && elim p.gateway_payment_id [ none ↦ false | some g ↦ str_eq g external ])
    || is_external_taken id external ps

-- MarkPaymentSucceeded
abbrev pub captured : String → String → Payment → Payment
captured external payload p = record p {
  status = PaymentStatus.succeeded;
  gateway_payment_id = nullable_text external;
  gateway_payload = payload;
}

unfoldable pub mark_payment_succeeded :
    ℕ → String → String → Database → Option (Unit {0} × Database)
mark_payment_succeeded id external payload db =
    if is_external_taken id external db.payments
    then none
    else some
        (tt, record db { payments = modify pay_id id (captured external payload) db.payments })

-- MarkOrderPaid, MarkInvoicePaid and MarkWebhookProcessed
unfoldable pub mark_order_paid : ℕ → Database → Database
mark_order_paid id db = record db {
  orders = modify order_id_of id (λ o. record o { status = OrderStatus.paid }) db.orders;
}

unfoldable pub mark_invoice_paid : ℕ → Database → Database
mark_invoice_paid id db = record db {
  invoices = modify invoice_id_of id (λ i. record i { status = InvoiceStatus.paid }) db.invoices;
}

unfoldable pub mark_webhook_processed : ℕ → Database → Database
mark_webhook_processed id db = record db {
  receipts = modify receipt_id_of id (λ r. record r { processed = true }) db.receipts;
}

abbrev pub is_renewable : SubscriptionStatus → Bool
is_renewable active = true
is_renewable past_due = true
is_renewable suspended = true
is_renewable _ = false

-- GREATEST(COALESCE(current_period_end, $2), $2)
abbrev pub renewal_base : Option ℕ → ℕ → ℕ
renewal_base none now = now
renewal_base (some t) now = if ltb now t then t else now

abbrev or_now : Option ℕ → ℕ → Option ℕ
or_now none now = some now
or_now (some t) now = some t

abbrev period_start : Option ℕ → Option ℕ → ℕ → Option ℕ
period_start none start now = some now
period_start (some t) start now = if leb t now then some now else start

-- The new row of RenewSubscriptionAfterPayment.
unfoldable pub renewed : Library → ℕ → Subscription → Subscription
renewed lib now s =
    let end = lib.add_cycle s.billing_cycle (renewal_base s.current_period_end now) in
    record s {
      status = active;
      started_at = or_now s.started_at now;
      current_period_start = period_start s.current_period_end s.current_period_start now;
      current_period_end = some end;
      next_due_at = some end;
      grace_until = none;
      cancel_at_period_end = false;
      ended_at = none;
      version = s.version + 1;
    }

-- RenewSubscriptionAfterPayment
unfoldable pub renew_subscription_after_payment :
    Library → ℕ → ℕ → Database → Option (Subscription × Database)
renew_subscription_after_payment lib id now db =
    elim (update_one sub_id id (λ _. true) (renewed lib now) db.subscriptions) [
      | none ↦ none
      | some p ↦ some (p.0, record db { subscriptions = p.1 })
    ]

-- ux_ledger_transaction_reference
abbrev pub is_posted : ℕ → List LedgerTransaction → Bool
is_posted payment [] = false
is_posted payment (t ∷ ts) =
    str_eq t.kind "payment_capture"
      && (str_eq t.reference_type "payment" && t.reference_id == payment)
    || is_posted payment ts

-- CreateLedgerTransaction
unfoldable pub create_ledger_transaction : ℕ → ℕ → Database → Option (Unit {0} × Database)
create_ledger_transaction id payment db =
    if is_posted payment db.ledger_transactions
    then none
    else some (
      tt,
      record db {
        ledger_transactions =
            db.ledger_transactions
            ++ record {
              id = id;
              kind = "payment_capture";
              reference_type = "payment";
              reference_id = payment;
            }
              ∷ [];
      },
    )

-- CreateLedgerEntry
unfoldable pub create_ledger_entry : LedgerEntry → Database → Database
create_ledger_entry e db = record db { ledger_entries = db.ledger_entries ++ e ∷ [] }
