-- ===== src/Commerce/Payment.antt =====
-- CompletePayment of backend/internal/commerce/repository.go: a webhook captures a payment, pays its
-- order and invoice, renews the subscription, posts the ledger and publishes events, in one
-- transaction.
mod Statements
unfoldable pub use Statements.*
pub mod Atomic
pub mod Once
pub mod Books
pub mod Steps
pub mod Capture
use Prim.Native.String.{String}
use package.text.Mathlib.Text.{◌==◌ as str_eq}
use vps_billing_codex.Shared.{
  ℕ, Bool, true, false, not, ◌&&◌, ◌||◌, Option, none, some, List, [], ◌∷◌, ◌++◌, if◌then◌else◌,
}
use vps_billing_codex.Shared.Int.{ℤ, pos, negsuc, leb_ℤ}
use vps_billing_codex.Shared.Table.{get}
use vps_billing_codex.Shared.Tx.{
  no_rows, unique_violation, refused, ◌>>=◌, ◌>>◌, pure, fail, fail_if, or_fail, select, change,
  change_row, execute, clock, new_id, commit, transaction, for_each,
}
use vps_billing_codex.Store.{
  Database, Subscription, subscription_status_text, EventType, payment_succeeded,
  subscription_renewed, Payload, payment_data, renewal_data, OutboxEvent, OutboxStatus,
  PaymentStatus, LedgerEntry, debit, credit,
}
use vps_billing_codex.Commerce.Base.{
  payment_not_found, payment_mismatch, payment_state, subscription_not_found, subscription_state,
  ledger_rejected, Action, Library, equal_json,
}
use vps_billing_codex.Commerce.Ledger.{validate_balanced, is_running}

abbrev eq_ℤ : ℤ → ℤ → Bool
eq_ℤ a b = leb_ℤ a b && leb_ℤ b a

abbrev pub is_succeeded : PaymentStatus → Bool
is_succeeded PaymentStatus.succeeded = true
is_succeeded _ = false

abbrev pub is_open : PaymentStatus → Bool
is_open PaymentStatus.pending = true
is_open PaymentStatus.processing = true
is_open _ = false

abbrev has_external : Option String → String → Bool
has_external none external = false
has_external (some g) external = str_eq g external

-- CreateOutboxEvent with its envelope
unfoldable pub publish : EventType → ℕ → Payload → Action (Unit {0})
publish event_type aggregate payload = do
  id ← new_id
  now ← clock
  execute (λ db. record db {
    outbox =
        db.outbox
        ++ record {
          id = id;
          event_type = event_type;
          aggregate_id = aggregate;
          occurred_at = now;
          payload = payload;
          status = OutboxStatus.pending;
          attempts = 0;
          next_attempt_at = now;
        }
          ∷ [];
  })

-- The renewal block: the invoice's subscription is locked, checked and renewed.
unfoldable pub renew_invoiced : Library → Option ℕ → Action (Option Subscription)
unfolding renew_subscription_after_payment
renew_invoiced lib none = pure none
renew_invoiced lib (some id) = do
  found ← select (λ db. get sub_id id db.subscriptions)
  subscription ← or_fail found (refused subscription_not_found)
  fail_if (not (is_renewable subscription.status)) (refused subscription_state)
  now ← clock
  row ← change_row (renew_subscription_after_payment lib subscription.id now) no_rows
  pure (some row)

-- The two entries of a capture.
abbrev pub capture_entries : ℕ → ℕ → ℕ → Locked → ℤ → List LedgerEntry
capture_entries first second transaction_id locked amount =
    record {
      id = first;
      transaction_id = transaction_id;
      account_type = "gateway_cash";
      account_id = locked.payment.id;
      direction = debit;
      amount_minor = amount;
      currency = locked.payment.currency;
    }
    ∷ record {
      id = second;
      transaction_id = transaction_id;
      account_type = "accounts_receivable";
      account_id = locked.invoice.id;
      direction = credit;
      amount_minor = amount;
      currency = locked.payment.currency;
    }
    ∷ []

-- The ledger block
unfoldable pub post_capture : Locked → ℤ → Action (Unit {0})
unfolding create_ledger_transaction create_ledger_entry
post_capture locked amount = do
  transaction_id ← new_id
  change_row (create_ledger_transaction transaction_id locked.payment.id) unique_violation
  first ← new_id
  second ← new_id
  let entries = capture_entries first second transaction_id locked amount
  fail_if (not (is_running (validate_balanced entries))) (refused ledger_rejected)
  for_each (λ e. execute (create_ledger_entry e)) entries

-- The event of a renewal, where there was one.
unfoldable pub publish_renewal : ℕ → Option Subscription → Action (Unit {0})
unfolding publish
publish_renewal payment none = pure tt
publish_renewal payment (some s) = publish subscription_renewed s.id (
    renewal_data s.id s.user_id payment s.current_period_end (subscription_status_text s.status)
      s.version)

-- From the ledger block to the commit.
unfoldable pub post_and_commit : Webhook → ℕ → Locked → Option Subscription → Action PaymentResult
unfolding mark_webhook_processed
post_and_commit event receipt_id locked row = do
  post_capture locked event.amount_minor
  publish payment_succeeded locked.payment.id (
      payment_data locked.payment.id locked.order.id locked.order.user_id event.amount_minor
        locked.payment.currency)
  publish_renewal locked.payment.id row
  execute (mark_webhook_processed receipt_id)
  commit
  pure (record { payment_id = locked.payment.id; order_id = locked.order.id; duplicate = false })

-- Everything from MarkPaymentSucceeded on.
unfoldable pub capture : Library → Webhook → String → ℕ → Locked → Action PaymentResult
unfolding mark_payment_succeeded mark_order_paid mark_invoice_paid
capture lib event payload receipt_id locked = do
  change_row (mark_payment_succeeded locked.payment.id event.external_payment_id payload)
      unique_violation
  execute (mark_order_paid locked.order.id)
  execute (mark_invoice_paid locked.invoice.id)
  row ← renew_invoiced lib locked.invoice.subscription_id
  post_and_commit event receipt_id locked row

-- An event whose receipt is new.
unfoldable pub first_delivery : Library → Webhook → String → ℕ → Action PaymentResult
unfolding mark_webhook_processed
first_delivery lib event payload receipt_id = do
  found ← select (lock_payment_order_invoice event.payment_id)
  locked ← or_fail found (refused payment_not_found)
  fail_if
      (not (eq_ℤ locked.payment.amount_minor event.amount_minor)
        || not (str_eq locked.payment.currency (lib.to_upper event.currency)))
      (refused payment_mismatch)
  if is_succeeded locked.payment.status
      then (do
        fail_if (not (has_external locked.payment.gateway_payment_id event.external_payment_id))
            (refused payment_mismatch)
        execute (mark_webhook_processed receipt_id)
        commit
        pure (record {
          payment_id = locked.payment.id;
          order_id = locked.order.id;
          duplicate = true;
        }))
      else (do
        fail_if (not (is_open locked.payment.status)) (refused payment_state)
        capture lib event payload receipt_id locked)

-- An event whose receipt is there already: only its answer is repeated.
unfoldable pub redelivery : Library → Webhook → String → Action PaymentResult
redelivery lib event payload = do
  receipt ← select (λ db. find_receipt fake_gateway event.event_id db.receipts)
  r ← or_fail receipt no_rows
  fail_if (not (equal_json lib r.payload payload)) (refused payment_mismatch)
  found ← select (lock_payment_order_invoice event.payment_id)
  locked ← or_fail found (refused payment_not_found)
  pure (record { payment_id = locked.payment.id; order_id = locked.order.id; duplicate = true })

abbrev pub by_receipt : Library → Webhook → String → Option ℕ → Action PaymentResult
by_receipt lib event payload none = redelivery lib event payload
by_receipt lib event payload (some id) = first_delivery lib event payload id

-- PostgresRepository.CompletePayment
unfoldable pub complete_payment : Library → Webhook → String → Action PaymentResult
complete_payment lib event payload = transaction (do
  id ← new_id
  inserted ← change (insert_webhook_receipt id event.event_id payload)
  by_receipt lib event payload inserted)
