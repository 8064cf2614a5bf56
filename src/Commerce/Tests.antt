-- ===== src/Commerce/Tests.antt =====
-- Runs of backend/internal/commerce on small tables.
use Prim.Native.String.{String}
use text.Mathlib.Text.{◌==◌ as str_eq}
use vps_billing_codex.Shared.{
  ℕ, ◌+◌, ◌%◌, ◌≡◌, ◌⊎◌, ◌↔◌, ◌==◌, Bool, true, false, none, some, List, [], ◌∷◌, refl, All,
}
use vps_billing_codex.Shared.Int.{ℤ, pos}
use vps_billing_codex.Shared.Tx.{World, for_each, database, ok, err, refused}
use vps_billing_codex.Store.{
  Database, empty_database, Subscription, suspended, monthly, Order, OrderStatus, OrderKind,
  Payment, PaymentStatus, Invoice, InvoiceStatus, LedgerEntry, Direction, debit, credit,
  WebhookReceipt,
}
use vps_billing_codex.Commerce.Base.{Library, payment_mismatch}
use vps_billing_codex.Commerce.Ledger.{word, validate_balanced, tally, all_zero}
use vps_billing_codex.Commerce.Ledger.Balanced.{
  accepts, IsEntry, side, is_debit, is_credit, validate_balanced_iff,
}
use vps_billing_codex.Commerce.Payment.{
  Locked, Webhook, lock_payment_order_invoice, insert_webhook_receipt, complete_payment,
  first_delivery, capture, renew_invoiced, post_and_commit, post_capture, publish, publish_renewal,
  mark_payment_succeeded, mark_order_paid, mark_invoice_paid, mark_webhook_processed,
  is_external_taken, renew_subscription_after_payment, renewed, create_ledger_transaction,
  create_ledger_entry,
}
use vps_billing_codex.Shared.Table.{modify}
use vps_billing_codex.Commerce.Payment.Capture.{complete_payment_captures, succeeded_with}
use vps_billing_codex.Commerce.Payment.Atomic.{complete_payment_atomic}
use vps_billing_codex.Commerce.Payment.Once.{SameBooks, captured_once, redelivery_repeats, SameJson}
use vps_billing_codex.Commerce.Payment.Books.{IsBalanced, complete_payment_books}

-- Texts are their own JSON, currencies are upper case already, and a cycle has 30 ticks.
abbrev plain_library : Library
plain_library = record {
  to_upper = λ s. s;
  Json = String;
  decode = λ s. some (s, "");
  at_end = λ s. str_eq s "";
  marshal = λ s. s;
  add_cycle = λ _ t. t + 30;
}

abbrev open_payment : Payment
open_payment = record {
  id = 20;
  order_id = 21;
  gateway = "fake";
  gateway_payment_id = none;
  status = PaymentStatus.pending;
  amount_minor = pos 500;
  currency = "USD";
  gateway_payload = "";
}

abbrev captured_payment : Payment
captured_payment = record open_payment {
  gateway_payment_id = some "ext";
  status = PaymentStatus.succeeded;
}

abbrev renewal_order : Order
renewal_order = record {
  id = 21;
  user_id = 3;
  status = OrderStatus.pending;
  total_minor = pos 500;
  currency = "USD";
  kind = OrderKind.renewal;
  subscription_id = some 10;
  idempotency_key = "renew-10";
}

abbrev renewal_invoice : Invoice
renewal_invoice = record {
  id = 22;
  user_id = 3;
  subscription_id = some 10;
  order_id = 21;
  status = InvoiceStatus.open_;
  amount_minor = pos 500;
  currency = "USD";
  due_at = 130;
}

abbrev stopped : Subscription
stopped = record {
  id = 10;
  user_id = 3;
  plan_id = 7;
  status = suspended;
  billing_cycle = monthly;
  price_minor = 500;
  currency = "USD";
  started_at = some 1;
  current_period_start = some 1;
  current_period_end = some 90;
  next_due_at = some 90;
  grace_until = some 95;
  cancel_at_period_end = false;
  ended_at = none;
  version = 4;
  source_order_id = none;
  source_item_index = none;
}

abbrev with_payment : Payment → List WebhookReceipt → (ℕ → Bool) → World Database
with_payment p receipts broken =
    let db : Database = record empty_database {
      subscriptions = stopped ∷ [];
      orders = renewal_order ∷ [];
      payments = p ∷ [];
      invoices = renewal_invoice ∷ [];
      receipts = receipts;
    } in
    record {
      store = db;
      saved = db;
      now = 100;
      next_id = 1000;
      calls = 0;
      broken = broken;
      locked = λ _. false;
    }

abbrev paying : World Database
paying = with_payment open_payment [] (λ _. false)

abbrev webhook : Webhook
webhook = record {
  event_id = "evt";
  payment_id = 20;
  external_payment_id = "ext";
  amount_minor = pos 500;
  currency = "USD";
}

abbrev open_rows : Locked
open_rows = record { payment = open_payment; order = renewal_order; invoice = renewal_invoice }

-- A capture of a renewal is answered.
capture_answers :
    (complete_payment plain_library webhook "{}" paying).0
    ≡ ok (record { payment_id = 20; order_id = 21; duplicate = false })
unfolding complete_payment insert_webhook_receipt first_delivery lock_payment_order_invoice capture
    renew_invoiced post_and_commit post_capture publish publish_renewal mark_payment_succeeded
    mark_order_paid mark_invoice_paid mark_webhook_processed is_external_taken
    renew_subscription_after_payment renewed create_ledger_transaction create_ledger_entry
    validate_balanced tally all_zero for_each
capture_answers = refl

complete_payment_books_example :
    IsBalanced (complete_payment plain_library webhook "{}" paying).1.saved.ledger_entries
complete_payment_books_example =
    complete_payment_books plain_library webhook "{}" paying refl (λ _ _. refl)

complete_payment_captures_example :
    let (r, w') = complete_payment plain_library webhook "{}" paying in
    (r ≡ ok (record { payment_id = 20; order_id = 21; duplicate = false }))
    × (w'.saved.payments ≡ modify (λ p. p.id) 20 (succeeded_with "ext" "{}") (open_payment ∷ []))
    × (w'.saved.ledger_entries
        ≡ record {
          id = 1002;
          transaction_id = 1001;
          account_type = "gateway_cash";
          account_id = 20;
          direction = debit;
          amount_minor = pos 500;
          currency = "USD";
        }
          ∷ record {
            id = 1003;
            transaction_id = 1001;
            account_type = "accounts_receivable";
            account_id = open_rows.invoice.id;
            direction = credit;
            amount_minor = pos 500;
            currency = "USD";
          }
          ∷ [])
unfolding lock_payment_order_invoice is_external_taken
complete_payment_captures_example =
    complete_payment_captures plain_library webhook "{}" paying {locked = open_rows} 500 (λ _. refl)
      refl refl refl refl refl refl refl refl refl

abbrev paid_world : World Database
paid_world = with_payment captured_payment [] (λ _. false)

captured_once_example :
    SameBooks (complete_payment plain_library webhook "{}" paid_world).1.saved paid_world.saved
unfolding lock_payment_order_invoice
captured_once_example =
    captured_once plain_library webhook "{}" paid_world
      {locked = record {
        payment = captured_payment;
        order = renewal_order;
        invoice = renewal_invoice;
      }}
      refl refl refl

-- The ninth statement fails, after the marks of the payment, order and invoice.
abbrev failing_capture : World Database
failing_capture = with_payment open_payment [] (λ n. n == 8)

complete_payment_atomic_example :
    (complete_payment plain_library webhook "{}" failing_capture).1.saved ≡ failing_capture.saved
unfolding complete_payment insert_webhook_receipt first_delivery lock_payment_order_invoice capture
    renew_invoiced post_and_commit post_capture publish publish_renewal mark_payment_succeeded
    mark_order_paid mark_invoice_paid mark_webhook_processed is_external_taken
    renew_subscription_after_payment renewed create_ledger_transaction create_ledger_entry
    validate_balanced tally all_zero for_each
complete_payment_atomic_example =
    complete_payment_atomic plain_library webhook "{}" failing_capture {e = database} refl

abbrev stored_receipt : WebhookReceipt
stored_receipt = record {
  id = 30;
  gateway = "fake";
  external_event_id = "evt";
  payload = "{}";
  processed = true;
}

abbrev delivered : World Database
delivered = with_payment captured_payment (stored_receipt ∷ []) (λ _. false)

redelivery_repeats_example :
    ((SameJson plain_library "{}" "{}"
        × ((complete_payment plain_library webhook "{}" delivered).0
            ≡ ok (record { payment_id = 20; order_id = 21; duplicate = true })))
      ⊎ (¬ (SameJson plain_library "{}" "{}")
          × ((complete_payment plain_library webhook "{}" delivered).0
              ≡ err (refused payment_mismatch))))
    × ((complete_payment plain_library webhook "{}" delivered).1.saved ≡ delivered.saved)
unfolding lock_payment_order_invoice
redelivery_repeats_example =
    redelivery_repeats plain_library webhook "{}" delivered {r = stored_receipt}
      {locked = record {
        payment = captured_payment;
        order = renewal_order;
        invoice = renewal_invoice;
      }}
      (λ _. refl) refl refl

abbrev entry : String → Direction → ℤ → LedgerEntry
entry currency direction amount = record {
  id = 1;
  transaction_id = 2;
  account_type = "gateway_cash";
  account_id = 3;
  direction = direction;
  amount_minor = amount;
  currency = currency;
}

abbrev two_entries : List LedgerEntry
two_entries = entry "USD" debit (pos 5) ∷ entry "USD" credit (pos 5) ∷ []

validate_balanced_iff_example : (accepts two_entries ≡ true) ↔ (
    All IsEntry two_entries
    × ((c : String) → side is_debit c two_entries % word ≡ side is_credit c two_entries % word))
validate_balanced_iff_example = validate_balanced_iff two_entries
