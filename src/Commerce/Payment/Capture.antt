-- ===== src/Commerce/Payment/Capture.antt =====
-- A webhook that captures: the successful path of CompletePayment of
-- backend/internal/commerce/repository.go.
use Prim.Native.String.{String}
use package.text.Mathlib.Text.{◌==◌ as str_eq}
use vps_billing_codex.Shared.{
  if◌then◌else◌, ◌∷◌, [], ℕ, ◌+◌, ◌≡◌, Bool, true, false, Option, none, some, List, ◌++◌, arith,
  refl, ap, ◌∙◌, inl, inr, Option-cases, option_map,
}
use vps_billing_codex.Shared.Int.{pos}
use vps_billing_codex.Shared.Table.{get, get_id, modify}
use vps_billing_codex.Shared.Tx.{World, ok, IsUp, Result}
use vps_billing_codex.Store.{
  Payment, PaymentStatus, debit, credit, Database, PaymentStatus, Subscription, payment_data,
  payment_succeeded,
}
use vps_billing_codex.Commerce.Base.{Library, CommerceError}
use vps_billing_codex.Commerce.Payment.Statements.{
  Webhook, Locked, lock_payment_order_invoice, find_receipt, fake_gateway, insert_webhook_receipt,
  PaymentResult, is_posted, mark_webhook_processed, pay_id, captured, sub_id, is_renewable, renewed,
  renew_subscription_after_payment, mark_payment_succeeded, mark_order_paid, mark_invoice_paid,
  is_external_taken,
}
use vps_billing_codex.Commerce.Payment.Atomic.{offered}
use vps_billing_codex.Commerce.Payment.Once.{insert-SameBooks, lock-insert}
use vps_billing_codex.Commerce.Payment.Books.{first_entry, second_entry, marked, append_two}
use vps_billing_codex.Commerce.Payment.{
  is_open, is_succeeded, first_delivery, complete_payment, renew_invoiced, capture, capture_entries,
}
use vps_billing_codex.Commerce.Payment.Steps.{
  after_publish, after_capture, after_renewal, after_events, finished, captured_result,
  post_and_commit_lem,
}

-- The invoice's subscription, where it has one, can be renewed.
abbrev pub renewal_allowed : Option ℕ → List Subscription → Bool
renewal_allowed none t = true
renewal_allowed (some id) t = elim (get sub_id id t) [
  | none ↦ false
  | some s ↦ is_renewable s.status
]

abbrev renewal_row : Library → ℕ → Option ℕ → List Subscription → Option Subscription
renewal_row lib now none t = none
renewal_row lib now (some id) t = option_map (renewed lib now) (get sub_id id t)

abbrev after_renew : Library → Option ℕ → World Database → World Database
after_renew lib none w = w
after_renew lib (some id) w = record w {
  store = record (w.store) {
    subscriptions = modify sub_id id (renewed lib w.now) w.store.subscriptions;
  };
  calls = w.calls + 1 + 1;
}

renew_invoiced_lem :
    (lib : Library) (o : Option ℕ) (w : World Database)
    → IsUp w
    → renewal_allowed o w.store.subscriptions ≡ true
    → renew_invoiced lib o w
      ≡ (ok (renewal_row lib w.now o w.store.subscriptions), after_renew lib o w)
unfolding renew_invoiced renew_subscription_after_payment
renew_invoiced_lem lib none w up allowed = refl
renew_invoiced_lem lib (some id) w up allowed =
    elim (Option-cases (get sub_id id w.store.subscriptions)) [
      | inl missing ↦ absurd (ground arith)
      | inr (s, found) ↦
          ground (arith, up w.calls, up (w.calls + 1), get_id sub_id id w.store.subscriptions found)
    ]

-- The world in which a capture ends.
abbrev captured_world : Library → Webhook → String → ℕ → Locked → World Database → World Database
captured_world lib event payload id locked w =
    let paid = marked event payload locked w in
    let o = locked.invoice.subscription_id in
    finished id (
      after_events event locked (renewal_row lib w.now o paid.store.subscriptions)
        (after_renew lib o paid))

after_renew-facts :
    (lib : Library) (o : Option ℕ) (w : World Database)
    → ((after_renew lib o w).broken ≡ w.broken)
      × ((after_renew lib o w).store.ledger_transactions ≡ w.store.ledger_transactions)
after_renew-facts lib none w = (refl, refl)
after_renew-facts lib (some id) w = (refl, refl)

capture_lem :
    (lib : Library) (event : Webhook) (payload : String) (id : ℕ) (locked : Locked) (n : ℕ)
    (w : World Database)
    → IsUp w
    → event.amount_minor ≡ pos n
    → is_external_taken locked.payment.id event.external_payment_id w.store.payments ≡ false
    → is_posted locked.payment.id w.store.ledger_transactions ≡ false
    → renewal_allowed locked.invoice.subscription_id w.store.subscriptions ≡ true
    → capture lib event payload id locked w
      ≡ (ok (captured_result locked), captured_world lib event payload id locked w)
unfolding capture mark_payment_succeeded mark_order_paid mark_invoice_paid
capture_lem lib event payload id locked n w up amount own fresh allowed =
    let paid = marked event payload locked w in
    let o = locked.invoice.subscription_id in
    let row = renewal_row lib w.now o paid.store.subscriptions in
    let kept = after_renew-facts lib o paid in
    ground (
      arith,
      up w.calls,
      up (w.calls + 1),
      up (w.calls + 1 + 1),
      renew_invoiced_lem lib o paid up allowed,
      post_and_commit_lem event id locked row n (after_renew lib o paid)
          (λ k. ap (λ b. b k) kept.0 ∙ up k) amount
          (ap (is_posted locked.payment.id) kept.1 ∙ fresh),
    )

open-succeeded : (s : PaymentStatus) → is_open s ≡ true → is_succeeded s ≡ false
open-succeeded PaymentStatus.pending h = refl
open-succeeded PaymentStatus.processing h = refl
open-succeeded PaymentStatus.succeeded h = absurd (cc)
open-succeeded (PaymentStatus.other s) h = refl

-- The end of the transaction.
abbrev ended :
    Result CommerceError PaymentResult × World Database
    → Result CommerceError PaymentResult × World Database
ended p = (p.0, record (p.1) { store = p.1.saved })

first_delivery_lem :
    (lib : Library) (event : Webhook) (payload : String) (id : ℕ) (w : World Database)
    {locked : Locked} (n : ℕ)
    → IsUp w
    → lock_payment_order_invoice event.payment_id w.store ≡ some locked
    → event.amount_minor ≡ pos n
    → locked.payment.amount_minor ≡ pos n
    → str_eq locked.payment.currency (lib.to_upper event.currency) ≡ true
    → is_open locked.payment.status ≡ true
    → first_delivery lib event payload id w
      ≡ capture lib event payload id locked (record w { calls = w.calls + 1 })
unfolding first_delivery
first_delivery_lem lib event payload id w {locked} n up found amount same currency open_ =
    ground (arith, up w.calls, open-succeeded locked.payment.status open_)

new_receipt_lem :
    (lib : Library) (event : Webhook) (payload : String) (w : World Database)
    → IsUp w
    → find_receipt fake_gateway event.event_id w.store.receipts ≡ none
    → complete_payment lib event payload w
      ≡ ended (first_delivery lib event payload w.next_id (offered event payload w))
unfolding complete_payment insert_webhook_receipt
new_receipt_lem lib event payload w up new = ground (arith, up w.calls, up (w.calls + 1))

after_renewal-facts :
    (payment : ℕ) (row : Option Subscription) (w : World Database)
    → ((after_renewal payment row w).store.payments ≡ w.store.payments)
      × ((after_renewal payment row w).store.ledger_entries ≡ w.store.ledger_entries)
after_renewal-facts payment none w = (refl, refl)
after_renewal-facts payment (some s) w = (refl, refl)

after_renew-rows :
    (lib : Library) (o : Option ℕ) (w : World Database)
    → ((after_renew lib o w).store.payments ≡ w.store.payments)
      × ((after_renew lib o w).store.ledger_entries ≡ w.store.ledger_entries)
      × ((after_renew lib o w).next_id ≡ w.next_id)
after_renew-rows lib none w = (refl, refl, refl)
after_renew-rows lib (some id) w = (refl, refl, refl)

captured_world-facts :
    (lib : Library) (event : Webhook) (payload : String) (id : ℕ) (locked : Locked)
    (w : World Database)
    → ((captured_world lib event payload id locked w).saved.payments
        ≡ modify pay_id locked.payment.id
            (captured event.external_payment_id payload)
            w.store.payments)
      × ((captured_world lib event payload id locked w).saved.ledger_entries
          ≡ w.store.ledger_entries
            ++ capture_entries
                (w.next_id + 1)
                (w.next_id + 1 + 1)
                w.next_id
                locked
                event.amount_minor)
unfolding mark_webhook_processed mark_order_paid mark_invoice_paid
captured_world-facts lib event payload id locked w =
    let paid = marked event payload locked w in
    let o = locked.invoice.subscription_id in
    let row = renewal_row lib w.now o paid.store.subscriptions in
    let renewed_ = after_renew lib o paid in
    let told =
      after_publish payment_succeeded locked.payment.id
        (payment_data locked.payment.id locked.order.id locked.order.user_id event.amount_minor
          locked.payment.currency)
        (after_capture locked event.amount_minor renewed_) in
    let rows = after_renew-rows lib o paid in
    let last = after_renewal-facts locked.payment.id row told in
    (
      last.0 ∙ rows.0,
      last.1
          ∙ ground (
            arith,
            rows.1,
            rows.2,
            append_two w.store.ledger_entries (first_entry w.next_id locked event.amount_minor)
                (second_entry w.next_id locked event.amount_minor),
          ),
    )

-- A payment that is succeeded with an external id, which is null for an empty text, and a payload.
abbrev pub succeeded_with : String → String → Payment → Payment
succeeded_with external payload p = record p {
  status = PaymentStatus.succeeded;
  gateway_payment_id = if str_eq external "" then none else some external;
  gateway_payload = payload;
}

-- While the database answers, a new event for an open payment with its amount and currency, whose
-- external id no other payment has, which has no ledger transaction yet, and whose subscription, if any,
-- can be renewed, is captured: the caller gets the ids, the payment is succeeded with the external id,
-- and the two entries of the capture end the ledger.
pub complete_payment_captures :
    (lib : Library) (event : Webhook) (payload : String) (w : World Database) {locked : Locked}
    (n : ℕ)
    → IsUp w
    → find_receipt fake_gateway event.event_id w.store.receipts ≡ none
    → lock_payment_order_invoice event.payment_id w.store ≡ some locked
    → event.amount_minor ≡ pos n
    → locked.payment.amount_minor ≡ pos n
    → str_eq locked.payment.currency (lib.to_upper event.currency) ≡ true
    → is_open locked.payment.status ≡ true
    → is_external_taken locked.payment.id event.external_payment_id w.store.payments ≡ false
    → is_posted locked.payment.id w.store.ledger_transactions ≡ false
    → renewal_allowed locked.invoice.subscription_id w.store.subscriptions ≡ true
    → let (r, w') = complete_payment lib event payload w in
      (r
        ≡ ok (record {
          payment_id = locked.payment.id;
          order_id = locked.order.id;
          duplicate = false;
        }))
      × (w'.saved.payments
          ≡ modify
              (λ p. p.id)
              locked.payment.id
              (succeeded_with event.external_payment_id payload)
              w.store.payments)
      × (w'.saved.ledger_entries
          ≡ w.store.ledger_entries
            ++ record {
              id = w.next_id + 1 + 1;
              transaction_id = w.next_id + 1;
              account_type = "gateway_cash";
              account_id = locked.payment.id;
              direction = debit;
              amount_minor = pos n;
              currency = locked.payment.currency;
            }
              ∷ record {
                id = w.next_id + 1 + 1 + 1;
                transaction_id = w.next_id + 1;
                account_type = "accounts_receivable";
                account_id = locked.invoice.id;
                direction = credit;
                amount_minor = pos n;
                currency = locked.payment.currency;
              }
              ∷ [])
complete_payment_captures lib event payload w {locked} n up new found amount same currency open_ own
      fresh allowed =
    let wo = offered event payload w in
    let wc = record wo { calls = wo.calls + 1 } in
    let kept = insert-SameBooks w.next_id event.event_id payload w.store in
    let run =
      new_receipt_lem lib event payload w up new
      ∙ ap ended (
          first_delivery_lem lib event payload w.next_id wo {locked = locked} n up
            (lock-insert w.next_id event.payment_id event.event_id payload w.store ∙ found) amount
            same currency open_
          ∙ capture_lem lib event payload w.next_id locked n wc up amount
              (ap (is_external_taken locked.payment.id event.external_payment_id) kept.payments
                ∙ own)
              (ap (is_posted locked.payment.id) kept.ledger_transactions ∙ fresh)
              (ap (renewal_allowed locked.invoice.subscription_id) kept.subscriptions ∙ allowed)) in
    let facts = captured_world-facts lib event payload w.next_id locked wc in
    (
      ap (λ p. p.0) run,
      ap (λ p. p.1.saved.payments) run
          ∙ facts.0
          ∙ ap (modify pay_id locked.payment.id (captured event.external_payment_id payload))
              kept.payments,
      ap (λ p. p.1.saved.ledger_entries) run
          ∙ facts.1
          ∙ ap
              (λ es.
                es
                ++ capture_entries (w.next_id + 1 + 1) (w.next_id + 1 + 1 + 1) (w.next_id + 1)
                    locked event.amount_minor)
              kept.ledger_entries
          ∙ ap
              (λ m.
                w.store.ledger_entries
                ++ capture_entries (w.next_id + 1 + 1) (w.next_id + 1 + 1 + 1) (w.next_id + 1)
                    locked m)
              amount,
    )
