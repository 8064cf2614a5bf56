-- ===== src/Commerce/Payment/Once.antt =====
-- CompletePayment of backend/internal/commerce/repository.go on webhooks that come again: for an event
-- that has a receipt, and for a payment that is captured already.
use Prim.Native.String.{String}
use text.Mathlib.TextEquality.{eq_iff}
use vps_billing_codex.Shared.{
  ℕ, ◌+◌, ◌≡◌, ◌⊎◌, true, none, some, arith, Option, if◌then◌else◌, inl, inr, Bool-cases,
  Option-cases,
}
use vps_billing_codex.Shared.Tx.{World, ok, err, refused, IsUp}
use vps_billing_codex.Store.{Database, WebhookReceipt}
use vps_billing_codex.Commerce.Base.{payment_mismatch, Library, equal_json, canonical_json}
use vps_billing_codex.Commerce.Payment.Statements.{
  Webhook, Locked, mark_webhook_processed, insert_webhook_receipt, lock_payment_order_invoice,
  find_receipt, fake_gateway,
}
use vps_billing_codex.Commerce.Payment.Atomic.{offered}
use vps_billing_codex.Commerce.Payment.{
  is_succeeded, first_delivery, redelivery, by_receipt, complete_payment,
}

-- Every table but the receipts.
pub record SameBooks (a b : Database) : Type 0 where
  pub payments : a.payments ≡ b.payments
  pub orders : a.orders ≡ b.orders
  pub invoices : a.invoices ≡ b.invoices
  pub subscriptions : a.subscriptions ≡ b.subscriptions
  pub ledger_transactions : a.ledger_transactions ≡ b.ledger_transactions
  pub ledger_entries : a.ledger_entries ≡ b.ledger_entries
  pub outbox : a.outbox ≡ b.outbox

pub insert-SameBooks :
    (id : ℕ) (event payload : String) (db : Database)
    → SameBooks (insert_webhook_receipt id event payload db).1 db
unfolding insert_webhook_receipt
insert-SameBooks id event payload db = ground arith

pub lock-insert :
    (id payment : ℕ) (event payload : String) (db : Database)
    → lock_payment_order_invoice payment (insert_webhook_receipt id event payload db).1
      ≡ lock_payment_order_invoice payment db
unfolding insert_webhook_receipt lock_payment_order_invoice
lock-insert id payment event payload db = ground arith

by_receipt-SameBooks :
    (lib : Library) (event : Webhook) (payload : String) (o : Option ℕ) (w : World Database)
    {locked : Locked}
    → lock_payment_order_invoice event.payment_id w.store ≡ some locked
    → is_succeeded locked.payment.status ≡ true
    → SameBooks w.store w.saved
    → SameBooks (by_receipt lib event payload o w).1.saved w.saved
unfolding first_delivery redelivery mark_webhook_processed
by_receipt-SameBooks lib event payload none w found paid same = ground arith
by_receipt-SameBooks lib event payload (some id) w found paid same = ground arith

-- A captured payment is captured once: no webhook for it, whatever it says and however it ends,
-- changes a payment, order, invoice, subscription, ledger row or event.
pub captured_once :
    (lib : Library) (event : Webhook) (payload : String) (w : World Database) {locked : Locked}
    → w.store ≡ w.saved
    → lock_payment_order_invoice event.payment_id w.store ≡ some locked
    → is_succeeded locked.payment.status ≡ true
    → SameBooks (complete_payment lib event payload w).1.saved w.saved
unfolding complete_payment
captured_once lib event payload w {locked} settled found paid =
    let inserted = (insert_webhook_receipt w.next_id event.event_id payload w.store).0 in
    let same = insert-SameBooks w.next_id event.event_id payload w.store in
    ground (
      arith,
      by_receipt-SameBooks lib event payload inserted (offered event payload w) {locked = locked},
      lock-insert w.next_id event.payment_id event.event_id payload w.store,
      same,
      settled,
    )

redelivered :
    (lib : Library) (event : Webhook) (payload : String) (w : World Database) {r : WebhookReceipt}
    {locked : Locked}
    → IsUp w
    → find_receipt fake_gateway event.event_id w.store.receipts ≡ some r
    → lock_payment_order_invoice event.payment_id w.store ≡ some locked
    → ((complete_payment lib event payload w).0 ≡ (
        if equal_json lib r.payload payload
        then ok (record {
          payment_id = locked.payment.id;
          order_id = locked.order.id;
          duplicate = true;
        })
        else err (refused payment_mismatch)))
      × ((complete_payment lib event payload w).1.saved ≡ w.saved)
unfolding complete_payment insert_webhook_receipt redelivery
redelivered lib event payload w up stored found = (
  ground (arith, up w.calls, up (w.calls + 1), up (w.calls + 1 + 1), up (w.calls + 1 + 1 + 1)),
  ground (arith, up w.calls, up (w.calls + 1), up (w.calls + 1 + 1), up (w.calls + 1 + 1 + 1)),
)

-- Two texts that each hold one JSON value and nothing more, with equal canonical texts.
pub record SameJson (lib : Library) (l r : String) : Type 0 where
  pub left_value : lib.Json
  pub right_value : lib.Json
  pub left_rest : String
  pub right_rest : String
  pub left_read : lib.decode l ≡ some (left_value, left_rest)
  pub right_read : lib.decode r ≡ some (right_value, right_rest)
  pub left_ends : lib.at_end left_rest ≡ true
  pub right_ends : lib.at_end right_rest ≡ true
  pub same_text : lib.marshal left_value ≡ lib.marshal right_value

canonical_one :
    (lib : Library) (s : String) {x : lib.Json} {rest : String}
    → lib.decode s ≡ some (x, rest)
    → lib.at_end rest ≡ true
    → canonical_json lib s ≡ some (lib.marshal x)
unfolding canonical_json
canonical_one lib s found ends = ground (arith, found, ends)

canonical_cases :
    (lib : Library) (s : String)
    → (canonical_json lib s ≡ none)
      ⊎ ((x : lib.Json) × (rest : String) × (lib.decode s ≡ some (x, rest))
          × (lib.at_end rest ≡ true)
          × (canonical_json lib s ≡ some (lib.marshal x)))
unfolding canonical_json
canonical_cases lib s = elim (Option-cases (lib.decode s)) [
  | inl missing ↦ inl (ground (arith, missing))
  | inr ((x, rest), found) ↦ elim (Bool-cases (lib.at_end rest)) [
    | inl ends ↦ inr (x, rest, found, ends, ground (arith, found, ends))
    | inr more ↦ inl (ground (arith, found, more))
  ]
]

equal_json-SameJson : (lib : Library) (l r : String) → equal_json lib l r ≡ true → SameJson lib l r
unfolding equal_json
equal_json-SameJson lib l r h = elim (canonical_cases lib l) [
  | inl missing ↦ absurd (ground (arith, missing, h))
  | inr (x, rest, found, ends, text) ↦ elim (canonical_cases lib r) [
    | inl missing ↦ absurd (ground (arith, text, missing, h))
    | inr (y, more, met, stops, other) ↦ record {
      left_value = x;
      right_value = y;
      left_rest = rest;
      right_rest = more;
      left_read = found;
      right_read = met;
      left_ends = ends;
      right_ends = stops;
      same_text = (eq_iff (lib.marshal x) (lib.marshal y)).0 (rw (text, other) at h);
    }
  ]
]

SameJson-equal_json : (lib : Library) (l r : String) → SameJson lib l r → equal_json lib l r ≡ true
unfolding equal_json
SameJson-equal_json lib l r s =
    let left = canonical_one lib l s.left_read s.left_ends in
    let right = canonical_one lib r s.right_read s.right_ends in
    ground (
      arith,
      left,
      right,
      (eq_iff (lib.marshal s.left_value) (lib.marshal s.right_value)).1 s.same_text,
    )

-- Redelivery: while the database answers, an event whose receipt is stored, for a payment that is
-- there with its order and invoice, is answered as a duplicate with the ids of the payment and order if
-- the two payloads each hold one JSON value with the same canonical text, and is refused as a mismatch
-- if not; nothing is written.
pub redelivery_repeats :
    (lib : Library) (event : Webhook) (payload : String) (w : World Database) {r : WebhookReceipt}
    {locked : Locked}
    → IsUp w
    → find_receipt fake_gateway event.event_id w.store.receipts ≡ some r
    → lock_payment_order_invoice event.payment_id w.store ≡ some locked
    → ((SameJson lib r.payload payload
          × ((complete_payment lib event payload w).0
              ≡ ok (record {
                payment_id = locked.payment.id;
                order_id = locked.order.id;
                duplicate = true;
              })))
        ⊎ (¬ (SameJson lib r.payload payload)
            × ((complete_payment lib event payload w).0 ≡ err (refused payment_mismatch))))
      × ((complete_payment lib event payload w).1.saved ≡ w.saved)
redelivery_repeats lib event payload w {r} {locked} up stored found =
    let done = redelivered lib event payload w {r = r} {locked = locked} up stored found in
    (
      elim (Bool-cases (equal_json lib r.payload payload)) [
        | inl same ↦
            inl (equal_json-SameJson lib r.payload payload same, ground (arith, same, done))
        | inr other ↦ inr (
          (λ s. absurd (ground (arith, other, SameJson-equal_json lib r.payload payload s))),
          ground (arith, other, done),
        )
      ],
      done.1,
    )
