-- ===== src/Commerce/Payment/Books.antt =====
-- The ledger under CompletePayment of backend/internal/commerce/repository.go.
use Prim.Native.String.{String}
use vps_billing_codex.Shared.{
  ℕ, ◌+◌, ◌≡◌, ◌==◌, false, Option, none, some, arith, refl, List, [], ◌∷◌, ◌++◌, where_,
  Bool-cases, Option-cases, inl, inr, sym, ap, ◌∙◌,
}
use mathlib.Core.Path.{subst}
use mathlib.Core.List.{append_assoc}
use vps_billing_codex.Shared.Int.{ℤ}
use vps_billing_codex.Shared.Table.{modify}
use vps_billing_codex.Shared.Tx.{World, ok, for_each, Result-cases}
use vps_billing_codex.Store.{
  Database, Subscription, EventType, Payload, payment_data, payment_succeeded, LedgerEntry, debit,
  credit,
}
use vps_billing_codex.Commerce.Base.{Library}
use vps_billing_codex.Commerce.Ledger.Balanced.{side, is_debit, is_credit}
use vps_billing_codex.Commerce.Payment.Statements.{
  Webhook, Locked, insert_webhook_receipt, mark_order_paid, mark_invoice_paid, PaymentResult,
  lock_payment_order_invoice, pay_id, captured,
}
use vps_billing_codex.Commerce.Payment.Atomic.{offered, complete_payment_atomic}
use vps_billing_codex.Commerce.Payment.{
  is_succeeded, capture_entries, publish, renew_invoiced, post_capture, publish_renewal,
  post_and_commit, capture, first_delivery, redelivery, by_receipt, complete_payment,
}

-- In every transaction of the ledger, debits and credits agree in every currency.
abbrev pub IsBalanced : List LedgerEntry → Type 0
IsBalanced es =
    (t : ℕ) (c : String)
    → side is_debit c (where_ (λ e. e.transaction_id == t) es)
      ≡ side is_credit c (where_ (λ e. e.transaction_id == t) es)

side_where-append :
    (d : _) (c : String) (t : ℕ) (xs ys : List LedgerEntry)
    → side d c (where_ (λ e. e.transaction_id == t) (xs ++ ys))
      ≡ side d c (where_ (λ e. e.transaction_id == t) xs)
        + side d c (where_ (λ e. e.transaction_id == t) ys)
side_where-append d c t [] ys = omega arith
side_where-append d c t (x ∷ xs) ys = ground (arith, side_where-append d c t xs ys)

capture_entries-IsBalanced :
    (i j k : ℕ) (locked : Locked) (amount : ℤ) → IsBalanced (capture_entries i j k locked amount)
capture_entries-IsBalanced i j k locked amount t c = ground arith

publish-entries :
    (t : EventType) (a : ℕ) (p : Payload) (w : World Database)
    → (publish t a p w).1.store.ledger_entries ≡ w.store.ledger_entries
unfolding publish
publish-entries t a p w = ground arith

publish_renewal-entries :
    (p : ℕ) (s : Option Subscription) (w : World Database)
    → (publish_renewal p s w).1.store.ledger_entries ≡ w.store.ledger_entries
unfolding publish_renewal
publish_renewal-entries p none w = refl
publish_renewal-entries p (some s) w = ground arith

renew_invoiced-entries :
    (lib : Library) (o : Option ℕ) (w : World Database)
    → (renew_invoiced lib o w).1.store.ledger_entries ≡ w.store.ledger_entries
unfolding renew_invoiced
renew_invoiced-entries lib none w = refl
renew_invoiced-entries lib (some id) w = ground arith

pub append_two :
    (es : List LedgerEntry) (a b : LedgerEntry) → (es ++ a ∷ []) ++ b ∷ [] ≡ es ++ a ∷ b ∷ []
append_two es a b = append_assoc es (a ∷ []) (b ∷ [])

abbrev pub first_entry : ℕ → Locked → ℤ → LedgerEntry
first_entry n locked amount = record {
  id = n + 1;
  transaction_id = n;
  account_type = "gateway_cash";
  account_id = locked.payment.id;
  direction = debit;
  amount_minor = amount;
  currency = locked.payment.currency;
}

abbrev pub second_entry : ℕ → Locked → ℤ → LedgerEntry
second_entry n locked amount = record {
  id = n + 1 + 1;
  transaction_id = n;
  account_type = "accounts_receivable";
  account_id = locked.invoice.id;
  direction = credit;
  amount_minor = amount;
  currency = locked.payment.currency;
}

-- A successful ledger block adds the two entries of the capture and no other.
post_capture-entries :
    (locked : Locked) (amount : ℤ) (w : World Database)
    → (post_capture locked amount w).0 ≡ ok tt
    → (post_capture locked amount w).1.store.ledger_entries
      ≡ w.store.ledger_entries
        ++ capture_entries (w.next_id + 1) (w.next_id + 1 + 1) w.next_id locked amount
unfolding post_capture for_each
post_capture-entries locked amount w done = ground (
  arith,
  append_two w.store.ledger_entries (first_entry w.next_id locked amount)
      (second_entry w.next_id locked amount),
)

-- What a step may do to the ledger: nothing, or add the two entries of a capture.
pub data Posts (before after : List LedgerEntry) : Type 0 where
  nothing : after ≡ before → Posts before after
  one_capture :
      (i j k : ℕ) (locked : Locked) (amount : ℤ)
      → after ≡ before ++ capture_entries i j k locked amount
      → Posts before after

post_and_commit-entries :
    (event : Webhook) (id : ℕ) (locked : Locked) (row : Option Subscription) (w : World Database)
    {r : PaymentResult}
    → (post_and_commit event id locked row w).0 ≡ ok r
    → (post_and_commit event id locked row w).1.saved.ledger_entries
      ≡ w.store.ledger_entries
        ++ capture_entries (w.next_id + 1) (w.next_id + 1 + 1) w.next_id locked event.amount_minor
unfolding post_and_commit
post_and_commit-entries event id locked row w done =
    let posted = (post_capture locked event.amount_minor w).1 in
    let data_ =
      payment_data locked.payment.id locked.order.id locked.order.user_id event.amount_minor
        locked.payment.currency in
    let told = (publish payment_succeeded locked.payment.id data_ posted).1 in
    ground (
      arith,
      post_capture-entries locked event.amount_minor w,
      publish-entries payment_succeeded locked.payment.id data_ posted,
      publish_renewal-entries locked.payment.id row told,
    )

-- The world after the three marks.
abbrev pub marked : Webhook → String → Locked → World Database → World Database
marked event payload locked w = record w {
  store = mark_invoice_paid locked.invoice.id (
      mark_order_paid locked.order.id (record (w.store) {
        payments =
            modify pay_id locked.payment.id (captured event.external_payment_id payload)
              w.store.payments;
      }));
  calls = w.calls + 1 + 1 + 1;
}

capture-Posts :
    (lib : Library) (event : Webhook) (payload : String) (id : ℕ) (locked : Locked)
    (w : World Database) {r : PaymentResult}
    → (capture lib event payload id locked w).0 ≡ ok r
    → Posts w.store.ledger_entries (capture lib event payload id locked w).1.saved.ledger_entries
unfolding capture
capture-Posts lib event payload id locked w {r} done =
    let paid = marked event payload locked w in
    let row = renew_invoiced lib locked.invoice.subscription_id paid in
    let kept = renew_invoiced-entries lib locked.invoice.subscription_id paid in
    elim (Result-cases row.0) [
      | inl (e, refused) ↦ absurd (ground arith)
      | inr (s, renewed) ↦
          one_capture (row.1.next_id + 1) (row.1.next_id + 1 + 1) row.1.next_id locked
            event.amount_minor
            (ground (arith, post_and_commit-entries event id locked s row.1 {r = r}, kept))
    ]

-- A first delivery that succeeds on a payment still open is a capture.
first_delivery-capture :
    (lib : Library) (event : Webhook) (payload : String) (id : ℕ) (w : World Database)
    {r : PaymentResult} {locked : Locked}
    → lock_payment_order_invoice event.payment_id w.store ≡ some locked
    → is_succeeded locked.payment.status ≡ false
    → (first_delivery lib event payload id w).0 ≡ ok r
    → first_delivery lib event payload id w
      ≡ capture lib event payload id locked (record w { calls = w.calls + 1 })
unfolding first_delivery
first_delivery-capture lib event payload id w found open_ done = ground arith

first_delivery-Posts :
    (lib : Library) (event : Webhook) (payload : String) (id : ℕ) (w : World Database)
    {r : PaymentResult}
    → w.store.ledger_entries ≡ w.saved.ledger_entries
    → (first_delivery lib event payload id w).0 ≡ ok r
    → Posts w.store.ledger_entries (first_delivery lib event payload id w).1.saved.ledger_entries
unfolding first_delivery
first_delivery-Posts lib event payload id w {r} same done =
    elim (Option-cases (lock_payment_order_invoice event.payment_id w.store)) [
      | inl missing ↦ absurd (ground arith)
      | inr (locked, found) ↦ elim (Bool-cases (is_succeeded locked.payment.status)) [
        | inl paid ↦ nothing (ground arith)
        | inr open_ ↦
            let e = first_delivery-capture lib event payload id w {r = r} found open_ done in
            subst (λ p. Posts w.store.ledger_entries p.1.saved.ledger_entries) (sym e)
              (capture-Posts lib event payload id locked (record w { calls = w.calls + 1 }) {r = r}
                (sym (ap (λ p. p.0) e) ∙ done))
      ]
    ]

by_receipt-Posts :
    (lib : Library) (event : Webhook) (payload : String) (o : Option ℕ) (w : World Database)
    {r : PaymentResult}
    → w.store.ledger_entries ≡ w.saved.ledger_entries
    → (by_receipt lib event payload o w).0 ≡ ok r
    → Posts w.saved.ledger_entries (by_receipt lib event payload o w).1.saved.ledger_entries
unfolding first_delivery redelivery
by_receipt-Posts lib event payload none w same done = nothing (ground arith)
by_receipt-Posts lib event payload (some id) w same done =
    subst (λ es. Posts es (first_delivery lib event payload id w).1.saved.ledger_entries) same
      (first_delivery-Posts lib event payload id w same done)

insert-entries :
    (id : ℕ) (event payload : String) (db : Database)
    → (insert_webhook_receipt id event payload db).1.ledger_entries ≡ db.ledger_entries
unfolding insert_webhook_receipt
insert-entries id event payload db = ground arith

complete_payment-Posts :
    (lib : Library) (event : Webhook) (payload : String) (w : World Database)
    → w.store ≡ w.saved
    → Posts w.saved.ledger_entries (complete_payment lib event payload w).1.saved.ledger_entries
unfolding complete_payment
complete_payment-Posts lib event payload w settled =
    let step = offered event payload w in
    let (inserted, _) = insert_webhook_receipt w.next_id event.event_id payload w.store in
    elim (Result-cases (complete_payment lib event payload w).0) [
      | inl (e, failed) ↦ nothing (
          ap (λ (db : Database). db.ledger_entries)
            (complete_payment_atomic lib event payload w failed))
      | inr (r, done) ↦
          let e1 : (by_receipt lib event payload inserted step).0 ≡ ok r = ground arith in
          let e2 : (complete_payment lib event payload w).1.saved
              ≡ (by_receipt lib event payload inserted step).1.saved =
            ground arith in
          subst (λ (db : Database). Posts w.saved.ledger_entries db.ledger_entries) (sym e2)
            (by_receipt-Posts lib event payload inserted step {r = r}
              (insert-entries w.next_id event.event_id payload w.store
                ∙ ap (λ (db : Database). db.ledger_entries) settled)
              e1)
    ]

Posts-IsBalanced :
    {before after : List LedgerEntry} → Posts before after → IsBalanced before → IsBalanced after
Posts-IsBalanced (nothing e) h t c = rw e (h t c)
Posts-IsBalanced {before} (one_capture i j k locked amount e) h t c = rw e (
    omega (
      arith,
      h t c,
      capture_entries-IsBalanced i j k locked amount t c,
      side_where-append is_debit c t before (capture_entries i j k locked amount),
      side_where-append is_credit c t before (capture_entries i j k locked amount),
    ))

-- The books stay balanced: after any webhook, whatever it says and wherever it fails, the debits and
-- credits of every ledger transaction still agree in every currency.
pub complete_payment_books :
    (lib : Library) (event : Webhook) (payload : String) (w : World Database)
    → w.store ≡ w.saved
    → IsBalanced w.saved.ledger_entries
    → IsBalanced (complete_payment lib event payload w).1.saved.ledger_entries
complete_payment_books lib event payload w settled h =
    Posts-IsBalanced (complete_payment-Posts lib event payload w settled) h
