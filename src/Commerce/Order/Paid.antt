-- ===== src/Commerce/Order/Paid.antt =====
-- An order and its payment: CreateOrder and then CompletePayment of
-- backend/internal/commerce/repository.go.
use Prim.Native.String.{String}
use package.text.Mathlib.Text.{◌==◌ as str_eq}
use vps_billing_codex.Shared.{
  ℕ, suc, ◌+◌, ◌*◌, ◌≡◌, true, false, some, none, List, [], ◌∷◌, ◌++◌, arith, refl, ap, ◌∙◌,
}
use vps_billing_codex.Shared.Int.{pos}
use vps_billing_codex.Shared.Table.{get, get-append}
use vps_billing_codex.Shared.Tx.{World, ok, IsUp}
use vps_billing_codex.Store.{Database, Payment}
use vps_billing_codex.Commerce.Base.{Library}
use vps_billing_codex.Commerce.Payment.{
  Webhook, Locked, pay_id, order_id_of, invoice_order, fake_gateway, find_receipt,
  lock_payment_order_invoice, is_external_taken, is_posted, complete_payment,
}
use vps_billing_codex.Commerce.Payment.Capture.{complete_payment_captures}
use vps_billing_codex.Commerce.Order.{
  Draft, PlanRow, find_order, plan_for_order, purchase_draft, total_overflows, create_order,
  order_row,
}
use vps_billing_codex.Commerce.Order.Total.{total_overflows_iff}
use vps_billing_codex.Commerce.Order.Place.{with_order, placed, payment_row, invoice_row}
use vps_billing_codex.Commerce.Order.Create.{create_order_run, entered}

-- Ids that newID gives next are not in use.
pub record IsFresh (n : ℕ) (db : Database) : Type 0 where
  pub payment : get pay_id (n + 1 + 1) db.payments ≡ none
  pub order : get order_id_of n db.orders ≡ none
  pub invoice : get invoice_order n db.invoices ≡ none
  pub posted : is_posted (n + 1 + 1) db.ledger_transactions ≡ false

abbrev pub placed_rows : ℕ → ℕ → Draft → Locked
placed_rows n now d = record {
  payment = payment_row n d;
  order = order_row n d;
  invoice = invoice_row n now d;
}

lock-with_order :
    (n now : ℕ) (d : Draft) (db : Database)
    → IsFresh n db
    → lock_payment_order_invoice (n + 1 + 1) (with_order n now d db) ≡ some (placed_rows n now d)
unfolding lock_payment_order_invoice
lock-with_order n now d db fresh = ground (
  arith,
  get-append pay_id (n + 1 + 1) db.payments (payment_row n d) fresh.payment refl,
  get-append order_id_of n db.orders (order_row n d) fresh.order refl,
  get-append invoice_order n db.invoices (invoice_row n now d) fresh.invoice refl,
)

is_external_taken-append :
    (id : ℕ) (external : String) (ps : List Payment) (n : ℕ) (d : Draft)
    → is_external_taken id external ps ≡ false
    → is_external_taken id external (ps ++ payment_row n d ∷ []) ≡ false
unfolding is_external_taken
is_external_taken-append id external [] n d h = ground arith
is_external_taken-append id external (p ∷ ps) n d h =
    ground (arith, is_external_taken-append id external ps n d)

-- An order that is placed can be paid. While the database answers, where a CreateOrder of a
-- positive quantity, with a key that is new, also for other sessions, a plan on sale, a total that
-- is an int64 and ids that are not in use, is followed by a webhook event that has no receipt,
-- with the order's payment, total and currency and an external id that no other payment has,
-- CompletePayment answers with the ids of that order and payment as no duplicate.
pub bought_then_paid :
    (lib : Library) (others : Database → Database) (user plan_id q : ℕ) (key : String)
    (event : Webhook) (payload : String) (w : World Database) {row : PlanRow}
    → IsUp w
    → find_order user key w.store.orders ≡ none
    → find_order user key (others w.saved).orders ≡ none
    → plan_for_order plan_id (others w.saved) ≡ some row
    → total_overflows row.plan.price_minor (pos (suc q)) ≡ false
    → IsFresh w.next_id (others w.saved)
    → event.payment_id ≡ w.next_id + 1 + 1
    → event.amount_minor ≡ pos (row.plan.price_minor * suc q)
    → str_eq row.plan.currency (lib.to_upper event.currency) ≡ true
    → find_receipt fake_gateway event.event_id (others w.saved).receipts ≡ none
    → is_external_taken (w.next_id + 1 + 1) event.external_payment_id (others w.saved).payments
      ≡ false
    → (complete_payment lib event payload
        (create_order others user plan_id (pos (suc q)) key w).1).0
      ≡ ok (record { payment_id = w.next_id + 1 + 1; order_id = w.next_id; duplicate = false })
unfolding purchase_draft
bought_then_paid lib others user plan_id q key event payload w {row} up new still_new found small
      fresh payment amount currency unseen own =
    let d = purchase_draft user key (pos (suc q)) row in
    let n = w.next_id in
    let after = placed d (entered others w) in
    let run =
      create_order_run others user plan_id q key w {row = row} up new still_new found small in
    let rows =
      ap (λ k. lock_payment_order_invoice k after.store) payment
      ∙ lock-with_order n w.now d (others w.saved) fresh in
    let paid =
      complete_payment_captures lib event payload after {locked = placed_rows n w.now d}
        (row.plan.price_minor * suc q) up unseen rows amount
        (((total_overflows_iff row.plan.price_minor (suc q)).0 small).1) currency refl
        (is_external_taken-append (n + 1 + 1) event.external_payment_id (others w.saved).payments n
          d own)
        fresh.posted refl in
    ap (λ p. (complete_payment lib event payload p.1).0) run ∙ paid.0
