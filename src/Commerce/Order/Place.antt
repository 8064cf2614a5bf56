-- ===== src/Commerce/Order/Place.antt =====
-- The transaction of a new order in backend/internal/commerce/repository.go, from CreateOrder to the
-- commit, while the database answers.
use vps_billing_codex.Shared.{ℕ, ◌+◌, ◌≡◌, true, none, [], ◌∷◌, ◌++◌, arith}
use vps_billing_codex.Shared.Int.{pos, ltb_ℤ}
use vps_billing_codex.Shared.Tx.{World, ok, IsUp}
use vps_billing_codex.Store.{
  Database, OrderItem, Invoice, InvoiceItem, InvoiceStatus, Payment, PaymentStatus,
}
use vps_billing_codex.Commerce.Payment.{fake_gateway}
use vps_billing_codex.Commerce.Order.{
  Draft, OrderView, order_row, view, payment_window, bill, place, insert_order, insert_order_item,
  insert_invoice, insert_invoice_item, insert_payment, find_order,
}

-- The rows of an order whose first id is `n`.
abbrev pub item_row : ℕ → Draft → OrderItem
item_row n d = record {
  id = n + 1 + 1 + 1;
  order_id = n;
  product_id = d.product_snapshot.id;
  plan_id = d.plan_snapshot.id;
  quantity = d.quantity;
  unit_price_minor = d.unit_price_minor;
  total_minor = d.total_minor;
  product_snapshot = d.product_snapshot;
  plan_snapshot = d.plan_snapshot;
}

abbrev pub invoice_row : ℕ → ℕ → Draft → Invoice
invoice_row n now d = record {
  id = n + 1;
  user_id = d.user_id;
  subscription_id = d.subscription_id;
  order_id = n;
  status = InvoiceStatus.open_;
  amount_minor = d.total_minor;
  currency = d.currency;
  due_at = now + payment_window;
}

abbrev pub invoice_item_row : ℕ → Draft → InvoiceItem
invoice_item_row n d = record {
  id = n + 1 + 1 + 1 + 1;
  invoice_id = n + 1;
  description = d.plan_snapshot.name;
  quantity = d.quantity;
  unit_amount_minor = d.unit_price_minor;
  total_minor = d.total_minor;
}

abbrev pub payment_row : ℕ → Draft → Payment
payment_row n d = record {
  id = n + 1 + 1;
  order_id = n;
  gateway = fake_gateway;
  gateway_payment_id = none;
  status = PaymentStatus.pending;
  amount_minor = d.total_minor;
  currency = d.currency;
  gateway_payload = "{}";
}

abbrev pub with_order : ℕ → ℕ → Draft → Database → Database
with_order n now d db = record db {
  orders = db.orders ++ order_row n d ∷ [];
  order_items = db.order_items ++ item_row n d ∷ [];
  invoices = db.invoices ++ invoice_row n now d ∷ [];
  invoice_items = db.invoice_items ++ invoice_item_row n d ∷ [];
  payments = db.payments ++ payment_row n d ∷ [];
}

abbrev pub placed : Draft → World Database → World Database
placed d w =
    let db = with_order w.next_id w.now d w.store in
    record w {
      store = db;
      saved = db;
      next_id = w.next_id + 1 + 1 + 1 + 1 + 1;
      calls = w.calls + 1 + 1 + 1 + 1 + 1 + 1;
    }

abbrev pub placed_view : ℕ → Draft → OrderView
placed_view n d = view (order_row n d) (payment_row n d)

-- A draft whose key is new is placed.
pub place_lem :
    (d : Draft) (w : World Database)
    → IsUp w
    → find_order d.user_id d.idempotency_key w.store.orders ≡ none
    → ltb_ℤ (pos 0) d.quantity ≡ true
    → place d w ≡ (ok (placed_view w.next_id d), placed d w)
unfolding place bill insert_order insert_order_item insert_invoice insert_invoice_item
    insert_payment
place_lem d w up new some_ = ground (
  arith,
  up w.calls,
  up (w.calls + 1),
  up (w.calls + 1 + 1),
  up (w.calls + 1 + 1 + 1),
  up (w.calls + 1 + 1 + 1 + 1),
  up (w.calls + 1 + 1 + 1 + 1 + 1),
)
