-- ===== src/Commerce/Order/Tests.antt =====
-- Runs of the orders of backend/internal/commerce on small tables.
use Prim.Native.String.{String}
use text.Mathlib.Text.{◌==◌ as str_eq}
use vps_billing_codex.Shared.{
  ℕ, ◌+◌, ◌*◌, ◌≤◌, ◌≡◌, ◌↔◌, ◌==◌, Bool, false, none, some, [], ◌∷◌, refl, ◌⊎◌,
}
use vps_billing_codex.Shared.Int.{pos}
use vps_billing_codex.Shared.Tx.{World, database, ok}
use vps_billing_codex.Store.{
  Database, empty_database, Plan, Product, Subscription, active, monthly, Order, OrderKind,
  OrderStatus, Payment, PaymentStatus,
}
use vps_billing_codex.Commerce.Base.{Library}
use vps_billing_codex.Commerce.Payment.{Webhook, complete_payment, is_external_taken}
use vps_billing_codex.Commerce.Order.{
  PlanRow, RenewalRow, plan_for_order, subscription_for_renewal, purchase_draft, max_int64,
  times_int64, total_overflows, create_order, create_renewal_order, place_purchase, place,
  insert_order, insert_order_item, once_per_key,
}
use vps_billing_codex.Commerce.Order.Total.{total_overflows_iff}
use vps_billing_codex.Commerce.Order.Create.{
  five_rows, pending_view, snapshot_of, bought_plan, renewed_plan, create_order_places,
  create_renewal_order_places,
}
use vps_billing_codex.Commerce.Order.Again.{Answered, create_order_again, create_order_races}
use vps_billing_codex.Commerce.Order.Atomic.{buy, renew, run_order, create_order_atomic}
use vps_billing_codex.Commerce.Order.Paid.{bought_then_paid}

abbrev plan : Plan
plan = record {
  id = 7;
  product_id = 5;
  node_group_id = some 3;
  slug = "small";
  name = "Small";
  status = "active";
  cpu_cores = 100;
  memory_mb = 1024;
  disk_gb = 20;
  traffic_gb = none;
  bandwidth_mbps = none;
  ipv4_count = 1;
  ipv6_count = 0;
  nat_port_count = 0;
  virtualization = "container";
  billing_cycle = monthly;
  price_minor = 500;
  currency = "USD";
  default_image_id = "ubuntu-24.04";
}

abbrev product : Product
product = record {
  id = 5;
  slug = "vps";
  name = "Server";
  description = "A server";
  status = "active";
}

abbrev subscribed : Subscription
subscribed = record {
  id = 10;
  user_id = 3;
  plan_id = 7;
  status = active;
  billing_cycle = monthly;
  price_minor = 450;
  currency = "USD";
  started_at = some 1;
  current_period_start = some 1;
  current_period_end = some 90;
  next_due_at = some 90;
  grace_until = none;
  cancel_at_period_end = false;
  ended_at = none;
  version = 1;
  source_order_id = none;
  source_item_index = none;
}

abbrev shop : Database
shop = record empty_database {
  products = product ∷ [];
  plans = plan ∷ [];
  subscriptions = subscribed ∷ [];
}

abbrev shop_world : Database → (ℕ → Bool) → World Database
shop_world db broken = record {
  store = db;
  saved = db;
  now = 100;
  next_id = 1000;
  calls = 0;
  broken = broken;
  locked = λ _. false;
}

abbrev opened : World Database
opened = shop_world shop (λ _. false)

abbrev alone : Database → Database
alone db = db

abbrev plan_row : PlanRow
plan_row = record { plan = plan; product = product }

abbrev renewal_row : RenewalRow
renewal_row = record { subscription = subscribed; plan = plan; product = product }

abbrev key : String
key = "order-key"

total_overflows_iff_example :
    (total_overflows 500 (pos 3) ≡ false)
    ↔ ((500 * 3 ≤ max_int64) × (times_int64 500 (pos 3) ≡ pos (500 * 3)))
total_overflows_iff_example = total_overflows_iff 500 3

create_order_places_example :
    let (r, w') = create_order alone 3 7 (pos 2) key opened in
    (r ≡ ok (pending_view 1000 OrderKind.purchase none (pos 1000) "USD"))
    × (w'.saved
        ≡ five_rows 1000 100 3 key OrderKind.purchase none
            (pos 2)
            500
            (pos 1000)
            "USD"
            (snapshot_of product)
            (bought_plan plan)
            shop)
unfolding plan_for_order total_overflows
create_order_places_example =
    create_order_places alone 3 7 1 key opened {row = plan_row} (λ _. refl) refl refl refl refl

create_renewal_order_places_example :
    let (r, w') = create_renewal_order alone 3 10 key opened in
    (r ≡ ok (pending_view 1000 OrderKind.renewal (some 10) (pos 450) "USD"))
    × (w'.saved
        ≡ five_rows 1000 100 3 key OrderKind.renewal
            (some 10)
            (pos 1)
            450
            (pos 450)
            "USD"
            (snapshot_of product)
            (renewed_plan plan subscribed)
            shop)
unfolding subscription_for_renewal
create_renewal_order_places_example =
    create_renewal_order_places alone 3 10 key opened {row = renewal_row} (λ _. refl) refl refl refl
      refl

abbrev old_order : Order
old_order = record {
  id = 40;
  user_id = 3;
  status = OrderStatus.pending;
  total_minor = pos 1000;
  currency = "USD";
  kind = OrderKind.purchase;
  subscription_id = none;
  idempotency_key = "order-key";
}

abbrev old_payment : Payment
old_payment = record {
  id = 42;
  order_id = 40;
  gateway = "fake";
  gateway_payment_id = none;
  status = PaymentStatus.pending;
  amount_minor = pos 1000;
  currency = "USD";
  gateway_payload = "{}";
}

-- Another session places the order.
abbrev racing : Database → Database
racing db = record db { orders = old_order ∷ []; payments = old_payment ∷ [] }

abbrev ordered : World Database
ordered = shop_world (racing shop) (λ _. false)

create_order_again_example :
    Answered OrderKind.renewal
      (some 10)
      old_order
      old_payment
      (run_order alone (renew 3 10 key) ordered).0
    × ((run_order alone (renew 3 10 key) ordered).1.saved ≡ racing shop)
create_order_again_example =
    create_order_again alone (renew 3 10 key) ordered {o = old_order} {p = old_payment} (λ _. refl)
      refl refl

create_order_races_example :
    Answered OrderKind.purchase none old_order old_payment
      (run_order racing (buy 3 7 (pos 2) key) opened).0
    × ((run_order racing (buy 3 7 (pos 2) key) opened).1.saved ≡ racing shop)
unfolding plan_for_order total_overflows
create_order_races_example =
    create_order_races racing (buy 3 7 (pos 2) key) opened {o = old_order} {p = old_payment}
      (λ _. refl) refl refl refl (plan_row, refl, refl)

-- The fifth statement fails, after the row of the order.
abbrev failing : World Database
failing = shop_world shop (λ n. n == 4)

create_order_atomic_example :
    ((run_order alone (buy 3 7 (pos 2) key) failing).1.saved ≡ shop)
    ⊎ ((run_order alone (buy 3 7 (pos 2) key) failing).1.saved ≡ shop)
unfolding create_order once_per_key place_purchase place plan_for_order total_overflows insert_order
    insert_order_item purchase_draft times_int64
create_order_atomic_example =
    create_order_atomic alone (buy 3 7 (pos 2) key) failing {e = database} refl

abbrev plain : Library
plain = record {
  to_upper = λ s. s;
  Json = String;
  decode = λ s. some (s, "");
  at_end = λ s. str_eq s "";
  marshal = λ s. s;
  add_cycle = λ _ t. t + 30;
}

abbrev webhook : Webhook
webhook = record {
  event_id = "evt";
  payment_id = 1002;
  external_payment_id = "ext";
  amount_minor = pos 1000;
  currency = "USD";
}

bought_then_paid_example :
    (complete_payment plain webhook "{}" (create_order alone 3 7 (pos 2) key opened).1).0
    ≡ ok (record { payment_id = 1002; order_id = 1000; duplicate = false })
unfolding plan_for_order total_overflows is_external_taken
bought_then_paid_example =
    bought_then_paid plain alone 3 7 1 key webhook "{}" opened {row = plan_row} (λ _. refl) refl
      refl refl refl (record { payment = refl; order = refl; invoice = refl; posted = refl }) refl
      refl refl refl refl
