-- ===== src/Provision/Tests.antt =====
-- Runs of EnsureForPaidOrder and Finalize of backend/internal/provision/repository.go for an order of
-- two servers.
use Prim.Native.String.{String, len}
use vps_billing_codex.Shared.{
  ℕ, zero, suc, ◌+◌, ◌≡◌, ◌==◌, true, false, none, some, [], ◌∷◌, refl, arith, inl, inr, Bool-cases,
}
use vps_billing_codex.Shared.Int.{pos}
use vps_billing_codex.Shared.Tx.{World, ok, err, database, for_each}
use vps_billing_codex.Store.{
  Database, empty_database, Plan, monthly, Order, OrderStatus, OrderKind, OrderItem, Subscription,
  Instance, Reservation, Node, online,
}
use vps_billing_codex.Provision.{
  Names, ensure_for_paid_order, provision_purchase, provision_items, provision_item,
  provision_instance, queue_provision, queue_steps, create_provision_step, create_operation_event,
  create_domain_event, create_purchase_subscription, create_pending_instance, mark_order_fulfilling,
  paid_purchase, deterministic_id, provision_key, purchase_subscription, pending_instance,
  Placement, activate_subscription, activated, mark_fulfilled_if_ready, create_notification,
}
use vps_billing_codex.Infrastructure.{new_reservation, take_reserved, set_reservation_status}
use vps_billing_codex.Operation.Create.{insert_operation, insert_step}
use vps_billing_codex.Provision.Covered.{AreCovered}
use vps_billing_codex.Provision.Ensure.{ensure_covers, ensure_twice}
use vps_billing_codex.Provision.Atomic.{ensure_atomic}
use vps_billing_codex.Provision.Finalize.{Context, finalize, settle_reserved, activate}
use vps_billing_codex.Provision.Fulfilled.{FulfilledAreActive, finalize_keeps_fulfilled}

abbrev digits : ℕ → String
digits zero = "0"
digits (suc zero) = "1"
digits (suc (suc n)) = "22"

abbrev pub short_names : Names
short_names = record {
  sha1 = λ s. len s;
  uuid_text = λ n. "00000000-order";
  decimal = digits;
  is_address = λ s. true;
  months_after = λ months t. t + months;
}

abbrev pub plan : Plan
plan = record {
  id = 7;
  product_id = 5;
  node_group_id = some 3;
  slug = "small";
  name = "Small";
  status = "active";
  cpu_cores = 100;
  memory_mb = 1024;
  disk_gb = 20;
  traffic_gb = none;
  bandwidth_mbps = none;
  ipv4_count = 1;
  ipv6_count = 0;
  nat_port_count = 0;
  virtualization = "kvm";
  billing_cycle = monthly;
  price_minor = 500;
  currency = "USD";
  default_image_id = "ubuntu-24.04";
}

abbrev paid_order : Order
paid_order = record {
  id = 40;
  user_id = 2;
  status = OrderStatus.paid;
  total_minor = pos 1000;
  currency = "USD";
  kind = OrderKind.purchase;
  subscription_id = none;
  idempotency_key = "key-order";
}

abbrev two_servers : OrderItem
two_servers = record {
  id = 41;
  order_id = 40;
  product_id = 5;
  plan_id = 7;
  quantity = pos 2;
  unit_price_minor = 500;
  total_minor = pos 1000;
  product_snapshot = record { id = 5; slug = "vps"; name = "VPS"; description = "" };
  plan_snapshot = record {
    id = 7;
    slug = "small";
    name = "Small";
    sizes = none;
    billing_cycle = monthly;
    price_minor = 500;
    currency = "USD";
  };
}

abbrev pub bought : Database
bought = record empty_database {
  plans = plan ∷ [];
  orders = paid_order ∷ [];
  order_items = two_servers ∷ [];
}

abbrev pub world : Database → World Database
world db = record {
  store = db;
  saved = db;
  now = 100;
  next_id = 1000;
  calls = 0;
  broken = λ _. false;
  locked = λ _. false;
}

-- The driver fails at the second server.
abbrev broken_world : World Database
broken_world = record (world bought) { broken = λ n. n == 20 }

ensure_succeeds : (ensure_for_paid_order short_names 40 "payment:1" (world bought)).0 ≡ ok (pos 2)
unfolding ensure_for_paid_order provision_purchase provision_items provision_item provision_instance
    queue_provision queue_steps create_provision_step create_operation_event create_domain_event
    create_purchase_subscription create_pending_instance mark_order_fulfilling paid_purchase
    deterministic_id provision_key insert_operation insert_step for_each
ensure_succeeds = refl

ensure_fails : (ensure_for_paid_order short_names 40 "payment:1" broken_world).0 ≡ err database
unfolding ensure_for_paid_order provision_purchase provision_items provision_item provision_instance
    queue_provision queue_steps create_provision_step create_operation_event create_domain_event
    create_purchase_subscription create_pending_instance mark_order_fulfilling paid_purchase
    deterministic_id provision_key insert_operation insert_step for_each
ensure_fails = refl

ensure_covers_example :
    AreCovered short_names 40 2 1
      (ensure_for_paid_order short_names 40 "payment:1" (world bought)).1.saved
ensure_covers_example =
    ensure_covers short_names 40 "payment:1" (world bought) {q = pos 2} ensure_succeeds

ensure_twice_example :
    let w' = (ensure_for_paid_order short_names 40 "payment:1" (world bought)).1 in
    ((ensure_for_paid_order short_names 40 "payment:2" (world w'.saved)).0 ≡ ok (pos 2))
    × ((ensure_for_paid_order short_names 40 "payment:2" (world w'.saved)).1.saved ≡ w'.saved)
ensure_twice_example =
    ensure_twice short_names 40 "payment:1" "payment:2" (world bought)
      (world (ensure_for_paid_order short_names 40 "payment:1" (world bought)).1.saved) {q = pos 2}
      ensure_succeeds refl (λ _. refl)

ensure_atomic_example :
    (ensure_for_paid_order short_names 40 "payment:1" broken_world).1.saved ≡ bought
ensure_atomic_example =
    ensure_atomic short_names 40 "payment:1" broken_world {e = database} ensure_fails

abbrev pub pending : Subscription
pending =
    purchase_subscription short_names 40 (record { user_id = 2; quantity = pos 1; plan = plan }) 1

abbrev pub server : Instance
server =
    pending_instance short_names 40 (record { user_id = 2; quantity = pos 1; plan = plan }) 1
      pending.id

abbrev held : Reservation
held = new_reservation 8 1 30 (λ _. 1) 500

abbrev pub node : Node
node = record {
  id = 1;
  provider_id = 2;
  node_group_id = some 3;
  status = online;
  total = λ _. 10;
  allocated = λ _. 4;
  reserved = λ _. 1;
  weight = pos 1;
  capabilities = "{}";
  version = 1;
  provider_node_id = none;
}

abbrev pub provisioned : Database
provisioned = record bought {
  orders = record paid_order { status = OrderStatus.fulfilling } ∷ [];
  subscriptions = pending ∷ [];
  instances = server ∷ [];
  nodes = node ∷ [];
  reservations = held ∷ [];
}

abbrev pub current : Context
current = record {
  row = record { operation_id = 30; instance = server; subscription = pending; plan = plan };
  source_order_id = 40;
  node_group_id = 3;
}

abbrev pub placed : Placement
placed = record { reservation_id = 8; node_id = 1; provider_id = 2; provider_node_id = "node" }

-- The order of the one server is fulfilled.
finalize_fulfils :
    (finalize short_names current placed (world provisioned)).1.saved.orders
    ≡ record paid_order { status = OrderStatus.fulfilled } ∷ []
unfolding finalize settle_reserved activate take_reserved set_reservation_status
    activate_subscription activated mark_fulfilled_if_ready create_notification create_domain_event
    deterministic_id
finalize_fulfils = refl

provisioned-FulfilledAreActive : FulfilledAreActive provisioned
provisioned-FulfilledAreActive k o found done = elim (Bool-cases (40 == k)) [
  | inl same ↦ absurd (ground (arith, same, found, done))
  | inr other ↦ absurd (ground (arith, other, found))
]

finalize_keeps_fulfilled_example :
    FulfilledAreActive (finalize short_names current placed (world provisioned)).1.saved
finalize_keeps_fulfilled_example =
    finalize_keeps_fulfilled short_names current placed (world provisioned) refl
      provisioned-FulfilledAreActive
