-- ===== src/Provision/Statements.antt =====
-- The rows and statements of backend/internal/provision: its errors, and the queries of
-- backend/internal/store/sqlc/provision.sql.go.
use Prim.Native.String.{String}
use text.Mathlib.Text.{◌==◌ as str_eq}
use vps_billing_codex.Shared.{
  is_some, ℕ, ◌+◌, Bool, true, false, not, ◌&&◌, ◌||◌, Option, none, some, List, [], ◌∷◌, ◌++◌,
  ◌==◌, if◌then◌else◌, equal_pointer,
}
use vps_billing_codex.Shared.Int.{ℤ}
use vps_billing_codex.Shared.Table.{get, modify, update_one}
use vps_billing_codex.Shared.Tx.{M}
use vps_billing_codex.Store.{
  Database, Plan, Subscription, SubscriptionStatus, Order, OrderStatus, OrderKind, OrderItem,
  BillingCycle, monthly, quarterly, yearly, Instance, ObservedState, Node, Notification,
  Reservation, Operation,
}

-- ErrPurchaseNotReady, ErrPlacementMissing, the errors on a reservation that is neither reserved
-- nor committed and on an event that is no JSON or has no order.
pub data ProvisionError : Type 0 where
  purchase_not_ready placement_missing reservation_closed malformed_event no_order : ProvisionError

abbrev pub Action : Type 0 → Type 0
Action = M Database ProvisionError

-- Code that is not the repository's: uuid.NewSHA1 in the namespace of URLs, uuid.String, the
-- decimals of fmt, netip.ParseAddr as a test, and PostgreSQL's intervals.
pub record Names : Type 0 where
  pub sha1 : String → ℕ
  pub uuid_text : ℕ → String
  pub decimal : ℕ → String
  pub is_address : String → Bool
  pub months_after : ℕ → ℕ → ℕ

abbrev pub operation_id_of : Operation → ℕ
operation_id_of o = o.id

abbrev pub node_id_of : Node → ℕ
node_id_of n = n.id

abbrev pub reservation_operation : Reservation → ℕ
reservation_operation r = r.operation_id

abbrev pub plan_id_of : Plan → ℕ
plan_id_of p = p.id

abbrev pub order_id_of : Order → ℕ
order_id_of o = o.id

abbrev pub subscription_id_of : Subscription → ℕ
subscription_id_of s = s.id

abbrev pub instance_id_of : Instance → ℕ
instance_id_of i = i.id

abbrev pub notification_id_of : Notification → ℕ
notification_id_of n = n.id

-- GetPaidPurchaseForProvisionRow, with the columns that are read.
pub record Purchase : Type 0 where
  pub user_id : ℕ
  pub quantity : ℤ
  pub plan : Plan

abbrev is_purchase : OrderKind → Bool
is_purchase OrderKind.purchase = true
is_purchase _ = false

-- status IN ('paid', 'fulfilling', 'fulfilled')
abbrev pub is_provisionable : OrderStatus → Bool
is_provisionable OrderStatus.paid = true
is_provisionable OrderStatus.fulfilling = true
is_provisionable OrderStatus.fulfilled = true
is_provisionable _ = false

-- The first row of the join of order_items and plans.
abbrev pub first_item : ℕ → ℕ → List Plan → List OrderItem → Option Purchase
first_item user order plans [] = none
first_item user order plans (i ∷ items) =
    let rest = first_item user order plans items in
    if i.order_id == order
    then elim (get plan_id_of i.plan_id plans) [
      | none ↦ rest
      | some p ↦ some (record { user_id = user; quantity = i.quantity; plan = p })
    ]
    else rest

-- GetPaidPurchaseForProvision
unfoldable pub paid_purchase : ℕ → Database → Option Purchase
paid_purchase order db = elim (get order_id_of order db.orders) [
  | none ↦ none
  | some o ↦
      if is_purchase o.kind && is_provisionable o.status
      then first_item o.user_id order db.plans db.order_items
      else none
]

abbrev pub find_source : ℕ → ℕ → List Subscription → Option Subscription
find_source order index [] = none
find_source order index (s ∷ ss) =
    if equal_pointer s.source_order_id (some order)
      && equal_pointer s.source_item_index (some index)
    then some s
    else find_source order index ss

-- CreatePurchaseSubscription. The row that the conflict on (source_order_id, source_item_index) meets
-- gets the order that it has; `none` is a violation of the primary key.
unfoldable pub create_purchase_subscription :
    ℕ → ℕ → Subscription → Database → Option (Subscription × Database)
create_purchase_subscription order index row db = elim (find_source order index db.subscriptions) [
  | some s ↦ some (s, db)
  | none ↦ elim (get subscription_id_of row.id db.subscriptions) [
    | some _ ↦ none
    | none ↦ some (row, record db { subscriptions = db.subscriptions ++ row ∷ [] })
  ]
]

abbrev pub instance_subscription : Instance → ℕ
instance_subscription i = i.subscription_id

-- CreatePendingInstance, over the unique subscription_id, in the same way
unfoldable pub create_pending_instance : Instance → Database → Option (Instance × Database)
create_pending_instance row db = elim (get instance_subscription row.subscription_id db.instances) [
  | some i ↦ some (i, db)
  | none ↦ elim (get instance_id_of row.id db.instances) [
    | some _ ↦ none
    | none ↦ some (row, record db { instances = db.instances ++ row ∷ [] })
  ]
]

-- MarkOrderFulfilling
abbrev pub fulfilling_if_paid : Order → Order
fulfilling_if_paid o = record o {
  status = elim o.status [ OrderStatus.paid ↦ OrderStatus.fulfilling | s ↦ s ];
}

unfoldable pub mark_order_fulfilling : ℕ → Database → Database
mark_order_fulfilling id db = record db {
  orders = modify order_id_of id fulfilling_if_paid db.orders;
}

abbrev pub is_active : SubscriptionStatus → Bool
is_active SubscriptionStatus.active = true
is_active _ = false

-- No subscription of the order is other than active.
abbrev pub all_active : ℕ → List Subscription → Bool
all_active order [] = true
all_active order (s ∷ ss) =
    (not (equal_pointer s.source_order_id (some order)) || is_active s.status)
    && all_active order ss

abbrev pub fulfilled_order : Order → Order
fulfilled_order o =
    if is_provisionable o.status then record o { status = OrderStatus.fulfilled } else o

-- MarkPurchaseOrderFulfilledIfReady
unfoldable pub mark_fulfilled_if_ready : ℕ → Database → Database
mark_fulfilled_if_ready order db =
    if all_active order db.subscriptions
    then record db { orders = modify order_id_of order fulfilled_order db.orders }
    else db

abbrev pub coalesce {ℓ} : {A : Type ℓ} → Option A → A → Option A
coalesce (some a) _ = some a
coalesce none b = some b

abbrev pub cycle_months : BillingCycle → ℕ
cycle_months monthly = 1
cycle_months quarterly = 3
cycle_months yearly = 12

abbrev pub is_pending : SubscriptionStatus → Bool
is_pending SubscriptionStatus.pending = true
is_pending _ = false

-- ActivateProvisionedSubscription
unfoldable pub activated : Names → ℕ → Subscription → Subscription
activated names started s =
    let end = names.months_after (cycle_months s.billing_cycle) started in
    record s {
      status = SubscriptionStatus.active;
      started_at = coalesce s.started_at started;
      current_period_start = coalesce s.current_period_start started;
      current_period_end = coalesce s.current_period_end end;
      next_due_at = coalesce s.next_due_at end;
      version = if is_pending s.status then s.version + 1 else s.version;
    }

unfoldable pub activate_subscription : Names → ℕ → ℕ → Database → Option (Subscription × Database)
activate_subscription names id started db =
    elim (update_one subscription_id_of id (λ s. is_pending s.status || is_active s.status)
      (activated names started) db.subscriptions) [
        | none ↦ none
        | some p ↦ some (p.0, record db { subscriptions = p.1 })
      ]

-- CreateProvisionNotification ... ON CONFLICT DO NOTHING
unfoldable pub create_notification : Notification → Database → Database
create_notification n db = elim (get notification_id_of n.id db.notifications) [
  | some _ ↦ db
  | none ↦ record db { notifications = db.notifications ++ n ∷ [] }
]

-- UPDATE instances SET f WHERE id = $1 AND guard
abbrev pub update_instance : ℕ → (Instance → Bool) → (Instance → Instance) → Database → Database
update_instance id guard f db = record db {
  instances = modify instance_id_of id (λ i. if guard i then f i else i) db.instances;
}

-- observed_state IN ('pending', 'provisioning', 'unknown', 'error')
abbrev pub can_be_placed : ObservedState → Bool
can_be_placed ObservedState.pending = true
can_be_placed ObservedState.provisioning = true
can_be_placed ObservedState.unknown = true
can_be_placed ObservedState.error = true
can_be_placed _ = false

-- SetInstancePlacement
unfoldable pub set_instance_placement : ℕ → ℕ → ℕ → Database → Database
set_instance_placement id node provider =
    update_instance id (λ i. can_be_placed i.observed_state)
      (λ i. record i {
        node_id = some node;
        provider_id = some provider;
        observed_state = ObservedState.provisioning;
        version = i.version + 1;
      })

abbrev pub has_name : Option String → Option String → Bool
has_name (some a) (some b) = str_eq a b
has_name _ _ = false

-- ux_instance_provider_id: another instance of the provider has that id.
abbrev pub is_name_taken : ℕ → Option ℕ → Option String → List Instance → Bool
is_name_taken id provider external [] = false
is_name_taken id provider external (i ∷ is) =
    not (i.id == id)
      && (is_some provider
          && (equal_pointer i.provider_id provider && has_name i.provider_instance_id external))
    || is_name_taken id provider external is

-- SetInstanceProviderResult; `none` is a violation of ux_instance_provider_id.
abbrev pub provider_result :
    Option String → ObservedState → Option String → Option String → ℕ → Instance → Instance
provider_result external state ipv4 ipv6 now i = record i {
  provider_instance_id = external;
  observed_state = state;
  primary_ipv4 = ipv4;
  primary_ipv6 = ipv6;
  last_synced_at = some now;
  version = i.version + 1;
}

unfoldable pub set_provider_result :
    ℕ
    → Option String
    → ObservedState
    → Option String
    → Option String
    → ℕ
    → Database
    → Option (Unit {0} × Database)
set_provider_result id external state ipv4 ipv6 now db =
    let after = update_instance id (λ _. true) (provider_result external state ipv4 ipv6 now) db in
    elim (get instance_id_of id db.instances) [
      | none ↦ some (tt, db)
      | some i ↦
          if is_name_taken id i.provider_id external db.instances then none else some (tt, after)
    ]

-- GetProvisionContextRow, with the columns that are read
pub record ContextRow : Type 0 where
  pub operation_id : ℕ
  pub instance : Instance
  pub subscription : Subscription
  pub plan : Plan

-- GetProvisionContext
unfoldable pub provision_context : ℕ → Database → Option ContextRow
provision_context id db = elim (get operation_id_of id db.operations) [
  | none ↦ none
  | some o ↦
      if str_eq o.resource_type "instance"
      then elim (get instance_id_of o.resource_id db.instances) [
        | none ↦ none
        | some i ↦ elim (get subscription_id_of i.subscription_id db.subscriptions) [
          | none ↦ none
          | some s ↦ elim (get plan_id_of s.plan_id db.plans) [
            | none ↦ none
            | some p ↦ some (record { operation_id = id; instance = i; subscription = s; plan = p })
          ]
        ]
      ]
      else none
]

pub record Placement : Type 0 where
  pub reservation_id : ℕ
  pub node_id : ℕ
  pub provider_id : ℕ
  pub provider_node_id : String

-- GetProvisionPlacement, with Placement's fields
unfoldable pub provision_placement : Names → ℕ → Database → Option Placement
provision_placement names operation db =
    elim (get reservation_operation operation db.reservations) [
      | none ↦ none
      | some r ↦ elim (get node_id_of r.node_id db.nodes) [
        | none ↦ none
        | some n ↦ some (record {
          reservation_id = r.id;
          node_id = n.id;
          provider_id = n.provider_id;
          provider_node_id = elim n.provider_node_id [
            | none ↦ names.uuid_text n.id
            | some name ↦ name
          ];
        })
      ]
    ]

abbrev pub is_running : ObservedState → Bool
is_running ObservedState.running = true
is_running _ = false

-- SetInstanceProvisionError
unfoldable pub set_provision_error : ℕ → Database → Database
set_provision_error id =
    update_instance id (λ i. not (is_running i.observed_state))
      (λ i. record i { observed_state = ObservedState.error; version = i.version + 1 })
