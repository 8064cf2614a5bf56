-- ===== src/Provision.antt =====
-- Repository of backend/internal/provision/repository.go and process of trigger.go: a paid order gets
-- its subscriptions, instances and provisioning operations, and a provisioned instance is activated.
-- The statements are in Provision.Statements.
mod Statements
pub mod Frame
pub mod Covered
pub mod Items
pub mod Ensure
pub mod Atomic
pub mod Finalize
pub mod Fulfilled
pub mod Workflow
pub mod Returned
pub mod Active
pub mod Activates
pub mod Tests
pub mod RunTests
unfoldable pub use Statements.*
use Prim.Native.String.{String, slice, ◌++◌ as append}
use vps_billing_codex.Shared.{
  is_some, ◌&◌, ℕ, zero, suc, ◌+◌, Bool, true, false, not, Option, none, some, List, [], ◌∷◌, ◌++◌,
  if◌then◌else◌,
}
use vps_billing_codex.Shared.Int.{ℤ, pos, pos_part}
use vps_billing_codex.Shared.Table.{get}
use vps_billing_codex.Shared.Tx.{
  World, Result, ok, err, database, no_rows, unique_violation, refused, M, ◌>>=◌, ◌>>◌, pure, fail,
  fail_if, or_fail, select, change, change_row, execute, clock, new_id, commit, transaction,
  for_each,
}
use vps_billing_codex.Store.{
  Database, Subscription, SubscriptionStatus, subscription_status_text, Instance, DesiredState,
  ObservedState, Operation, operation_status_text, Reservation, ReservationStatus, EventType,
  operation_queued, subscription_activated, instance_running, Payload, operation_data,
  activation_data, instance_data, OutboxStatus, OutboxEvent,
}
use vps_billing_codex.Operation.Create.{
  StepDefinition, CreateRequest, find_operation, operation_row, insert_operation, step_row,
  insert_step,
}
use vps_billing_codex.Infrastructure.{
  reservation_id_of, take_reserved, commit_reserved, set_reservation_status,
}

-- provisionSteps, with the order that the loop gives them
abbrev pub provision_steps : List StepDefinition
provision_steps =
    record { key = "validate_subscription"; order = pos 1 }
    ∷ record { key = "select_node"; order = pos 2 }
    ∷ record { key = "reserve_resources"; order = pos 3 }
    ∷ record { key = "create_instance"; order = pos 4 }
    ∷ record { key = "wait_provider"; order = pos 5 }
    ∷ record { key = "configure_network"; order = pos 6 }
    ∷ record { key = "verify_running"; order = pos 7 }
    ∷ record { key = "persist_network"; order = pos 8 }
    ∷ record { key = "commit_reservation"; order = pos 9 }
    ∷ record { key = "activate_subscription"; order = pos 10 }
    ∷ record { key = "notify"; order = pos 11 }
    ∷ []

abbrev pub domain_event : ℕ → ℕ → EventType → ℕ → Payload → OutboxEvent
domain_event id now event_type aggregate payload = record {
  id = id;
  event_type = event_type;
  aggregate_id = aggregate;
  occurred_at = now;
  payload = payload;
  status = OutboxStatus.pending;
  attempts = 0;
  next_attempt_at = now;
}

-- createDomainEvent, with CreateOutboxEvent
unfoldable pub create_domain_event : EventType → ℕ → Payload → Action (Unit {0})
create_domain_event event_type aggregate payload = do
  event_id ← new_id
  now ← clock
  execute (λ db. record db {
    outbox = db.outbox ++ domain_event event_id now event_type aggregate payload ∷ [];
  })

-- createOperationEvent
unfoldable pub create_operation_event : Operation → Action (Unit {0})
create_operation_event o = create_domain_event operation_queued o.id (
    operation_data o.id o.user_id (operation_status_text o.status) o.phase o.progress o.message_key
      o.retryable o.error_code o.trace_id false)

-- deterministicID
unfoldable pub deterministic_id : Names → String → ℕ → ℕ → ℕ
deterministic_id names kind order index =
    names.sha1 ("vps-billing:" & kind & ":" & names.uuid_text order & ":" & names.decimal index)

-- The idempotency key of the operation for one item of an order.
unfoldable pub provision_key : Names → ℕ → ℕ → String
provision_key names order index = "provision:" & names.uuid_text order & ":" & names.decimal index

abbrev pub purchase_subscription : Names → ℕ → Purchase → ℕ → Subscription
purchase_subscription names order p index = record {
  id = deterministic_id names "subscription" order index;
  user_id = p.user_id;
  plan_id = p.plan.id;
  status = SubscriptionStatus.pending;
  billing_cycle = p.plan.billing_cycle;
  price_minor = p.plan.price_minor;
  currency = p.plan.currency;
  started_at = none;
  current_period_start = none;
  current_period_end = none;
  next_due_at = none;
  grace_until = none;
  cancel_at_period_end = false;
  ended_at = none;
  version = 1;
  source_order_id = some order;
  source_item_index = some index;
}

abbrev pub pending_instance : Names → ℕ → Purchase → ℕ → ℕ → Instance
pending_instance names order p index subscription = record {
  id = deterministic_id names "instance" order index;
  subscription_id = subscription;
  node_id = none;
  provider_id = none;
  provider_instance_id = none;
  name = "vps-" & slice (names.uuid_text order) 0 8 & "-" & names.decimal index;
  desired_state = DesiredState.running;
  observed_state = ObservedState.pending;
  cpu_cores = p.plan.cpu_cores;
  memory_mb = p.plan.memory_mb;
  disk_gb = p.plan.disk_gb;
  traffic_limit_gb = p.plan.traffic_gb;
  bandwidth_mbps = p.plan.bandwidth_mbps;
  image_id = some p.plan.default_image_id;
  primary_ipv4 = none;
  primary_ipv6 = none;
  last_synced_at = none;
  version = 1;
  deleted_at = none;
}

abbrev pub provision_request : Names → ℕ → Purchase → String → ℕ → ℕ → CreateRequest
provision_request names order p trace index instance = record {
  kind = "provision";
  resource_type = "instance";
  resource_id = instance;
  idempotency_key = provision_key names order index;
  trace_id = trace;
  user_id = some p.user_id;
  actor_admin_id = none;
  max_retries = 5;
  steps = provision_steps;
}

unfoldable pub create_provision_step : Names → ℕ → ℕ → ℕ → StepDefinition → Action (Unit {0})
create_provision_step names order index operation d =
    change_row
      (insert_step (step_row (deterministic_id names ("step:" & d.key) order index) operation d))
      unique_violation

-- The steps of a new operation, and its event
unfoldable pub queue_steps : Names → ℕ → ℕ → Operation → Action (Unit {0})
queue_steps names order index row = do
  for_each (create_provision_step names order index row.id) provision_steps
  create_operation_event row

-- The operation of a new item.
unfoldable pub queue_provision : Names → ℕ → Purchase → String → ℕ → ℕ → Action (Unit {0})
queue_provision names order p trace index instance = do
  now ← clock
  inserted ← change (
      insert_operation (
        operation_row (deterministic_id names "operation" order index) now
          (provision_request names order p trace index instance)))
  row ← or_fail inserted unique_violation
  queue_steps names order index row

abbrev pub queue_unless :
    Names → ℕ → Purchase → String → ℕ → ℕ → Option Operation → Action (Unit {0})
queue_unless names order p trace index instance (some _) = pure tt
queue_unless names order p trace index instance none =
    queue_provision names order p trace index instance

-- The body of the loop of EnsureForPaidOrder after the subscription
unfoldable pub provision_instance :
    Names → ℕ → Purchase → String → ℕ → Subscription → Action (Unit {0})
provision_instance names order p trace index subscription = do
  instance ←
      change_row (create_pending_instance (pending_instance names order p index subscription.id))
        unique_violation
  found ← select (λ db. find_operation (provision_key names order index) db.operations)
  queue_unless names order p trace index instance.id found

-- The body of the loop of EnsureForPaidOrder.
unfoldable pub provision_item : Names → ℕ → Purchase → String → ℕ → Action (Unit {0})
provision_item names order p trace index = do
  subscription ←
      change_row
        (create_purchase_subscription order index (purchase_subscription names order p index))
        unique_violation
  provision_instance names order p trace index subscription

-- The loop, by the rounds that are left.
unfoldable pub provision_items : Names → ℕ → Purchase → String → ℕ → ℕ → Action (Unit {0})
provision_items names order p trace zero index = pure tt
provision_items names order p trace (suc rounds) index =
    provision_item names order p trace index
    >> provision_items names order p trace rounds (index + 1)

-- EnsureForPaidOrder from the loop on.
unfoldable pub provision_purchase : Names → ℕ → String → Purchase → Action ℤ
provision_purchase names order trace p = do
  fail_if (not (is_some p.plan.node_group_id)) (refused placement_missing)
  provision_items names order p trace (pos_part p.quantity) 1
  execute (mark_order_fulfilling order)
  commit
  pure p.quantity

-- EnsureForPaidOrder
unfoldable pub ensure_for_paid_order : Names → ℕ → String → Action ℤ
ensure_for_paid_order names order trace = transaction (do
  found ← select (paid_purchase order)
  p ← or_fail found (refused purchase_not_ready)
  provision_purchase names order trace p)
