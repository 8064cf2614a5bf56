-- ===== src/Provision/Finalize.antt =====
-- Context, Placement, SetPlacement, SetProviderResult, SetError and Finalize of
-- backend/internal/provision/repository.go, and process of backend/internal/provision/trigger.go.
use Prim.Native.String.{String}
use text.Mathlib.Text.{◌==◌ as str_eq}
use vps_billing_codex.Shared.{
  ◌&◌, ℕ, Bool, true, false, Option, none, some, List, [], ◌∷◌, ◌==◌, if◌then◌else◌,
}
use vps_billing_codex.Shared.Int.{ℤ}
use vps_billing_codex.Shared.Table.{get}
use vps_billing_codex.Shared.Tx.{
  World, Result, ok, err, database, no_rows, unique_violation, refused, ◌>>=◌, ◌>>◌, pure, fail,
  fail_if, or_fail, select, change_row, execute, clock, commit, transaction, outside, outside_row,
}
use vps_billing_codex.Store.{
  Database, subscription_status_text, ObservedState, Reservation, ReservationStatus, Notification,
  subscription_activated, instance_running, activation_data, instance_data,
}
use vps_billing_codex.Operation.{text_}
use vps_billing_codex.Infrastructure.{
  reservation_id_of, take_reserved, commit_reserved, set_reservation_status,
}
use vps_billing_codex.Provision.{
  ProvisionError, placement_missing, purchase_not_ready, reservation_closed, malformed_event,
  no_order, Action, Names, ContextRow, Placement, provision_context, provision_placement,
  set_instance_placement, set_provider_result, set_provision_error, activate_subscription,
  mark_fulfilled_if_ready, create_notification, create_domain_event, ensure_for_paid_order,
  is_active,
}

-- Context: the row, with the two columns that must be there.
pub record Context : Type 0 where
  pub row : ContextRow
  pub source_order_id : ℕ
  pub node_group_id : ℕ

abbrev pub complete_context : ContextRow → Option ℕ → Option ℕ → Action Context
complete_context row (some order) (some group) =
    pure (record { row = row; source_order_id = order; node_group_id = group })
complete_context row _ _ = fail (refused placement_missing)

-- Repository.Context
unfoldable pub context : ℕ → Action Context
context operation = do
  found ← select (provision_context operation)
  row ← or_fail found no_rows
  complete_context row row.subscription.source_order_id row.plan.node_group_id

-- Repository.Placement
unfoldable pub placement : Names → ℕ → Action Placement
placement names operation = do
  found ← select (provision_placement names operation)
  or_fail found (refused placement_missing)

-- Repository.SetPlacement
unfoldable pub set_placement : ℕ → Placement → Action (Unit {0})
set_placement instance p =
    outside (λ db. (tt, set_instance_placement instance p.node_id p.provider_id db))

-- firstAddress
unfoldable pub first_address : Names → List String → Option String
first_address names [] = none
first_address names (v ∷ vs) =
    let rest = first_address names vs in if names.is_address v then some v else rest

-- Repository.SetProviderResult
unfoldable pub save_provider_result :
    Names → ℕ → String → ObservedState → List String → List String → Action (Unit {0})
save_provider_result names instance external state ipv4 ipv6 = do
  now ← clock
  outside_row
      (set_provider_result instance (text_ external) state (first_address names ipv4)
        (first_address names ipv6) now)
      unique_violation

-- Repository.SetError
unfoldable pub set_error : ℕ → Action (Unit {0})
set_error instance = outside (λ db. (tt, set_provision_error instance db))

-- The first part of Finalize's transaction: the reservation.
unfoldable pub settle_reserved : Reservation → Action (Unit {0})
settle_reserved r = do
  n ← change_row (take_reserved commit_reserved r.node_id r.amounts) database
  updated ← change_row (set_reservation_status r.id ReservationStatus.committed) no_rows
  pure tt

abbrev pub settle_by : ReservationStatus → Reservation → Action (Unit {0})
settle_by ReservationStatus.reserved r = settle_reserved r
settle_by ReservationStatus.committed r = pure tt
settle_by _ r = fail (refused reservation_closed)

abbrev pub notification_for : Names → Context → Notification
notification_for names c = record {
  id = names.sha1 ("vps-billing:notification:" & names.uuid_text c.row.instance.id);
  user_id = some c.row.subscription.user_id;
  instance_id = c.row.instance.id;
}

-- The second part of a subscription that was not active when the context was read
unfoldable pub activate : Names → Context → Action (Unit {0})
activate names c = do
  now ← clock
  s ← change_row (activate_subscription names c.row.subscription.id now) no_rows
  execute (mark_fulfilled_if_ready c.source_order_id)
  execute (create_notification (notification_for names c))
  create_domain_event subscription_activated s.id
      (activation_data s.id s.user_id c.row.instance.id (subscription_status_text s.status))
  create_domain_event instance_running c.row.instance.id
      (instance_data c.row.instance.id c.row.subscription.user_id c.row.subscription.id "running")

abbrev pub activate_unless : Names → Context → Bool → Action (Unit {0})
activate_unless names c true = execute (mark_fulfilled_if_ready c.source_order_id)
activate_unless names c false = activate names c

-- Repository.Finalize
unfoldable pub finalize : Names → Context → Placement → Action (Unit {0})
finalize names c p = transaction (do
  found ← select (λ db. get reservation_id_of p.reservation_id db.reservations)
  r ← or_fail found no_rows
  settle_by r.status r
  activate_unless names c (is_active c.row.subscription.status)
  commit)

-- The message of the stream; `none` is a payload that is no JSON, and 0 is uuid.Nil.
pub record Message : Type 0 where
  pub id : String
  pub event_type : String
  pub order_id : Option ℕ

abbrev pub ignore_not_ready :
    Result ProvisionError ℤ × World Database → Result ProvisionError (Unit {0}) × World Database
ignore_not_ready (ok n, w) = (ok tt, w)
ignore_not_ready (err (refused purchase_not_ready), w) = (ok tt, w)
ignore_not_ready (err e, w) = (err e, w)

unfoldable pub provision_order : Names → String → ℕ → Action (Unit {0})
provision_order names trace order w = ignore_not_ready (ensure_for_paid_order names order trace w)

-- TriggerConsumer.process
unfoldable pub process_event : Names → Message → Action (Unit {0})
process_event names m =
    if str_eq m.event_type "payment.succeeded.v1"
    then (do
      order ← or_fail m.order_id (refused malformed_event)
      fail_if (order == 0) (refused no_order)
      provision_order names ("payment:" & m.id) order)
    else pure tt
