-- ===== src/Subscription/Tests.antt =====
-- Runs of backend/internal/subscription on small tables.
use vps_billing_codex.Shared.{
  is_some, ℕ, ◌+◌, ◌≡◌, Bool, true, false, Option, none, some, [], ◌∷◌, refl, length, if◌then◌else◌,
  option_map, ◌==◌, order_by,
}
use vps_billing_codex.Shared.Table.{get}
use vps_billing_codex.Shared.Keys.{has_key, IsDistinct}
use vps_billing_codex.Shared.Tx.{World, for_each, database, ok}
use vps_billing_codex.Store.{
  Database, empty_database, Plan, Subscription, SubscriptionStatus, active, past_due, monthly,
  subscription_past_due,
}
use vps_billing_codex.Subscription.{
  sub_id, decide_lifecycle_transition, is_claimable, claim_for_lifecycle, process_batch,
  set_cancel_at_period_end, advance_one, update_subscription_lifecycle, create_event,
  lock_subscription_by_user,
}
use vps_billing_codex.Subscription.Lifecycle.{decide-is_claimable, decide-Transition, Transition}
use vps_billing_codex.Subscription.Batch.{process_batch_advances, process_batch_atomic, advanced}
use vps_billing_codex.Subscription.Cancel.{set_cancel_lem, with_flag, cancel_event}

abbrev small_plan : Plan
small_plan = record {
  id = 7;
  product_id = 5;
  node_group_id = some 3;
  slug = "small";
  name = "Small";
  status = "active";
  cpu_cores = 100;
  memory_mb = 1024;
  disk_gb = 20;
  traffic_gb = none;
  bandwidth_mbps = none;
  ipv4_count = 1;
  ipv6_count = 0;
  nat_port_count = 0;
  virtualization = "container";
  billing_cycle = monthly;
  price_minor = 500;
  currency = "USD";
  default_image_id = "ubuntu-24.04";
}

abbrev subscription_row : ℕ → SubscriptionStatus → Option ℕ → Option ℕ → Bool → Subscription
subscription_row id status period_end grace cancel = record {
  id = id;
  user_id = 3;
  plan_id = 7;
  status = status;
  billing_cycle = monthly;
  price_minor = 500;
  currency = "USD";
  started_at = some 1;
  current_period_start = some 1;
  current_period_end = period_end;
  next_due_at = period_end;
  grace_until = grace;
  cancel_at_period_end = cancel;
  ended_at = none;
  version = 1;
  source_order_id = none;
  source_item_index = none;
}

abbrev paid_up : Subscription
paid_up = subscription_row 10 active (some 900) none false

abbrev run_out : Subscription
run_out = subscription_row 11 active (some 90) none false

abbrev in_grace : Subscription
in_grace = subscription_row 12 past_due (some 50) (some 80) false

abbrev to_cancel : Subscription
to_cancel = subscription_row 13 active (some 100) none true

abbrev small_world : (ℕ → Bool) → World Database
small_world broken =
    let db : Database = record empty_database {
      plans = small_plan ∷ [];
      subscriptions = paid_up ∷ run_out ∷ in_grace ∷ to_cancel ∷ [];
    } in
    record {
      store = db;
      saved = db;
      now = 100;
      next_id = 1000;
      calls = 0;
      broken = broken;
      locked = λ _. false;
    }

abbrev up_world : World Database
up_world = small_world (λ _. false)

-- The third statement fails.
abbrev failing_world : World Database
failing_world = small_world (λ n. n == 2)

rows_IsDistinct : IsDistinct sub_id up_world.store.subscriptions
rows_IsDistinct = (refl, (refl, (refl, (refl, tt))))

batch_runs : (process_batch 50 2 up_world).0 ≡ ok 2
unfolding process_batch for_each advance_one decide_lifecycle_transition claim_for_lifecycle
    update_subscription_lifecycle create_event is_claimable order_by
batch_runs = refl

decide-is_claimable_example :
    is_some (decide_lifecycle_transition run_out 100 50) ≡ is_claimable 100 run_out
decide-is_claimable_example = decide-is_claimable run_out 100 50

decide-Transition_example : Transition 100 50 run_out (record {
  status = past_due;
  event_type = subscription_past_due;
  grace_until = some 140;
  ended_at = none;
})
unfolding decide_lifecycle_transition
decide-Transition_example = decide-Transition run_out 100 50 refl

process_batch_advances_example :
    let rows = claim_for_lifecycle 100 2 (λ _. false) up_world.store.subscriptions in
    let (r, w') = process_batch 50 2 up_world in
    (r ≡ ok (length rows))
    × ((k : ℕ)
        → get sub_id k w'.saved.subscriptions ≡ (
            if has_key sub_id k rows
            then option_map (advanced 100 50) (get sub_id k up_world.store.subscriptions)
            else get sub_id k up_world.store.subscriptions))
    × (length w'.saved.outbox ≡ length up_world.store.outbox + length rows)
process_batch_advances_example = process_batch_advances 50 2 up_world (λ _. refl) rows_IsDistinct

process_batch_atomic_example : (process_batch 50 2 failing_world).1.saved ≡ failing_world.saved
unfolding process_batch for_each advance_one decide_lifecycle_transition claim_for_lifecycle
    update_subscription_lifecycle create_event is_claimable order_by
process_batch_atomic_example = process_batch_atomic 50 2 failing_world {e = database} refl

set_cancel_lem_example :
    let (r, w') = set_cancel_at_period_end 3 10 true up_world in
    (r ≡ ok (record { row = with_flag true paid_up; plan_slug = "small"; plan_name = "Small" }))
    × ((k : ℕ)
        → get sub_id k w'.saved.subscriptions ≡ (
            if k == 10
            then some (with_flag true paid_up)
            else get sub_id k up_world.store.subscriptions))
    × (w'.saved.outbox ≡ cancel_event true paid_up 1000 100 ∷ [])
unfolding lock_subscription_by_user
set_cancel_lem_example =
    set_cancel_lem 3 10 true up_world {s = paid_up} {plan = small_plan} (λ _. refl) refl refl refl
      refl
