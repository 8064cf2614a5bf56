-- ===== src/Subscription/Cancel.antt =====
-- PostgresRepository.SetCancelAtPeriodEnd of backend/internal/subscription/repository.go.
use vps_billing_codex.Shared.{
  ℕ, ◌+◌, ◌≡◌, refl, [], ◌∷◌, ◌++◌, Bool, true, false, Option, none, some, arith, ◌==◌,
  if◌then◌else◌,
}
use vps_billing_codex.Shared.Table.{get, get-modify}
use vps_billing_codex.Shared.Tx.{World, refused, ok, err, IsUp}
use vps_billing_codex.Store.{
  Database, Subscription, active, OutboxEvent, OutboxStatus, subscription_cancel_scheduled,
  subscription_cancel_schedule_removed, subscription_data, subscription_status_text,
}
use vps_billing_codex.Subscription.{
  SubscriptionError, not_found, invalid_state, sub_id, eq_bool, is_active,
  lock_subscription_by_user, set_cancel_at_period_end, plan_id_of,
}

abbrev pub with_flag : Bool → Subscription → Subscription
with_flag cancel s = record s { cancel_at_period_end = cancel; version = s.version + 1 }

-- Why a request is refused: the row that the owner's id selects, and its status.
abbrev pub refusal : Option Subscription → Option SubscriptionError
refusal none = some not_found
refusal (some s) = if is_active s.status then none else some invalid_state

-- The event that a change publishes.
abbrev pub cancel_event : Bool → Subscription → ℕ → ℕ → OutboxEvent
cancel_event cancel s id now = record {
  id = id;
  event_type =
      if cancel then subscription_cancel_scheduled else subscription_cancel_schedule_removed;
  aggregate_id = s.id;
  occurred_at = now;
  payload = subscription_data s.id s.user_id (subscription_status_text s.status) (s.version + 1);
  status = OutboxStatus.pending;
  attempts = 0;
  next_attempt_at = now;
}

-- An owner's change on an active subscription whose flag differs, while the database answers:
-- it succeeds, the committed row has the new flag and the next version, every other row stays, and
-- its one event is
-- added.
pub set_cancel_lem :
    (user_id id : ℕ) (cancel : Bool) (w : World Database) {s : Subscription} {plan : _}
    → IsUp w
    → lock_subscription_by_user id user_id w.store ≡ some s
    → get plan_id_of s.plan_id w.store.plans ≡ some plan
    → s.status ≡ active
    → eq_bool s.cancel_at_period_end cancel ≡ false
    → let (r, w') = set_cancel_at_period_end user_id id cancel w in
      (r ≡ ok (record { row = with_flag cancel s; plan_slug = plan.slug; plan_name = plan.name }))
      × ((k : ℕ)
          → get sub_id k w'.saved.subscriptions
            ≡ (if k == id then some (with_flag cancel s) else get sub_id k w.store.subscriptions))
      × (w'.saved.outbox ≡ w.store.outbox ++ cancel_event cancel s w.next_id w.now ∷ [])
unfolding set_cancel_at_period_end
set_cancel_lem user_id id cancel w {s} {plan} up found planned is_on differs =
    let t = w.store.subscriptions in
    (
      ground (
        arith,
        up w.calls,
        up (w.calls + 1),
        up (w.calls + 1 + 1),
        up (w.calls + 1 + 1 + 1),
        up (w.calls + 1 + 1 + 1 + 1),
        up (w.calls + 1 + 1 + 1 + 1 + 1),
        get-modify sub_id (with_flag cancel) (λ _. refl) id id t,
      ),
      λ k. ground (
        arith,
        up w.calls,
        up (w.calls + 1),
        up (w.calls + 1 + 1),
        up (w.calls + 1 + 1 + 1),
        up (w.calls + 1 + 1 + 1 + 1),
        up (w.calls + 1 + 1 + 1 + 1 + 1),
        get-modify sub_id (with_flag cancel) (λ _. refl) id id t,
        get-modify sub_id (with_flag cancel) (λ _. refl) k id t,
      ),
      ground (
        arith,
        up w.calls,
        up (w.calls + 1),
        up (w.calls + 1 + 1),
        up (w.calls + 1 + 1 + 1),
        up (w.calls + 1 + 1 + 1 + 1),
        up (w.calls + 1 + 1 + 1 + 1 + 1),
        get-modify sub_id (with_flag cancel) (λ _. refl) id id t,
      ),
    )

-- Setting the flag that a subscription already has writes nothing, whatever statement fails.
pub set_cancel_again :
    (user_id id : ℕ) (cancel : Bool) (w : World Database) {s : Subscription}
    → lock_subscription_by_user id user_id w.store ≡ some s
    → eq_bool s.cancel_at_period_end cancel ≡ true
    → (set_cancel_at_period_end user_id id cancel w).1.saved ≡ w.saved
unfolding set_cancel_at_period_end
set_cancel_again user_id id cancel w found same = ground arith

-- While the database answers, a missing or foreign subscription is reported as not found and one that
-- is not active as in the wrong state, and nothing is written in either case.
pub set_cancel_refused :
    (user_id id : ℕ) (cancel : Bool) (w : World Database) {e : SubscriptionError}
    → IsUp w
    → refusal (lock_subscription_by_user id user_id w.store) ≡ some e
    → ((set_cancel_at_period_end user_id id cancel w).0 ≡ err (refused e))
      × ((set_cancel_at_period_end user_id id cancel w).1.saved ≡ w.saved)
unfolding set_cancel_at_period_end
set_cancel_refused user_id id cancel w up why =
    (ground (arith, up w.calls, up (w.calls + 1)), ground (arith, up w.calls, up (w.calls + 1)))
