-- ===== src/Subscription.antt =====
-- backend/internal/subscription: the owner's switch "cancel at period end" and the lifecycle worker,
-- with their statements of backend/internal/store/sqlc/subscription.sql.go. A method of
-- PostgresRepository or LifecycleProcessor is a `do` block over the database.
pub mod Lifecycle
pub mod Batch
pub mod Cancel
mod Tests
use Prim.Native.String.{String}
use vps_billing_codex.Shared.{
  ℕ, ◌+◌, Bool, true, false, not, ◌&&◌, ◌||◌, Option, none, some, List, [], ◌∷◌, ◌++◌, ltb, leb,
  ◌==◌, if◌then◌else◌, where_, order_by, take, length,
}
use vps_billing_codex.Shared.Table.{get, update_one}
use vps_billing_codex.Shared.Tx.{
  no_rows, refused, M, ◌>>=◌, ◌>>◌, pure, fail_if, or_fail, select, change_row, execute, clock,
  lock_table, new_id, commit, transaction, for_each,
}
use vps_billing_codex.Store.{
  Database, Plan, Subscription, SubscriptionStatus, active, past_due, suspended, cancelled,
  subscription_status_text, EventType, subscription_cancel_scheduled,
  subscription_cancel_schedule_removed, subscription_cancelled, subscription_past_due,
  subscription_suspended, subscription_data, OutboxStatus,
}

-- ErrNotFound and ErrInvalidState
pub data SubscriptionError : Type 0 where
  not_found invalid_state : SubscriptionError

abbrev pub Action : Type 0 → Type 0
Action = M Database SubscriptionError

abbrev pub sub_id : Subscription → ℕ
sub_id s = s.id

-- A nullable time that is set and not after `now`.
abbrev pub is_due : Option ℕ → ℕ → Bool
is_due none now = false
is_due (some t) now = leb t now

abbrev pub is_active : SubscriptionStatus → Bool
is_active active = true
is_active _ = false

abbrev pub is_past_due : SubscriptionStatus → Bool
is_past_due past_due = true
is_past_due _ = false

-- lifecycleDecision
pub record LifecycleDecision : Type 0 where
  pub status : SubscriptionStatus
  pub event_type : EventType
  pub grace_until : Option ℕ
  pub ended_at : Option ℕ

abbrev add_grace : Option ℕ → ℕ → Option ℕ
add_grace none grace = none
add_grace (some t) grace = some (t + grace)

-- decideLifecycleTransition
unfoldable pub decide_lifecycle_transition : Subscription → ℕ → ℕ → Option LifecycleDecision
decide_lifecycle_transition s now grace =
    if is_active s.status && (s.cancel_at_period_end && is_due s.current_period_end now)
    then some (record {
      status = cancelled;
      event_type = subscription_cancelled;
      grace_until = none;
      ended_at = some now;
    })
    else (if is_active s.status && is_due s.current_period_end now
        then some (record {
          status = past_due;
          event_type = subscription_past_due;
          grace_until = add_grace s.current_period_end grace;
          ended_at = none;
        })
        else (if is_past_due s.status && is_due s.grace_until now
            then some (record {
              status = suspended;
              event_type = subscription_suspended;
              grace_until = s.grace_until;
              ended_at = none;
            })
            else none))

-- The WHERE clause of ClaimSubscriptionsForLifecycle.
unfoldable pub is_claimable : ℕ → Subscription → Bool
is_claimable now s =
    is_active s.status && is_due s.current_period_end now
    || is_past_due s.status && is_due s.grace_until now

abbrev coalesce : Option ℕ → Option ℕ → Option ℕ
coalesce (some a) b = some a
coalesce none b = b

abbrev before_key : Option ℕ → ℕ → Option ℕ → ℕ → Bool
before_key none i none j = leb i j
before_key none i (some b) j = false
before_key (some a) i none j = true
before_key (some a) i (some b) j = ltb a b || a == b && leb i j

-- ORDER BY COALESCE(grace_until, current_period_end), id; a null comes last.
abbrev claim_before : Subscription → Subscription → Bool
claim_before s t =
    before_key (coalesce s.grace_until s.current_period_end) s.id
      (coalesce t.grace_until t.current_period_end) t.id

-- ClaimSubscriptionsForLifecycle
unfoldable pub claim_for_lifecycle : ℕ → ℕ → (ℕ → Bool) → List Subscription → List Subscription
unfolding is_claimable order_by
claim_for_lifecycle now limit locked t =
    take limit (order_by claim_before (where_ (λ s. is_claimable now s && not (locked s.id)) t))

-- UpdateSubscriptionLifecycle: the row must still have the version that was read.
unfoldable pub update_subscription_lifecycle :
    ℕ → LifecycleDecision → ℕ → Database → Option (Subscription × Database)
update_subscription_lifecycle id d version db =
    elim (update_one sub_id id (λ s. s.version == version)
      (λ s. record s {
        status = d.status;
        grace_until = d.grace_until;
        ended_at = d.ended_at;
        version = s.version + 1;
      })
      db.subscriptions) [ none ↦ none | some p ↦ some (p.0, record db { subscriptions = p.1 }) ]

-- createEvent, with CreateOutboxEvent
unfoldable pub create_event : EventType → Subscription → ℕ → Action (Unit {0})
create_event event_type s occurred_at = do
  event_id ← new_id
  execute (λ db. record db {
    outbox =
        db.outbox
        ++ record {
          id = event_id;
          event_type = event_type;
          aggregate_id = s.id;
          occurred_at = occurred_at;
          payload = subscription_data s.id s.user_id (subscription_status_text s.status) s.version;
          status = OutboxStatus.pending;
          attempts = 0;
          next_attempt_at = occurred_at;
        }
          ∷ [];
  })

-- The body of ProcessBatch's loop.
unfoldable pub advance_one : ℕ → ℕ → Subscription → Action (Unit {0})
unfolding decide_lifecycle_transition update_subscription_lifecycle create_event
advance_one now grace current = elim (decide_lifecycle_transition current now grace) [
  | none ↦ pure tt
  | some decision ↦ do
    updated ← change_row (update_subscription_lifecycle current.id decision current.version) no_rows
    create_event decision.event_type updated now
]

-- LifecycleProcessor.ProcessBatch
unfoldable pub process_batch : ℕ → ℕ → Action ℕ
process_batch grace batch_size = do
  now ← clock
  transaction (do
    locked ← lock_table
    rows ← select (λ db. claim_for_lifecycle now batch_size locked db.subscriptions)
    for_each (advance_one now grace) rows
    commit
    pure (length rows))

-- LockSubscriptionByUser
unfoldable pub lock_subscription_by_user : ℕ → ℕ → Database → Option Subscription
lock_subscription_by_user id user_id db = elim (get sub_id id db.subscriptions) [
  | none ↦ none
  | some s ↦ if s.user_id == user_id then some s else none
]

-- SetSubscriptionCancelAtPeriodEnd
unfoldable pub set_subscription_cancel_at_period_end :
    ℕ → Bool → Database → Option (Subscription × Database)
set_subscription_cancel_at_period_end id cancel db =
    elim (update_one sub_id id (λ _. true)
      (λ s. record s { cancel_at_period_end = cancel; version = s.version + 1 }) db.subscriptions) [
        | none ↦ none
        | some p ↦ some (p.0, record db { subscriptions = p.1 })
      ]

-- The public Subscription: a row joined with its plan.
pub record View : Type 0 where
  pub row : Subscription
  pub plan_slug : String
  pub plan_name : String

abbrev pub plan_id_of : Plan → ℕ
plan_id_of p = p.id

-- subscriptionView: the row of ListSubscriptionsByUser with that id, which joins the plan.
unfoldable pub find_view : ℕ → ℕ → Database → Option View
unfolding lock_subscription_by_user
find_view id user_id db = elim (lock_subscription_by_user id user_id db) [
  | none ↦ none
  | some s ↦ elim (get plan_id_of s.plan_id db.plans) [
    | none ↦ none
    | some p ↦ some (record { row = s; plan_slug = p.slug; plan_name = p.name })
  ]
]

unfoldable pub subscription_view : ℕ → ℕ → Action View
unfolding find_view
subscription_view user_id id = do
  found ← select (find_view id user_id)
  or_fail found (refused not_found)

abbrev pub eq_bool : Bool → Bool → Bool
eq_bool true b = b
eq_bool false b = not b

-- PostgresRepository.SetCancelAtPeriodEnd
unfoldable pub set_cancel_at_period_end : ℕ → ℕ → Bool → Action View
unfolding lock_subscription_by_user set_subscription_cancel_at_period_end create_event
    subscription_view
set_cancel_at_period_end user_id id cancel = transaction (do
  found ← select (lock_subscription_by_user id user_id)
  current ← or_fail found (refused not_found)
  fail_if (not (is_active current.status)) (refused invalid_state)
  if eq_bool current.cancel_at_period_end cancel then subscription_view user_id id else (do
    updated ← change_row (set_subscription_cancel_at_period_end id cancel) no_rows
    now ← clock
    create_event
        (if cancel then subscription_cancel_scheduled else subscription_cancel_schedule_removed)
        updated now
    result ← subscription_view user_id id
    commit
    pure result))
