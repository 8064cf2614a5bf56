-- ===== src/Subscription/Batch.antt =====
-- LifecycleProcessor.ProcessBatch of backend/internal/subscription/repository.go as a whole.
use vps_billing_codex.Shared.{
  ℕ, ◌+◌, ◌≡◌, refl, sym, Bool, true, false, none, some, arith, List, [], ◌∷◌, ◌++◌, if◌then◌else◌,
  option_map, length, length-append, All, All-take, All-order_by, All-mono, All-where, where_holds,
  not, ◌&&◌,
}
use mathlib.Core.Path.{subst}
use vps_billing_codex.Shared.Table.{get, modify, get-modify}
use vps_billing_codex.Shared.Keys.{
  has_key, IsDistinct, IsDistinct-get, IsDistinct-where_, IsDistinct-order_by, IsDistinct-take,
}
use vps_billing_codex.Shared.Tx.{World, Error, ok, err, IsUp, for_each, >>-ok}
use vps_billing_codex.Shared.Atomic.{KeepsSaved, KeepsSaved-for_each}
use vps_billing_codex.Store.{
  Database, Subscription, OutboxEvent, subscription_data, subscription_status_text, OutboxStatus,
}
use vps_billing_codex.Subscription.Lifecycle.{decide-is_claimable}
use vps_billing_codex.Subscription.{
  LifecycleDecision, decide_lifecycle_transition, is_claimable, claim_before, claim_for_lifecycle,
  advance_one, sub_id, SubscriptionError, process_batch,
}

abbrev pub apply_decision : LifecycleDecision → Subscription → Subscription
apply_decision d s = record s {
  status = d.status;
  grace_until = d.grace_until;
  ended_at = d.ended_at;
  version = s.version + 1;
}

abbrev pub lifecycle_event : ℕ → LifecycleDecision → Subscription → ℕ → OutboxEvent
lifecycle_event id d s now = record {
  id = id;
  event_type = d.event_type;
  aggregate_id = s.id;
  occurred_at = now;
  payload = subscription_data s.id s.user_id (subscription_status_text d.status) (s.version + 1);
  status = OutboxStatus.pending;
  attempts = 0;
  next_attempt_at = now;
}

-- What the batch makes of a row that it claimed.
abbrev pub advanced : ℕ → ℕ → Subscription → Subscription
advanced now grace s = elim (decide_lifecycle_transition s now grace) [
  | none ↦ s
  | some d ↦ apply_decision d s
]

-- What the loop has done after the rows `rs`, from `w` to `w'`.
record Advances (now grace : ℕ) (rs : List Subscription) (w w' : World Database) : Type 0 where
  rows :
      (k : ℕ)
      → get sub_id k w'.store.subscriptions ≡ (
          if has_key sub_id k rs
          then option_map (advanced now grace) (get sub_id k w.store.subscriptions)
          else get sub_id k w.store.subscriptions)
  events : length w'.store.outbox ≡ length w.store.outbox + length rs
  saved : w'.saved ≡ w.saved
  broken : w'.broken ≡ w.broken

present-modify :
    (k : ℕ) (f : Subscription → Subscription)
    → ((s : Subscription) → (f s).id ≡ s.id)
    → (t rs : List Subscription) → has_key sub_id k rs ≡ false
    → All (λ r. get sub_id r.id t ≡ some r) rs
    → All (λ r. get sub_id r.id (modify sub_id k f t) ≡ some r) rs
present-modify k f keep t [] other h = tt
present-modify k f keep t (r ∷ rs) other h = (
  ground (arith, get-modify sub_id f keep r.id k t, h.0),
  present-modify k f keep t rs (ground arith) h.1,
)

decided :
    (now grace : ℕ) (s : Subscription)
    → is_claimable now s ≡ true
    → (d : LifecycleDecision) × (decide_lifecycle_transition s now grace ≡ some d)
decided now grace s due = ground (arith, decide-is_claimable s now grace)

-- The world after one row.
abbrev after_one : ℕ → LifecycleDecision → Subscription → World Database → World Database
after_one now d s w = record w {
  store = record (w.store) {
    subscriptions = modify sub_id s.id (apply_decision d) w.store.subscriptions;
    outbox = w.store.outbox ++ lifecycle_event w.next_id d s now ∷ [];
  };
  next_id = w.next_id + 1;
  calls = w.calls + 1 + 1;
}

advance_one_lem :
    (now grace : ℕ) (s : Subscription) (d : LifecycleDecision) (w : World Database)
    → IsUp w
    → get sub_id s.id w.store.subscriptions ≡ some s
    → decide_lifecycle_transition s now grace ≡ some d
    → advance_one now grace s w ≡ (ok tt, after_one now d s w)
unfolding advance_one
advance_one_lem now grace s d w up found decided = ground (arith, up w.calls, up (w.calls + 1))

Advances-cons :
    (now grace : ℕ) (r : Subscription) (rs : List Subscription) (d : LifecycleDecision)
    (w w' : World Database)
    → decide_lifecycle_transition r now grace ≡ some d
    → has_key sub_id r.id rs ≡ false
    → get sub_id r.id w.store.subscriptions ≡ some r
    → Advances now grace rs (after_one now d r w) w'
    → Advances now grace (r ∷ rs) w w'
Advances-cons now grace r rs d w w' made other found rest = record {
  rows = λ k. ground (
    arith,
    rest.rows k,
    get-modify sub_id (apply_decision d) (λ _. refl) k r.id w.store.subscriptions,
  );
  events =
      omega
        (arith, rest.events, length-append w.store.outbox (lifecycle_event w.next_id d r now ∷ []));
  saved = rest.saved;
  broken = rest.broken;
}

for_each-Advances :
    (now grace : ℕ) (rs : List Subscription) (w : World Database)
    → IsUp w
    → IsDistinct sub_id rs
    → All (λ r. is_claimable now r ≡ true) rs
    → All (λ r. get sub_id r.id w.store.subscriptions ≡ some r) rs
    → ((for_each (advance_one now grace) rs w).0 ≡ ok tt)
      × Advances now grace rs w (for_each (advance_one now grace) rs w).1
unfolding for_each
for_each-Advances now grace [] w up distinct due present = (refl, ground arith)
for_each-Advances now grace (r ∷ rs) w up distinct due present =
    let (d, made) = decided now grace r due.0 in
    let next = after_one now d r w in
    let rest = for_each-Advances now grace rs next up distinct.1 due.1 (
      present-modify r.id (apply_decision d) (λ _. refl) w.store.subscriptions rs distinct.0
        present.1) in
    subst (λ p. (p.0 ≡ ok tt) × Advances now grace (r ∷ rs) w p.1)
      (sym (
        >>-ok (advance_one now grace r) (for_each (advance_one now grace) rs)
          (advance_one_lem now grace r d w up present.0 made)))
      (rest.0, Advances-cons now grace r rs d w _ made distinct.0 present.0 rest.1)

module _ (now limit : ℕ) (locked : ℕ → Bool) (t : List Subscription) where
  claim-is_claimable : All (λ r. is_claimable now r ≡ true) (claim_for_lifecycle now limit locked t)
  unfolding claim_for_lifecycle
  claim-is_claimable = All-take _ limit _ (
      All-order_by _ claim_before _ (
        All-mono _ _ _ (λ r h. ground arith)
          (where_holds (λ s. is_claimable now s && not (locked s.id)) t)))

  claim-IsDistinct :
      IsDistinct sub_id t → IsDistinct sub_id (claim_for_lifecycle now limit locked t)
  unfolding claim_for_lifecycle
  claim-IsDistinct h = IsDistinct-take sub_id limit _ (
      IsDistinct-order_by sub_id claim_before _
        (IsDistinct-where_ sub_id (λ s. is_claimable now s && not (locked s.id)) t h))

  claim_present :
      IsDistinct sub_id t
      → All (λ r. get sub_id r.id t ≡ some r) (claim_for_lifecycle now limit locked t)
  unfolding claim_for_lifecycle
  claim_present h =
      All-take _ limit _
        (All-order_by _ claim_before _ (All-where _ _ t (IsDistinct-get sub_id t h)))

-- While the database answers, a batch succeeds: every claimed row goes through exactly its
-- lifecycle transition with one version step, every other row stays, one event is published for
-- each claimed row, and all of it is committed.
pub process_batch_advances :
    (grace limit : ℕ) (w : World Database)
    → IsUp w
    → IsDistinct sub_id w.store.subscriptions
    → let rows = claim_for_lifecycle w.now limit w.locked w.store.subscriptions in
      let (r, w') = process_batch grace limit w in
      (r ≡ ok (length rows))
      × ((k : ℕ)
          → get sub_id k w'.saved.subscriptions ≡ (
              if has_key sub_id k rows
              then option_map (advanced w.now grace) (get sub_id k w.store.subscriptions)
              else get sub_id k w.store.subscriptions))
      × (length w'.saved.outbox ≡ length w.store.outbox + length rows)
unfolding process_batch
process_batch_advances grace limit w up distinct =
    let t = w.store.subscriptions in
    let rows = claim_for_lifecycle w.now limit w.locked t in
    let begun = record w { calls = w.calls + 1 + 1 } in
    let loop =
      for_each-Advances w.now grace rows begun up (claim-IsDistinct w.now limit w.locked t distinct)
        (claim-is_claimable w.now limit w.locked t)
        (claim_present w.now limit w.locked t distinct) in
    let end = (for_each (advance_one w.now grace) rows begun).1 in
    let alive : end.broken end.calls ≡ false = rw loop.1.broken (up end.calls) in
    (
      ground (arith, loop.0, alive, up w.calls, up (w.calls + 1)),
      λ k. ground (arith, loop.0, alive, up w.calls, up (w.calls + 1), loop.1.rows k),
      ground (arith, loop.0, alive, up w.calls, up (w.calls + 1), loop.1.events),
    )

advance_one-KeepsSaved : (now grace : ℕ) (s : Subscription) → KeepsSaved (advance_one now grace s)
unfolding advance_one
advance_one-KeepsSaved now grace s w = ground arith

-- A batch that fails, at whatever statement, leaves the committed rows as they were.
pub process_batch_atomic :
    (grace limit : ℕ) (w : World Database) {e : Error SubscriptionError}
    → (process_batch grace limit w).0 ≡ err e
    → (process_batch grace limit w).1.saved ≡ w.saved
unfolding process_batch
process_batch_atomic grace limit w {e} failed =
    let rows = claim_for_lifecycle w.now limit w.locked w.store.subscriptions in
    ground (
      arith,
      KeepsSaved-for_each (advance_one w.now grace) rows (advance_one-KeepsSaved w.now grace)
          (record w { calls = w.calls + 1 + 1 }),
    )
