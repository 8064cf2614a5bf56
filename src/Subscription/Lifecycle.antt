-- ===== src/Subscription/Lifecycle.antt =====
-- decideLifecycleTransition of backend/internal/subscription/repository.go against the rows that
-- ClaimSubscriptionsForLifecycle selects.
use vps_billing_codex.Shared.{
  is_some, ℕ, ◌+◌, ◌≤◌, ◌≡◌, inl, inr, true, false, ◌&&◌, Option, none, some, arith, Bool-cases,
}
use vps_billing_codex.Store.{
  Subscription, active, past_due, suspended, cancelled, subscription_cancelled,
  subscription_past_due, subscription_suspended,
}
use vps_billing_codex.Subscription.{
  LifecycleDecision, decide_lifecycle_transition, is_active, is_claimable, is_due,
}

-- The worker decides on a transition for exactly the rows that its query claims.
pub decide-is_claimable :
    (s : Subscription) (now grace : ℕ)
    → is_some (decide_lifecycle_transition s now grace) ≡ is_claimable now s
unfolding decide_lifecycle_transition is_claimable
decide-is_claimable s now grace = ground arith

-- The lifecycle as an independent table: what happens to a subscription, by how it stands.
pub data Transition (now grace : ℕ) (s : Subscription) (d : LifecycleDecision) : Type 0 where
  period_ends_cancelled :
      (period_end : ℕ)
      → s.status ≡ active
      → s.cancel_at_period_end ≡ true
      → s.current_period_end ≡ some period_end
      → period_end ≤ now
      → d ≡ record {
        status = cancelled;
        event_type = subscription_cancelled;
        grace_until = none;
        ended_at = some now;
      }
      → Transition now grace s d
  period_ends_unpaid :
      (period_end : ℕ)
      → s.status ≡ active
      → s.cancel_at_period_end ≡ false
      → s.current_period_end ≡ some period_end
      → period_end ≤ now
      → d ≡ record {
        status = past_due;
        event_type = subscription_past_due;
        grace_until = some (period_end + grace);
        ended_at = none;
      }
      → Transition now grace s d
  grace_ends :
      (until : ℕ)
      → s.status ≡ past_due
      → s.grace_until ≡ some until
      → until ≤ now
      → d ≡ record {
        status = suspended;
        event_type = subscription_suspended;
        grace_until = some until;
        ended_at = none;
      }
      → Transition now grace s d

due_at : (o : Option ℕ) (now : ℕ) → is_due o now ≡ true → (t : ℕ) × (o ≡ some t) × (t ≤ now)
due_at o now h = ground arith

-- Every decision is one of the three transitions of the lifecycle, with its times.
pub decide-Transition :
    (s : Subscription) (now grace : ℕ) {d : LifecycleDecision}
    → decide_lifecycle_transition s now grace ≡ some d
    → Transition now grace s d
unfolding decide_lifecycle_transition
decide-Transition s now grace {d} e =
    elim (Bool-cases (is_active s.status && is_due s.current_period_end now)) [
      | inl ends ↦
          let (t, set, past) = due_at s.current_period_end now (ground arith) in
          elim (Bool-cases s.cancel_at_period_end) [
            | inl c ↦ period_ends_cancelled t (ground arith) c set past (ground arith)
            | inr c ↦ period_ends_unpaid t (ground arith) c set past (ground arith)
          ]
      | inr other ↦
          let (t, set, past) = due_at s.grace_until now (ground arith) in
          grace_ends t (ground arith) set past (ground arith)
    ]
