-- ===== src/Outbox/Lost.antt =====
-- No event is lost: what Dispatcher of backend/internal/outbox/dispatcher.go has marked as published is
-- in the streams, whatever fails.
use vps_billing_codex.Shared.{
  ℕ, ◌+◌, ◌≡◌, true, not, ◌||◌, List, [], ◌∷◌, arith, All, All-mono, ◌==◌, eq_of_==, ==_refl, inl,
  inr, Bool-cases, sym, ◌∙◌, length,
}
use mathlib.Core.Path.{subst}
use vps_billing_codex.Shared.Table.{modify}
use vps_billing_codex.Shared.Keys.{IsDistinct}
use vps_billing_codex.Shared.Tx.{execute, Result, ok, err, Result-cases, commit}
use vps_billing_codex.Store.{OutboxEvent, published}
use vps_billing_codex.Outbox.{
  Stream, domain_events, operation_queue, Wire, Message, message_of, event_id_of, is_queued_event,
  mark_outbox_published, proceed, dispatch_one, dispatch_all, process_batch, lift,
  claim_outbox_events, batch_size, DispatchError, done, ◌>>=◌,
}
use vps_billing_codex.Outbox.Sent.{
  has_message, skipped, taken, is_safe, AllSafe, IsSafe, taken-IsSafe, give_up-IsSafe,
  has_key-append,
}
use vps_billing_codex.Outbox.Agree.{
  Ending, first_refused, second_refused, sent_once, sent_twice, all_agree, AllAgree,
  dispatch_one-Ending, dispatch_one-all_agree, claimed-AllAgree,
}

mark_safe :
    (entries : Stream → List Message) (e : OutboxEvent) (t : List OutboxEvent)
    → has_message domain_events e.id entries ≡ true
    → (not (is_queued_event e.event_type) || has_message operation_queue e.id entries) ≡ true
    → all_agree e t ≡ true
    → All (λ r. is_safe entries r ≡ true) t
    → All
        (λ r. is_safe entries r ≡ true)
        (modify event_id_of e.id (λ r. record r { status = published }) t)
mark_safe entries e [] sent queued_ agree h = tt
mark_safe entries e (r ∷ t) sent queued_ agree h = elim (Bool-cases (r.id == e.id)) [
  | inl own ↦ rw own (
    ground (arith, eq_of_== r.id e.id own, sent, queued_, agree),
    mark_safe entries e t sent queued_ (ground (arith, agree)) h.1,
  )
  | inr other ↦ rw other (h.0, mark_safe entries e t sent queued_ (ground (arith, agree)) h.1)
]

publish-IsSafe :
    (e : OutboxEvent) (x : Wire)
    → has_message domain_events e.id x.redis.entries ≡ true
    → (not (is_queued_event e.event_type) || has_message operation_queue e.id x.redis.entries)
      ≡ true
    → all_agree e x.world.store.outbox ≡ true
    → IsSafe x
    → IsSafe (lift (execute (mark_outbox_published e.id)) x).1
unfolding mark_outbox_published
publish-IsSafe e x sent queued_ agree h = elim (Bool-cases (x.world.broken x.world.calls)) [
  | inl down ↦ rw down h
  | inr up ↦ rw up (mark_safe x.redis.entries e x.world.store.outbox sent queued_ agree h.0, h.1)
]

dispatch_one-IsSafe :
    (e : OutboxEvent) (x y : Wire)
    → Ending e x y
    → all_agree e x.world.store.outbox ≡ true
    → IsSafe x
    → IsSafe y
dispatch_one-IsSafe e x y (first_refused p) agree h =
    subst IsSafe (sym p) (give_up-IsSafe e.id (skipped x) h)
dispatch_one-IsSafe e x y (second_refused p) agree h =
    subst IsSafe (sym p)
      (give_up-IsSafe e.id (skipped (taken domain_events e x)) (taken-IsSafe domain_events e x h))
dispatch_one-IsSafe e x y (sent_once plain p) agree h = subst IsSafe (sym p) (
    publish-IsSafe e (taken domain_events e x)
      (ground
        (arith, has_key-append e.id (x.redis.entries domain_events) (message_of e), ==_refl e.id))
      (ground (arith, plain)) agree (taken-IsSafe domain_events e x h))
dispatch_one-IsSafe e x y (sent_twice p) agree h = subst IsSafe (sym p) (
    publish-IsSafe e (taken operation_queue e (taken domain_events e x))
      (ground
        (arith, has_key-append e.id (x.redis.entries domain_events) (message_of e), ==_refl e.id))
      (ground
        (arith, has_key-append e.id (x.redis.entries operation_queue) (message_of e), ==_refl e.id))
      agree
      (taken-IsSafe operation_queue e (taken domain_events e x) (taken-IsSafe domain_events e x h)))

dispatch_all-IsSafe :
    (es : List OutboxEvent) (x : Wire)
    → AllAgree x.world.store.outbox es
    → IsSafe x
    → IsSafe (dispatch_all es x).1
unfolding dispatch_all
dispatch_all-IsSafe [] x agree h = h
dispatch_all-IsSafe (e ∷ es) x agree h =
    let y = (dispatch_one e x).1 in
    let d = dispatch_one-Ending e x in
    let safe = dispatch_one-IsSafe e x y d agree.0 h in
    let agree' : AllAgree y.world.store.outbox es =
      All-mono (λ e'. all_agree e' x.world.store.outbox ≡ true)
        (λ e'. all_agree e' y.world.store.outbox ≡ true) es
        (λ e' a. dispatch_one-all_agree e e' x y d ∙ a) agree.1 in
    elim (Result-cases (dispatch_one e x).0) [
      | inl (f, failed) ↦ rw failed safe
      | inr (u, went) ↦ rw went (dispatch_all-IsSafe es y agree' safe)
    ]

finish-IsSafe :
    (n : ℕ) (p : Result DispatchError (Unit {0}) × Wire)
    → IsSafe p.1
    → IsSafe (proceed (λ _. lift commit >>= λ _. done n) p).1
finish-IsSafe n (err e, x) h = h
finish-IsSafe n (ok u, x) h = elim (Bool-cases (x.world.broken x.world.calls)) [
  | inl down ↦ rw down h
  | inr up ↦ rw up (h.0, h.0)
]

process_batch-IsSafe :
    (x : Wire) → IsDistinct event_id_of x.world.store.outbox → IsSafe x → IsSafe (process_batch x).1
unfolding process_batch
process_batch-IsSafe x distinct h =
    let w = x.world in
    let events = claim_outbox_events w.locked w.now batch_size w.store in
    let y : Wire = record x { world = record w { calls = w.calls + 1 + 1 } } in
    let safe =
      dispatch_all-IsSafe events y (claimed-AllAgree w.locked w.now batch_size w.store distinct)
        h in
    let end = finish-IsSafe (length events) (dispatch_all events y) safe in
    elim (Bool-cases (w.broken w.calls)) [
      | inl down ↦ rw down (h.1, h.1)
      | inr up ↦ elim (Bool-cases (w.broken (w.calls + 1))) [
        | inl down ↦ rw (up, down) (h.1, h.1)
        | inr up' ↦ rw (up, up') (end.1, end.1)
      ]
    ]

-- Nothing is published without being sent: whatever statement or send fails, where every committed
-- event that is marked as published has an entry in the stream of all events and, if it queues an
-- operation, in the stream of operations, and ids are distinct, the same holds after ProcessBatch.
pub published_were_sent :
    (x : Wire)
    → x.world.store ≡ x.world.saved
    → IsDistinct event_id_of x.world.saved.outbox
    → AllSafe x.redis.entries x.world.saved
    → AllSafe (process_batch x).1.redis.entries (process_batch x).1.world.saved
published_were_sent x settled distinct safe =
    (process_batch-IsSafe x (subst (λ db. IsDistinct event_id_of db.outbox) (sym settled) distinct)
      (subst (AllSafe x.redis.entries) (sym settled) safe, safe)).1
