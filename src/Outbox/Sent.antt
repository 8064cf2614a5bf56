-- ===== src/Outbox/Sent.antt =====
-- What the streams hold of the events that Dispatcher of backend/internal/outbox/dispatcher.go has
-- marked as published, through a send and a refused send.
use vps_billing_codex.Shared.{
  ℕ, ◌+◌, ◌≡◌, Bool, true, not, ◌&&◌, ◌||◌, List, [], ◌∷◌, ◌++◌, arith, All, All-mono, ◌==◌, inl,
  inr, Bool-cases,
}
use vps_billing_codex.Shared.Table.{All-modify}
use vps_billing_codex.Shared.Keys.{has_key}
use vps_billing_codex.Store.{Database, OutboxEvent}
use vps_billing_codex.Outbox.{
  Stream, domain_events, operation_queue, Wire, Message, append_to, message_of, event_id_of,
  is_pending, is_queued_event, mark_outbox_retry, retry_delay, give_up,
}

abbrev pub message_id : Message → ℕ
message_id m = m.event_id

abbrev pub has_message : Stream → ℕ → (Stream → List Message) → Bool
has_message s id entries = has_key message_id id (entries s)

-- An event is pending still, or in the stream of all events and, if it queues an operation, in the
-- other one.
abbrev pub is_safe : (Stream → List Message) → OutboxEvent → Bool
is_safe entries e =
    is_pending e.status
    || (has_message domain_events e.id entries
        && (not (is_queued_event e.event_type) || has_message operation_queue e.id entries))

abbrev pub AllSafe : (Stream → List Message) → Database → Type 0
AllSafe entries db = All (λ e. is_safe entries e ≡ true) db.outbox

abbrev pub IsSafe : Wire → Type 0
IsSafe x = AllSafe x.redis.entries x.world.store × AllSafe x.redis.entries x.world.saved

pub has_key-append :
    (k : ℕ) (t : List Message) (m : Message)
    → has_key message_id k (t ++ m ∷ []) ≡ (has_key message_id k t || message_id m == k)
has_key-append k [] m = ground arith
has_key-append k (x ∷ t) m = ground (arith, has_key-append k t m)

pub is_safe-append :
    (s : Stream) (m : Message) (entries : Stream → List Message) (e : OutboxEvent)
    → is_safe entries e ≡ true
    → is_safe (append_to s m entries) e ≡ true
is_safe-append domain_events m entries e h =
    ground (arith, has_key-append e.id (entries domain_events) m)
is_safe-append operation_queue m entries e h =
    ground (arith, has_key-append e.id (entries operation_queue) m)

pub AllSafe-append :
    (s : Stream) (m : Message) (entries : Stream → List Message) (db : Database)
    → AllSafe entries db
    → AllSafe (append_to s m entries) db
AllSafe-append s m entries db =
    All-mono (λ e. is_safe entries e ≡ true) (λ e. is_safe (append_to s m entries) e ≡ true)
      db.outbox (is_safe-append s m entries)

abbrev pub skipped : Wire → Wire
skipped x = record x { redis = record (x.redis) { sends = x.redis.sends + 1 } }

abbrev pub taken : Stream → OutboxEvent → Wire → Wire
taken s e x = record x {
  redis = record (x.redis) {
    entries = append_to s (message_of e) x.redis.entries;
    sends = x.redis.sends + 1;
  };
}

pub taken-IsSafe : (s : Stream) (e : OutboxEvent) (x : Wire) → IsSafe x → IsSafe (taken s e x)
taken-IsSafe s e x h = (
  AllSafe-append s (message_of e) x.redis.entries x.world.store h.0,
  AllSafe-append s (message_of e) x.redis.entries x.world.saved h.1,
)

pub mark_outbox_retry-AllSafe :
    (entries : Stream → List Message) (now id : ℕ) (db : Database)
    → AllSafe entries db
    → AllSafe entries (mark_outbox_retry now id db)
unfolding mark_outbox_retry
mark_outbox_retry-AllSafe entries now id db h =
    All-modify event_id_of (λ e. is_safe entries e ≡ true) id
      (λ e. record e { attempts = e.attempts + 1; next_attempt_at = now + retry_delay e.attempts })
      db.outbox (λ r own safe. safe) h

pub give_up-IsSafe : (id : ℕ) (x : Wire) → IsSafe x → IsSafe (give_up id x).1
unfolding give_up
give_up-IsSafe id x h =
    let w = x.world in
    let kept = mark_outbox_retry-AllSafe x.redis.entries w.now id w.store h.0 in
    elim (Bool-cases (w.broken w.calls)) [
      | inl down ↦ rw down h
      | inr up ↦ elim (Bool-cases (w.broken (w.calls + 1))) [
        | inl down ↦ rw (up, down) (kept, h.1)
        | inr up' ↦ rw (up, up') (kept, kept)
      ]
    ]
