-- ===== src/Outbox/Tests.antt =====
-- Runs of the dispatcher of backend/internal/outbox on a small table.
use vps_billing_codex.Shared.{
  ℕ, ◌+◌, ◌<◌, arith, ◌≡◌, ◌==◌, Bool, false, none, [], ◌∷◌, map, refl, length, order_by,
}
use vps_billing_codex.Shared.Int.{pos}
use vps_billing_codex.Shared.Tx.{ok, err, refused}
use vps_billing_codex.Store.{
  Database, empty_database, OutboxEvent, operation_queued, payment_succeeded, operation_data,
  payment_data, pending, published,
}
use vps_billing_codex.Outbox.{
  Wire, domain_events, operation_queue, message_of, process_batch, claim_outbox_events, batch_size,
  not_sent,
}
use vps_billing_codex.Outbox.Sent.{AllSafe}
use vps_billing_codex.Outbox.Lost.{published_were_sent}
use vps_billing_codex.Outbox.Batch.{published_of, queueing, process_batch_sends}
use vps_billing_codex.Outbox.Refused.{refused_send}

abbrev queued_event : OutboxEvent
queued_event = record {
  id = 1;
  event_type = operation_queued;
  aggregate_id = 9;
  occurred_at = 10;
  payload = operation_data 9 none "queued" none (pos 0) none false none "trace" false;
  status = pending;
  attempts = 2;
  next_attempt_at = 20;
}

abbrev paid_event : OutboxEvent
paid_event = record {
  id = 2;
  event_type = payment_succeeded;
  aggregate_id = 8;
  occurred_at = 11;
  payload = payment_data 8 7 6 (pos 500) "USD";
  status = pending;
  attempts = 0;
  next_attempt_at = 11;
}

abbrev old_event : OutboxEvent
old_event = record paid_event { id = 3; status = published }

abbrev rows : Database
rows = record empty_database { outbox = queued_event ∷ paid_event ∷ old_event ∷ [] }

abbrev wire : (ℕ → Bool) → (ℕ → Bool) → Wire
wire broken refuses = record {
  world = record {
    store = rows;
    saved = rows;
    now = 100;
    next_id = 1000;
    calls = 0;
    broken = broken;
    locked = λ _. false;
  };
  redis = record {
    entries = λ s. elim s [ domain_events ↦ message_of old_event ∷ [] | operation_queue ↦ [] ];
    sends = 0;
    refuses = refuses;
  };
}

abbrev answering : Wire
answering = wire (λ _. false) (λ _. false)

-- The commit fails, after the sends.
abbrev late_failure : Wire
late_failure = wire (λ n. n == 4) (λ _. false)

two_sends : (n : ℕ) → n < 2 → (0 + n == 2) ≡ false
two_sends n less = ground arith

published_were_sent_example :
    AllSafe (process_batch late_failure).1.redis.entries (process_batch late_failure).1.world.saved
published_were_sent_example =
    published_were_sent late_failure refl (refl, (refl, (refl, tt))) (refl, (refl, (refl, tt)))

process_batch_sends_example :
    let events = claim_outbox_events (λ _. false) 100 batch_size rows in
    let (r, y) = process_batch answering in
    (r ≡ ok (length events))
    × (y.world.saved ≡ record rows { outbox = published_of events rows.outbox })
    × (y.redis.entries domain_events ≡ message_of old_event ∷ map message_of events)
    × (y.redis.entries operation_queue ≡ map message_of (queueing events))
process_batch_sends_example = process_batch_sends answering (λ _. refl) (λ _. refl)

-- The first event is sent to both streams; the send of the second one is refused.
abbrev refusing : Wire
refusing = wire (λ _. false) (λ n. n == 2)

abbrev tried_again : OutboxEvent
tried_again = record paid_event { attempts = 1; next_attempt_at = 1000000100 }

refused_send_example :
    let (r, y) = process_batch refusing in
    (r ≡ err (refused (not_sent 2)))
    × (y.world.saved ≡ record rows {
      outbox = record queued_event { status = published } ∷ tried_again ∷ old_event ∷ [];
    })
    × (y.redis.entries domain_events ≡ message_of old_event ∷ message_of queued_event ∷ [])
    × (y.redis.entries operation_queue ≡ message_of queued_event ∷ [])
unfolding claim_outbox_events order_by
refused_send_example =
    refused_send refusing (queued_event ∷ []) paid_event [] (λ _. refl) refl
      (λ n less. two_sends n less) refl
