-- ===== src/Outbox.antt =====
-- backend/internal/outbox/dispatcher.go: the worker that moves events from the outbox table to Redis
-- streams, with its statements of backend/internal/store/sqlc/commerce.sql.go. A message that Redis has
-- taken stays there when the transaction is rolled back, so the streams stand beside the session.
mod Session
pub use Session.*
pub mod Sent
pub mod Agree
pub mod Lost
pub mod Batch
pub mod Refused
mod Tests
use vps_billing_codex.Shared.{
  ℕ, ◌+◌, ◌*◌, ◌^◌, Bool, true, false, not, ◌&&◌, List, [], ◌∷◌, leb, ltb, if◌then◌else◌, where_,
  order_by, take, length,
}
use vps_billing_codex.Shared.Table.{modify}
use vps_billing_codex.Shared.Tx.{Error, refused, select, execute, clock, lock_table, commit}
use vps_billing_codex.Store.{
  Database, OutboxEvent, OutboxStatus, EventType, operation_queued, pending, published,
}

abbrev pub event_id_of : OutboxEvent → ℕ
event_id_of e = e.id

abbrev pub is_pending : OutboxStatus → Bool
is_pending pending = true
is_pending published = false

abbrev pub is_queued_event : EventType → Bool
is_queued_event operation_queued = true
is_queued_event _ = false

-- ClaimOutboxEvents; created_at is when the event was written.
unfoldable pub claim_outbox_events : (ℕ → Bool) → ℕ → ℕ → Database → List OutboxEvent
claim_outbox_events locked now limit db = take limit (
    order_by (λ a b. leb a.occurred_at b.occurred_at)
      (where_ (λ e. is_pending e.status && leb e.next_attempt_at now && not (locked e.id))
        db.outbox))

-- MarkOutboxPublished
unfoldable pub mark_outbox_published : ℕ → Database → Database
mark_outbox_published id db = record db {
  outbox = modify event_id_of id (λ e. record e { status = published }) db.outbox;
}

abbrev pub least : ℕ → ℕ → ℕ
least a b = if leb a b then a else b

-- The seconds of LEAST(300, (1 << LEAST(attempts, 8))), in nanoseconds.
unfoldable pub retry_delay : ℕ → ℕ
retry_delay attempts = least 300 (2 ^ least attempts 8) * 1000000000

-- MarkOutboxRetry
unfoldable pub mark_outbox_retry : ℕ → ℕ → Database → Database
unfolding retry_delay
mark_outbox_retry now id db = record db {
  outbox =
      modify event_id_of id
        (λ e. record e {
          attempts = e.attempts + 1;
          next_attempt_at = now + retry_delay e.attempts;
        })
        db.outbox;
}

-- A send that Redis refused: the retry is recorded and committed, and the batch ends in an error.
unfoldable pub give_up : ℕ → Sender (Unit {0})
unfolding mark_outbox_retry
give_up id = do
  now ← lift clock
  lift (execute (mark_outbox_retry now id))
  lift commit
  stop (refused (not_sent id))

-- The second stream, for queued operations.
unfoldable pub send_queued : OutboxEvent → Sender (Unit {0})
send_queued e =
    if is_queued_event e.event_type
    then (do sent ← xadd operation_queue e; if sent then done tt else give_up e.id)
    else done tt

-- The body of ProcessBatch's loop.
unfoldable pub dispatch_one : OutboxEvent → Sender (Unit {0})
unfolding mark_outbox_published
dispatch_one e = do
  sent ← xadd domain_events e
  if sent then (do send_queued e; lift (execute (mark_outbox_published e.id))) else give_up e.id

unfoldable pub dispatch_all : List OutboxEvent → Sender (Unit {0})
dispatch_all [] = done tt
dispatch_all (e ∷ es) = dispatch_one e >> dispatch_all es

abbrev pub batch_size : ℕ
batch_size = 50

-- Dispatcher.ProcessBatch
unfoldable pub process_batch : Sender ℕ
unfolding claim_outbox_events
process_batch = in_transaction (do
  locked ← lift lock_table
  now ← lift clock
  events ← lift (select (claim_outbox_events locked now batch_size))
  dispatch_all events
  lift commit
  done (length events))
