-- ===== src/Outbox/Refused.antt =====
-- A batch of Dispatcher of backend/internal/outbox/dispatcher.go while the database answers, when Redis
-- refuses an entry.
use vps_billing_codex.Shared.{
  ℕ, ◌+◌, ◌*◌, ◌^◌, ◌≡◌, true, List, [], ◌∷◌, ◌++◌, map, arith, refl, ap, ◌∙◌, Bool-cases, inl, inr,
}
use vps_billing_codex.Shared.Tx.{err, refused, IsUp}
use vps_billing_codex.Store.{Database, OutboxEvent}
use vps_billing_codex.Shared.Table.{modify}
use vps_billing_codex.Outbox.{
  event_id_of, domain_events, operation_queue, message_of, Wire, proceed, is_queued_event,
  claim_outbox_events, mark_outbox_retry, retry_delay, least, batch_size, give_up, dispatch_one,
  dispatch_all, process_batch, not_sent,
}
use vps_billing_codex.Outbox.Sent.{skipped}
use Prim.Native.Nat.{min}
use vps_billing_codex.Outbox.Batch.{
  published_of, mark_all-published_of, all_sends, Takes, after_all, after_one, after_one-facts,
  sends_of, dispatch_one_lem, after_all-rows, queueing,
}

least-min : (a b : ℕ) → least a b ≡ min a b
least-min a b = ground arith

-- The transaction's end after a send that Redis refused.
abbrev gave_up : OutboxEvent → Wire → Wire
gave_up e z =
    let rows = mark_outbox_retry z.world.now e.id z.world.store in
    record (skipped z) {
      world = record (z.world) { store = rows; saved = rows; calls = z.world.calls + 1 + 1 };
    }

dispatch-refused :
    (e : OutboxEvent) (after : List OutboxEvent) (z : Wire)
    → IsUp z.world
    → z.redis.refuses z.redis.sends ≡ true
    → dispatch_all (e ∷ after) z ≡ (err (refused (not_sent e.id)), gave_up e z)
unfolding dispatch_all dispatch_one give_up
dispatch-refused e after z up down = ground (arith, down, up z.world.calls, up (z.world.calls + 1))

after_one-sends :
    (e : OutboxEvent) (k : ℕ) (x : Wire)
    → (after_one e x).redis.refuses ((after_one e x).redis.sends + k)
      ≡ x.redis.refuses (x.redis.sends + (sends_of e + k))
after_one-sends e k x = elim (Bool-cases (is_queued_event e.event_type)) [
  | inl queued_ ↦ rw queued_ (ap x.redis.refuses (omega arith))
  | inr plain ↦ rw plain (ap x.redis.refuses (omega arith))
]

dispatch_all-refused :
    (before : List OutboxEvent) (e : OutboxEvent) (after : List OutboxEvent) (x : Wire)
    → IsUp x.world
    → Takes (all_sends before) x.redis
    → x.redis.refuses (x.redis.sends + all_sends before) ≡ true
    → dispatch_all (before ++ e ∷ after) x
      ≡ (err (refused (not_sent e.id)), gave_up e (after_all before x))
unfolding dispatch_all
dispatch_all-refused [] e after x up taking down =
    dispatch-refused e after x up (ap x.redis.refuses (omega arith) ∙ down)
dispatch_all-refused (d ∷ ds) e after x up taking down =
    let facts = after_one-facts d (all_sends ds) x up taking in
    ap (proceed (λ _. dispatch_all (ds ++ e ∷ after)))
      (dispatch_one_lem d x up (λ n less. taking n (omega arith)))
    ∙ dispatch_all-refused ds e after (after_one d x) facts.0 facts.1
        (after_one-sends d (all_sends ds) x ∙ down)

after_all-now : (es : List OutboxEvent) (x : Wire) → (after_all es x).world.now ≡ x.world.now
after_all-now [] x = refl
after_all-now (e ∷ es) x =
    after_all-now es (after_one e x) ∙ (elim (Bool-cases (is_queued_event e.event_type)) [
      | inl queued_ ↦ rw queued_ refl
      | inr plain ↦ rw plain refl
    ])

retry-rows :
    (now id : ℕ) (db : Database)
    → mark_outbox_retry now id db ≡ record db {
      outbox =
          modify event_id_of id
            (λ o. record o {
              attempts = o.attempts + 1;
              next_attempt_at = now + min 300 (2 ^ min o.attempts 8) * 1000000000;
            })
            db.outbox;
    }
unfolding mark_outbox_retry retry_delay
retry-rows now id db =
    ap
      (λ (delay : ℕ → ℕ). record db {
        outbox =
            modify event_id_of id
              (λ o. record o {
                attempts = o.attempts + 1;
                next_attempt_at = now + delay o.attempts * 1000000000;
              })
              db.outbox;
      })
      (λ i n. (ap (λ k. least 300 (2 ^ k)) (least-min n 8) ∙ least-min 300 (2 ^ min n 8)) i)

-- A send that Redis refuses: while the database answers, ProcessBatch whose claimed events Redis takes
-- up to one, which it refuses to add to the stream of all events, sends the ones before it to their
-- streams, and commits these as published and, for the refused event, one more attempt, the next one
-- at the earliest after 2 to the number of attempts seconds, with at most 8 as the exponent and at
-- most 300 seconds. It leaves every other row and table, sends no later event, and returns an error
-- that names the refused one.
pub refused_send :
    (x : Wire) (before : List OutboxEvent) (e : OutboxEvent) (after : List OutboxEvent)
    → IsUp x.world
    → claim_outbox_events x.world.locked x.world.now batch_size x.world.store ≡ before ++ e ∷ after
    → Takes (all_sends before) x.redis
    → x.redis.refuses (x.redis.sends + all_sends before) ≡ true
    → let w = x.world in
      let (r, y) = process_batch x in
      (r ≡ err (refused (not_sent e.id)))
      × (y.world.saved ≡ record (w.store) {
        outbox =
            modify event_id_of e.id
              (λ o. record o {
                attempts = o.attempts + 1;
                next_attempt_at = w.now + min 300 (2 ^ min o.attempts 8) * 1000000000;
              })
              (published_of before w.store.outbox);
      })
      × (y.redis.entries domain_events ≡ x.redis.entries domain_events ++ map message_of before)
      × (y.redis.entries operation_queue
          ≡ x.redis.entries operation_queue ++ map message_of (queueing before))
unfolding process_batch
refused_send x before e after up claimed taking down =
    let w = x.world in
    let y : Wire = record x { world = record w { calls = w.calls + 1 + 1 } } in
    let z = after_all before y in
    let run = dispatch_all-refused before e after y up taking down in
    let rows = after_all-rows before y in
    let all : process_batch x ≡ (err (refused (not_sent e.id)), gave_up e z) =
      ground (arith, up w.calls, up (w.calls + 1), claimed, run) in
    (
      ap (λ p. p.0) all,
      ap (λ p. p.1.world.saved) all
          ∙ ap (λ n. mark_outbox_retry n e.id z.world.store) (after_all-now before y)
          ∙ ap (mark_outbox_retry w.now e.id) (rows.0 ∙ mark_all-published_of before w.store)
          ∙ retry-rows w.now e.id
              (record (w.store) { outbox = published_of before w.store.outbox }),
      ap (λ p. p.1.redis.entries domain_events) all ∙ rows.2,
      ap (λ p. p.1.redis.entries operation_queue) all ∙ rows.3,
    )
