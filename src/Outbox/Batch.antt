-- ===== src/Outbox/Batch.antt =====
-- A batch of Dispatcher of backend/internal/outbox/dispatcher.go while the database answers, when Redis
-- takes every entry.
use vps_billing_codex.Shared.{
  ℕ, ◌+◌, ◌<◌, ◌≡◌, ◌==◌, eq_of_==, false, List, [], ◌∷◌, ◌++◌, map, arith, refl, ap, ◌∙◌, sym,
  length, where_, Bool-cases, inl, inr, if◌then◌else◌,
}
use mathlib.Core.List.{append_assoc, append-nil}
use vps_billing_codex.Shared.Tx.{ok, IsUp}
use vps_billing_codex.Store.{Database, OutboxEvent, published}
use vps_billing_codex.Shared.Table.{modify}
use vps_billing_codex.Shared.Keys.{has_key}
use vps_billing_codex.Outbox.{
  event_id_of, Redis, domain_events, operation_queue, message_of, Wire, IsTaking, proceed,
  is_queued_event, claim_outbox_events, mark_outbox_published, batch_size, send_queued,
  dispatch_one, dispatch_all, process_batch,
}
use vps_billing_codex.Outbox.Sent.{taken}

-- The rows after the events were marked.
abbrev pub mark_all : List OutboxEvent → Database → Database
mark_all [] db = db
mark_all (e ∷ es) db = mark_all es (mark_outbox_published e.id db)

-- The rows, those of some events as published and the others as they are.
abbrev pub published_of : List OutboxEvent → List OutboxEvent → List OutboxEvent
published_of events =
    map (λ e. if has_key event_id_of e.id events then record e { status = published } else e)

==_sym : (a b : ℕ) → (a == b) ≡ (b == a)
==_sym a b = elim (Bool-cases (a == b)) [
  | inl same ↦ rw (eq_of_== a b same) refl
  | inr other ↦ elim (Bool-cases (b == a)) [
    | inl same ↦ rw (eq_of_== b a same) refl
    | inr neither ↦ other ∙ sym neither
  ]
]

mark-published_of :
    (e : OutboxEvent) (es t : List OutboxEvent)
    → published_of es (modify event_id_of e.id (λ r. record r { status = published }) t)
      ≡ published_of (e ∷ es) t
mark-published_of e es [] = refl
mark-published_of e es (r ∷ t) =
    let same = ==_sym r.id e.id in ground (arith, mark-published_of e es t, same)

published_of-nothing : (t : List OutboxEvent) → published_of [] t ≡ t
published_of-nothing [] = refl
published_of-nothing (e ∷ t) = ap (λ s. e ∷ s) (published_of-nothing t)

pub mark_all-published_of :
    (es : List OutboxEvent) (db : Database)
    → mark_all es db ≡ record db { outbox = published_of es db.outbox }
unfolding mark_outbox_published
mark_all-published_of [] db =
    ap (λ t. record db { outbox = t }) (sym (published_of-nothing db.outbox))
mark_all-published_of (e ∷ es) db =
    mark_all-published_of es (mark_outbox_published e.id db)
    ∙ ap (λ t. record db { outbox = t }) (mark-published_of e es db.outbox)

-- How many entries an event and a list of events take, and that Redis takes the next k entries.
abbrev pub sends_of : OutboxEvent → ℕ
sends_of e = if is_queued_event e.event_type then 2 else 1

abbrev pub all_sends : List OutboxEvent → ℕ
all_sends [] = 0
all_sends (e ∷ es) = sends_of e + all_sends es

abbrev pub Takes : ℕ → Redis → Type 0
Takes k r = (n : ℕ) → n < k → r.refuses (r.sends + n) ≡ false

abbrev marked : OutboxEvent → Wire → Wire
marked e x = record x {
  world = record (x.world) {
    store = mark_outbox_published e.id x.world.store;
    calls = x.world.calls + 1;
  };
}

abbrev pub after_one : OutboxEvent → Wire → Wire
after_one e x =
    let y = taken domain_events e x in
    marked e (if is_queued_event e.event_type then taken operation_queue e y else y)

abbrev pub after_all : List OutboxEvent → Wire → Wire
after_all [] x = x
after_all (e ∷ es) x = after_all es (after_one e x)

pub dispatch_one_lem :
    (e : OutboxEvent) (x : Wire)
    → IsUp x.world
    → Takes (sends_of e) x.redis
    → dispatch_one e x ≡ (ok tt, after_one e x)
unfolding dispatch_one send_queued
dispatch_one_lem e x up taking = elim (Bool-cases (is_queued_event e.event_type)) [
  | inl queued_ ↦
      let first = taking 0 (rw queued_ (omega arith)) in
      let second_ = taking 1 (rw queued_ (omega arith)) in
      ground (arith, queued_, up x.world.calls, first, second_)
  | inr plain ↦
      let first = taking 0 (rw plain (omega arith)) in
      ground (arith, plain, up x.world.calls, first)
]

pub after_one-facts :
    (e : OutboxEvent) (k : ℕ) (x : Wire)
    → IsUp x.world
    → Takes (sends_of e + k) x.redis
    → IsUp (after_one e x).world × Takes k (after_one e x).redis
after_one-facts e k x up taking = elim (Bool-cases (is_queued_event e.event_type)) [
  | inl queued_ ↦
      let later = λ (n : ℕ) (less : n < k). taking (2 + n) (rw queued_ (omega arith)) in
      rw queued_ (up, λ n less. ground (arith, later n less))
  | inr plain ↦
      let later = λ (n : ℕ) (less : n < k). taking (1 + n) (rw plain (omega arith)) in
      rw plain (up, λ n less. ground (arith, later n less))
]

dispatch_all_lem :
    (es : List OutboxEvent) (x : Wire)
    → IsUp x.world
    → Takes (all_sends es) x.redis
    → dispatch_all es x ≡ (ok tt, after_all es x)
unfolding dispatch_all
dispatch_all_lem [] x up taking = refl
dispatch_all_lem (e ∷ es) x up taking =
    let facts = after_one-facts e (all_sends es) x up taking in
    ap (proceed (λ _. dispatch_all es)) (dispatch_one_lem e x up (λ n less. taking n (omega arith)))
    ∙ dispatch_all_lem es (after_one e x) facts.0 facts.1

-- The events that go to the second stream as well.
abbrev pub queueing : List OutboxEvent → List OutboxEvent
queueing es = where_ (λ e. is_queued_event e.event_type) es

queueing-cons :
    (e : OutboxEvent) (es : List OutboxEvent)
    → map message_of (queueing (e ∷ es))
      ≡ map message_of (queueing (e ∷ [])) ++ map message_of (queueing es)
queueing-cons e es = elim (Bool-cases (is_queued_event e.event_type)) [
  | inl queued_ ↦ rw queued_ refl
  | inr plain ↦ rw plain refl
]

after_one-rows :
    (e : OutboxEvent) (x : Wire)
    → ((after_one e x).world.store ≡ mark_outbox_published e.id x.world.store)
      × ((after_one e x).world.broken ≡ x.world.broken)
      × ((after_one e x).redis.entries domain_events
          ≡ x.redis.entries domain_events ++ message_of e ∷ [])
      × ((after_one e x).redis.entries operation_queue
          ≡ x.redis.entries operation_queue ++ map message_of (queueing (e ∷ [])))
after_one-rows e x = elim (Bool-cases (is_queued_event e.event_type)) [
  | inl queued_ ↦ rw queued_ (refl, refl, refl, refl)
  | inr plain ↦ rw plain (refl, refl, refl, sym (append-nil (x.redis.entries operation_queue)))
]

-- What a batch of events leaves in the database and in the streams.
pub after_all-rows :
    (es : List OutboxEvent) (x : Wire)
    → ((after_all es x).world.store ≡ mark_all es x.world.store)
      × ((after_all es x).world.broken ≡ x.world.broken)
      × ((after_all es x).redis.entries domain_events
          ≡ x.redis.entries domain_events ++ map message_of es)
      × ((after_all es x).redis.entries operation_queue
          ≡ x.redis.entries operation_queue ++ map message_of (queueing es))
after_all-rows [] x = (
  refl,
  refl,
  sym (append-nil (x.redis.entries domain_events)),
  sym (append-nil (x.redis.entries operation_queue)),
)
after_all-rows (e ∷ es) x =
    let h = after_all-rows es (after_one e x) in
    let r = after_one-rows e x in
    let m = message_of e ∷ [] in
    (
      h.0 ∙ ap (mark_all es) r.0,
      h.1 ∙ r.1,
      h.2
          ∙ ap (λ t. t ++ map message_of es) r.2
          ∙ append_assoc (x.redis.entries domain_events) m (map message_of es),
      h.3
          ∙ ap (λ t. t ++ map message_of (queueing es)) r.3
          ∙ append_assoc (x.redis.entries operation_queue) (map message_of (queueing (e ∷ [])))
              (map message_of (queueing es))
          ∙ ap (λ t. x.redis.entries operation_queue ++ t) (sym (queueing-cons e es)),
    )

abbrev ended : Wire → Wire
ended z = record z { world = record (z.world) { saved = z.world.store; calls = z.world.calls + 1 } }

-- While the database and Redis answer, ProcessBatch sends every claimed event to the stream of all
-- events, in order, and those that queue an operation to the other stream as well; it sets the status
-- of exactly the rows with their ids to published, commits, and returns how many events it claimed.
pub process_batch_sends :
    (x : Wire)
    → IsUp x.world
    → IsTaking x.redis
    → let w = x.world in
      let events = claim_outbox_events w.locked w.now batch_size w.store in
      let (r, y) = process_batch x in
      (r ≡ ok (length events))
      × (y.world.saved ≡ record (w.store) { outbox = published_of events w.store.outbox })
      × (y.redis.entries domain_events ≡ x.redis.entries domain_events ++ map message_of events)
      × (y.redis.entries operation_queue
          ≡ x.redis.entries operation_queue ++ map message_of (queueing events))
unfolding process_batch
process_batch_sends x up taking =
    let w = x.world in
    let events = claim_outbox_events w.locked w.now batch_size w.store in
    let y : Wire = record x { world = record w { calls = w.calls + 1 + 1 } } in
    let z = after_all events y in
    let run = dispatch_all_lem events y up (λ n less. taking (x.redis.sends + n)) in
    let rows = after_all-rows events y in
    let alive : z.world.broken z.world.calls ≡ false =
      ap (λ b. b z.world.calls) rows.1 ∙ up z.world.calls in
    let all : process_batch x ≡ (ok (length events), ended z) =
      ground (arith, up w.calls, up (w.calls + 1), run, alive) in
    (
      ap (λ p. p.0) all,
      ap (λ p. p.1.world.saved) all ∙ rows.0 ∙ mark_all-published_of events w.store,
      ap (λ p. p.1.redis.entries domain_events) all ∙ rows.2,
      ap (λ p. p.1.redis.entries operation_queue) all ∙ rows.3,
    )
