-- ===== src/Outbox/Agree.antt =====
-- The loop of Dispatcher of backend/internal/outbox/dispatcher.go: how its body ends, and that rows keep
-- their kind of event meanwhile.
use vps_billing_codex.Shared.{
  ℕ, ◌+◌, ◌≡◌, Bool, true, false, not, ◌&&◌, ◌||◌, List, [], ◌∷◌, arith, refl, All, ◌==◌, inl, inr,
  Bool-cases, ap, ◌∙◌, leb, where_, order_by, All-take, All-order_by, All-where,
}
use vps_billing_codex.Shared.Table.{modify}
use vps_billing_codex.Shared.Keys.{has_key, IsDistinct}
use vps_billing_codex.Shared.Tx.{execute}
use vps_billing_codex.Store.{Database, OutboxEvent, published}
use vps_billing_codex.Outbox.{
  domain_events, operation_queue, Wire, Sender, event_id_of, is_pending, is_queued_event,
  mark_outbox_published, mark_outbox_retry, retry_delay, give_up, send_queued, proceed,
  dispatch_one, lift, claim_outbox_events,
}
use vps_billing_codex.Outbox.Sent.{skipped, taken}

-- A row with the id of a claimed event is not the row of another kind of event.
abbrev pub agrees : OutboxEvent → OutboxEvent → Bool
agrees e r =
    not (r.id == e.id) || (not (is_queued_event r.event_type) || is_queued_event e.event_type)

abbrev pub all_agree : OutboxEvent → List OutboxEvent → Bool
all_agree e [] = true
all_agree e (r ∷ t) = agrees e r && all_agree e t

pub all_agree-mark :
    (e : OutboxEvent) (id : ℕ) (db : Database)
    → all_agree e (mark_outbox_published id db).outbox ≡ all_agree e db.outbox
unfolding mark_outbox_published
all_agree-mark e id db = go db.outbox
  where
    go :
        (t : List OutboxEvent)
        → all_agree e (modify event_id_of id (λ r. record r { status = published }) t)
          ≡ all_agree e t
    go [] = refl
    go (r ∷ t) = ground (arith, go t)

pub all_agree-retry :
    (e : OutboxEvent) (now id : ℕ) (db : Database)
    → all_agree e (mark_outbox_retry now id db).outbox ≡ all_agree e db.outbox
unfolding mark_outbox_retry
all_agree-retry e now id db = go db.outbox
  where
    go :
        (t : List OutboxEvent)
        → all_agree e (
            modify event_id_of id
              (λ r. record r {
                attempts = r.attempts + 1;
                next_attempt_at = now + retry_delay r.attempts;
              })
              t)
          ≡ all_agree e t
    go [] = refl
    go (r ∷ t) = ground (arith, go t)

pub give_up-stops :
    (f : Unit {0} → Sender (Unit {0})) (id : ℕ) (x : Wire)
    → (proceed f (give_up id x)).1 ≡ (give_up id x).1
unfolding give_up
give_up-stops f id x = ground arith

-- How the loop's body ends: Redis refused one of the sends, or took them all.
pub data Ending (e : OutboxEvent) (x y : Wire) : Type 0 where
  first_refused : y ≡ (give_up e.id (skipped x)).1 → Ending e x y
  second_refused : y ≡ (give_up e.id (skipped (taken domain_events e x))).1 → Ending e x y
  sent_once :
      is_queued_event e.event_type ≡ false
      → y ≡ (lift (execute (mark_outbox_published e.id)) (taken domain_events e x)).1
      → Ending e x y
  sent_twice :
      y
        ≡ (lift
            (execute (mark_outbox_published e.id))
            (taken operation_queue e (taken domain_events e x))).1
      → Ending e x y

pub dispatch_one-Ending : (e : OutboxEvent) (x : Wire) → Ending e x (dispatch_one e x).1
unfolding dispatch_one send_queued
dispatch_one-Ending e x = elim (Bool-cases (x.redis.refuses x.redis.sends)) [
  | inl down ↦ first_refused (ground (arith, down))
  | inr went ↦ elim (Bool-cases (is_queued_event e.event_type)) [
    | inr plain ↦ sent_once plain (ground (arith, went, plain))
    | inl queued_ ↦ elim (Bool-cases (x.redis.refuses (x.redis.sends + 1))) [
      | inl down' ↦ second_refused (
          ground (
            arith,
            went,
            queued_,
            down',
            give_up-stops (λ _. lift (execute (mark_outbox_published e.id))) e.id
                (skipped (taken domain_events e x)),
          ))
      | inr went' ↦ sent_twice (ground (arith, went, queued_, went'))
    ]
  ]
]

pub dispatch_one-all_agree :
    (e e' : OutboxEvent) (x y : Wire)
    → Ending e x y
    → all_agree e' y.world.store.outbox ≡ all_agree e' x.world.store.outbox
unfolding give_up
dispatch_one-all_agree e e' x y (first_refused p) =
    ap (λ z. all_agree e' z.world.store.outbox) p
    ∙ ground (arith, all_agree-retry e' x.world.now e.id x.world.store)
dispatch_one-all_agree e e' x y (second_refused p) =
    ap (λ z. all_agree e' z.world.store.outbox) p
    ∙ ground (arith, all_agree-retry e' x.world.now e.id x.world.store)
dispatch_one-all_agree e e' x y (sent_once plain p) =
    ap (λ z. all_agree e' z.world.store.outbox) p
    ∙ ground (arith, all_agree-mark e' e.id x.world.store)
dispatch_one-all_agree e e' x y (sent_twice p) =
    ap (λ z. all_agree e' z.world.store.outbox) p
    ∙ ground (arith, all_agree-mark e' e.id x.world.store)

abbrev pub AllAgree : List OutboxEvent → List OutboxEvent → Type 0
AllAgree t es = All (λ e. all_agree e t ≡ true) es

pub agree_of_absent :
    (e : OutboxEvent) (t : List OutboxEvent)
    → has_key event_id_of e.id t ≡ false
    → all_agree e t ≡ true
agree_of_absent e [] h = refl
agree_of_absent e (r ∷ t) h = ground (arith, agree_of_absent e t)

pub agree-cons :
    (r : OutboxEvent) (t ss : List OutboxEvent)
    → has_key event_id_of r.id ss ≡ false
    → AllAgree t ss
    → AllAgree (r ∷ t) ss
agree-cons r t [] absent h = tt
agree-cons r t (s ∷ ss) absent h = (ground (arith, h.0), agree-cons r t ss (ground arith) h.1)

pub agree_of_distinct : (t : List OutboxEvent) → IsDistinct event_id_of t → AllAgree t t
agree_of_distinct [] h = tt
agree_of_distinct (r ∷ t) h =
    (ground (arith, agree_of_absent r t h.0), agree-cons r t t h.0 (agree_of_distinct t h.1))

pub claimed-AllAgree :
    (locked : ℕ → Bool) (now limit : ℕ) (db : Database)
    → IsDistinct event_id_of db.outbox
    → AllAgree db.outbox (claim_outbox_events locked now limit db)
unfolding claim_outbox_events
claimed-AllAgree locked now limit db distinct =
    let P = λ (e : OutboxEvent). all_agree e db.outbox ≡ true in
    let wanted =
      where_ (λ e. is_pending e.status && leb e.next_attempt_at now && not (locked e.id))
        db.outbox in
    let before = λ (a b : OutboxEvent). leb a.occurred_at b.occurred_at in
    All-take P limit (order_by before wanted) (
      All-order_by P before wanted (
        All-where P (λ e. is_pending e.status && leb e.next_attempt_at now && not (locked e.id))
          db.outbox (agree_of_distinct db.outbox distinct)))
