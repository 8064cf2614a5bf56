-- ===== src/Commerce/Payment/Steps.antt =====
-- The end of CompletePayment of backend/internal/commerce/repository.go, from the ledger to the commit,
-- while the database answers: each step with the world that it leaves.
use vps_billing_codex.Shared.{
  ℕ, ◌+◌, ◌≡◌, true, false, Option, none, some, [], ◌∷◌, ◌++◌, arith, refl, ap, ◌∙◌, sym, inl, inr,
}
use mathlib.Core.Path.{subst}
use vps_billing_codex.Shared.Int.{ℤ, pos}
use vps_billing_codex.Shared.Tx.{World, ok, IsUp, for_each, execute, commit, pure, ◌>>◌, >>-ok}
use vps_billing_codex.Store.{
  Database, Subscription, EventType, Payload, OutboxStatus, OutboxEvent, payment_data,
  payment_succeeded, subscription_renewed, renewal_data, subscription_status_text,
}
use vps_billing_codex.Commerce.Base.{Action}
use vps_billing_codex.Commerce.Ledger.{validate_balanced, is_running}
use vps_billing_codex.Commerce.Ledger.Balanced.{validate_balanced_iff}
use vps_billing_codex.Commerce.Payment.Statements.{
  Webhook, Locked, PaymentResult, is_posted, create_ledger_transaction, create_ledger_entry,
  mark_webhook_processed,
}
use vps_billing_codex.Commerce.Payment.Books.{first_entry, second_entry}
use vps_billing_codex.Commerce.Payment.{
  capture_entries, publish, post_capture, post_and_commit, publish_renewal,
}

capture_entries-accepted :
    (i j k : ℕ) (locked : Locked) (n : ℕ)
    → is_running (validate_balanced (capture_entries i j k locked (pos n))) ≡ true
capture_entries-accepted i j k locked n =
    (validate_balanced_iff (capture_entries i j k locked (pos n))).1
      (((ground arith, inl refl), ((ground arith, inr refl), tt)), λ c. ground arith)

-- The event row of a publication.
abbrev event_row : EventType → ℕ → Payload → World Database → OutboxEvent
event_row t a p w = record {
  id = w.next_id;
  event_type = t;
  aggregate_id = a;
  occurred_at = w.now;
  payload = p;
  status = OutboxStatus.pending;
  attempts = 0;
  next_attempt_at = w.now;
}

abbrev pub after_publish : EventType → ℕ → Payload → World Database → World Database
after_publish t a p w = record w {
  store = record (w.store) { outbox = w.store.outbox ++ event_row t a p w ∷ [] };
  next_id = w.next_id + 1;
  calls = w.calls + 1;
}

publish_lem :
    (t : EventType) (a : ℕ) (p : Payload) (w : World Database)
    → IsUp w
    → publish t a p w ≡ (ok tt, after_publish t a p w)
unfolding publish
publish_lem t a p w up = ground (arith, up w.calls)

-- The ledger block's world.
abbrev pub after_capture : Locked → ℤ → World Database → World Database
after_capture locked amount w = record w {
  store = record (w.store) {
    ledger_transactions =
        w.store.ledger_transactions
        ++ record {
          id = w.next_id;
          kind = "payment_capture";
          reference_type = "payment";
          reference_id = locked.payment.id;
        }
          ∷ [];
    ledger_entries =
        (w.store.ledger_entries ++ first_entry w.next_id locked amount ∷ [])
        ++ second_entry w.next_id locked amount ∷ [];
  };
  next_id = w.next_id + 1 + 1 + 1;
  calls = w.calls + 1 + 1 + 1;
}

post_capture_lem :
    (locked : Locked) (n : ℕ) (w : World Database)
    → IsUp w
    → is_posted locked.payment.id w.store.ledger_transactions ≡ false
    → post_capture locked (pos n) w ≡ (ok tt, after_capture locked (pos n) w)
unfolding post_capture for_each create_ledger_transaction create_ledger_entry
post_capture_lem locked n w up fresh = ground (
  arith,
  up w.calls,
  up (w.calls + 1),
  up (w.calls + 1 + 1),
  capture_entries-accepted (w.next_id + 1) (w.next_id + 1 + 1) w.next_id locked n,
)

abbrev pub after_renewal : ℕ → Option Subscription → World Database → World Database
after_renewal payment none w = w
after_renewal payment (some s) w =
    after_publish subscription_renewed s.id
      (renewal_data s.id s.user_id payment s.current_period_end (subscription_status_text s.status)
        s.version)
      w

publish_renewal_lem :
    (payment : ℕ) (row : Option Subscription) (w : World Database)
    → IsUp w
    → publish_renewal payment row w ≡ (ok tt, after_renewal payment row w)
unfolding publish_renewal
publish_renewal_lem payment none w up = refl
publish_renewal_lem payment (some s) w up =
    publish_lem subscription_renewed s.id
      (renewal_data s.id s.user_id payment s.current_period_end (subscription_status_text s.status)
        s.version)
      w up

-- Before the mark of the receipt.
abbrev pub after_events : Webhook → Locked → Option Subscription → World Database → World Database
after_events event locked row w = after_renewal locked.payment.id row (
    after_publish payment_succeeded locked.payment.id
      (payment_data locked.payment.id locked.order.id locked.order.user_id event.amount_minor
        locked.payment.currency)
      (after_capture locked event.amount_minor w))

abbrev pub finished : ℕ → World Database → World Database
finished id w =
    let db = mark_webhook_processed id w.store in
    record w { store = db; saved = db; calls = w.calls + 1 + 1 }

after_renewal-broken :
    (payment : ℕ) (row : Option Subscription) (w : World Database)
    → (after_renewal payment row w).broken ≡ w.broken
after_renewal-broken payment none w = refl
after_renewal-broken payment (some s) w = refl

abbrev finish : ℕ → PaymentResult → Action PaymentResult
finish id r = execute (mark_webhook_processed id) >> (commit >> pure r)

finish_lem :
    (id : ℕ) (r : PaymentResult) (w : World Database)
    → IsUp w
    → finish id r w ≡ (ok r, finished id w)
finish_lem id r w up = ground (arith, up w.calls, up (w.calls + 1))

abbrev pub captured_result : Locked → PaymentResult
captured_result locked = record {
  payment_id = locked.payment.id;
  order_id = locked.order.id;
  duplicate = false;
}

pub post_and_commit_lem :
    (event : Webhook) (id : ℕ) (locked : Locked) (row : Option Subscription) (n : ℕ)
    (w : World Database)
    → IsUp w
    → event.amount_minor ≡ pos n
    → is_posted locked.payment.id w.store.ledger_transactions ≡ false
    → post_and_commit event id locked row w
      ≡ (ok (captured_result locked), finished id (after_events event locked row w))
unfolding post_and_commit
post_and_commit_lem event id locked row n w up amount fresh =
    let r = captured_result locked in
    let pay =
      payment_data locked.payment.id locked.order.id locked.order.user_id event.amount_minor
        locked.payment.currency in
    let w1 = after_capture locked event.amount_minor w in
    let w2 = after_publish payment_succeeded locked.payment.id pay w1 in
    let w3 = after_renewal locked.payment.id row w2 in
    let tell = publish payment_succeeded locked.payment.id pay in
    let renew = publish_renewal locked.payment.id row in
    let posted : post_capture locked event.amount_minor w ≡ (ok tt, w1) =
      subst (λ a. post_capture locked a w ≡ (ok tt, after_capture locked a w)) (sym amount)
        (post_capture_lem locked n w up fresh) in
    >>-ok (post_capture locked event.amount_minor) (tell >> (renew >> finish id r)) posted
    ∙ >>-ok tell (renew >> finish id r) (publish_lem payment_succeeded locked.payment.id pay w1 up)
    ∙ >>-ok renew (finish id r) (publish_renewal_lem locked.payment.id row w2 up)
    ∙ finish_lem id r w3 (λ k. ap (λ b. b k) (after_renewal-broken locked.payment.id row w2) ∙ up k)
