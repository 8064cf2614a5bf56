-- ===== src/Commerce/Payment/Atomic.antt =====
-- CompletePayment of backend/internal/commerce/repository.go either commits everything or nothing.
use Prim.Native.String.{String}
use vps_billing_codex.Shared.{ℕ, ◌+◌, ◌≡◌, Option, none, some, arith, refl}
use vps_billing_codex.Shared.Int.{ℤ}
use vps_billing_codex.Shared.Tx.{World, Error, err, for_each}
use vps_billing_codex.Store.{Database, Subscription, EventType, Payload}
use vps_billing_codex.Commerce.Base.{CommerceError, Library}
use vps_billing_codex.Commerce.Payment.Statements.{Webhook, Locked, insert_webhook_receipt}
use vps_billing_codex.Commerce.Payment.{
  publish, renew_invoiced, post_capture, publish_renewal, post_and_commit, capture, first_delivery,
  redelivery, by_receipt, complete_payment,
}

publish-saved :
    (t : EventType) (a : ℕ) (p : Payload) (w : World Database) → (publish t a p w).1.saved ≡ w.saved
unfolding publish
publish-saved t a p w = ground arith

renew_invoiced-saved :
    (lib : Library) (o : Option ℕ) (w : World Database) → (renew_invoiced lib o w).1.saved ≡ w.saved
unfolding renew_invoiced
renew_invoiced-saved lib none w = refl
renew_invoiced-saved lib (some id) w = ground arith

post_capture-saved :
    (locked : Locked) (amount : ℤ) (w : World Database)
    → (post_capture locked amount w).1.saved ≡ w.saved
unfolding post_capture for_each
post_capture-saved locked amount w = ground arith

publish_renewal-saved :
    (p : ℕ) (s : Option Subscription) (w : World Database)
    → (publish_renewal p s w).1.saved ≡ w.saved
unfolding publish_renewal
publish_renewal-saved p none w = refl
publish_renewal-saved p (some s) w = ground arith

post_and_commit_atomic :
    (event : Webhook) (id : ℕ) (locked : Locked) (row : Option Subscription) (w : World Database)
    {e : Error CommerceError}
    → (post_and_commit event id locked row w).0 ≡ err e
    → (post_and_commit event id locked row w).1.saved ≡ w.saved
unfolding post_and_commit
post_and_commit_atomic event id locked row w failed =
    grind (arith, publish-saved, post_capture-saved, publish_renewal-saved)

capture_atomic :
    (lib : Library) (event : Webhook) (payload : String) (id : ℕ) (locked : Locked)
    (w : World Database) {e : Error CommerceError}
    → (capture lib event payload id locked w).0 ≡ err e
    → (capture lib event payload id locked w).1.saved ≡ w.saved
unfolding capture
capture_atomic lib event payload id locked w failed =
    grind (arith, renew_invoiced-saved, post_and_commit_atomic)

first_delivery_atomic :
    (lib : Library) (event : Webhook) (payload : String) (id : ℕ) (w : World Database)
    {e : Error CommerceError}
    → (first_delivery lib event payload id w).0 ≡ err e
    → (first_delivery lib event payload id w).1.saved ≡ w.saved
unfolding first_delivery
first_delivery_atomic lib event payload id w failed = grind (arith, capture_atomic)

redelivery-saved :
    (lib : Library) (event : Webhook) (payload : String) (w : World Database)
    → (redelivery lib event payload w).1.saved ≡ w.saved
unfolding redelivery
redelivery-saved lib event payload w = ground arith

by_receipt_atomic :
    (lib : Library) (event : Webhook) (payload : String) (o : Option ℕ) (w : World Database)
    {e : Error CommerceError}
    → (by_receipt lib event payload o w).0 ≡ err e
    → (by_receipt lib event payload o w).1.saved ≡ w.saved
by_receipt_atomic lib event payload none w failed = redelivery-saved lib event payload w
by_receipt_atomic lib event payload (some id) w failed =
    first_delivery_atomic lib event payload id w failed

-- The world in which a webhook is handled after its receipt was offered.
abbrev pub offered : Webhook → String → World Database → World Database
offered event payload w = record w {
  store = (insert_webhook_receipt w.next_id event.event_id payload w.store).1;
  next_id = w.next_id + 1;
  calls = w.calls + 1 + 1;
}

-- A webhook that ends in an error, at whatever statement or check, leaves every committed row as it
-- was, its receipt included.
pub complete_payment_atomic :
    (lib : Library) (event : Webhook) (payload : String) (w : World Database)
    {e : Error CommerceError}
    → (complete_payment lib event payload w).0 ≡ err e
    → (complete_payment lib event payload w).1.saved ≡ w.saved
unfolding complete_payment
complete_payment_atomic lib event payload w {e} failed = ground (
  arith,
  by_receipt_atomic lib event payload
      (insert_webhook_receipt w.next_id event.event_id payload w.store).0 (offered event payload w)
      {e = e},
)
