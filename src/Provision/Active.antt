-- ===== src/Provision/Active.antt =====
-- A provisioning run that ends without an error activates its subscription: Execute of
-- backend/internal/provision/workflow.go with Finalize of repository.go.
use vps_billing_codex.Shared.{
  ℕ, ◌≡◌, Bool, false, none, some, List, arith, inl, inr, refl, sym, Option-cases, ==_refl,
}
use mathlib.Core.Path.{subst}
use vps_billing_codex.Shared.Table.{get, get-modify}
use vps_billing_codex.Shared.Tx.{◌>>◌, select, execute, change_row, or_fail, commit, no_rows}
use vps_billing_codex.Shared.Ends.{Ends, Ends-then, Ends-last, Ends-commit, Ends-transaction}
use vps_billing_codex.Shared.Frame.{Preserves, Preserves->>=, Preserves-execute, change_row-inv}
use vps_billing_codex.Store.{
  Database, Subscription, subscription_activated, instance_running, activation_data, instance_data,
  subscription_status_text,
}
use vps_billing_codex.Operation.Aside.{Holds}
use vps_billing_codex.Infrastructure.{reservation_id_of}
use vps_billing_codex.Provision.{
  ProvisionError, Action, Names, Placement, subscription_id_of, is_active, activated,
  activate_subscription, mark_fulfilled_if_ready, create_notification, create_domain_event,
}
use vps_billing_codex.Provision.Finalize.{
  Context, activate, activate_unless, notification_for, settle_by, finalize,
}

-- The subscription with that id is active.
abbrev pub has_active : ℕ → List Subscription → Bool
has_active id t = elim (get subscription_id_of id t) [ none ↦ false | some s ↦ is_active s.status ]

abbrev pub IsActivated : ℕ → Database → Type 0
IsActivated id = Holds (λ t _. has_active id t)

activate_subscription-IsActivated :
    (names : Names) (id now : ℕ) (db : Database) (p : Subscription × Database)
    → activate_subscription names id now db ≡ some p
    → IsActivated id p.1
unfolding activate_subscription activated
activate_subscription-IsActivated names id now db p met =
    elim (Option-cases (get subscription_id_of id db.subscriptions)) [
      | inl missing ↦ absurd (ground (arith, missing, met))
      | inr (s, found) ↦ ground (
        arith,
        found,
        met,
        ==_refl id,
        get-modify subscription_id_of (activated names now) (λ _. refl) id id db.subscriptions,
      )
    ]

module _ (id : ℕ) where
  abbrev Stays : {A : Type 0} → Action A → Type 0
  Stays = Preserves ProvisionError (IsActivated id)

  mark-Stays : (order : ℕ) → Stays (execute (mark_fulfilled_if_ready order))
  unfolding mark_fulfilled_if_ready
  mark-Stays order =
      Preserves-execute ProvisionError (IsActivated id) (mark_fulfilled_if_ready order)
        (λ db h. ground arith)

  notification-Stays :
      (names : Names) (c : Context)
      → Stays (execute (create_notification (notification_for names c)))
  unfolding create_notification
  notification-Stays names c =
      Preserves-execute ProvisionError (IsActivated id)
        (create_notification (notification_for names c)) (λ db h. ground arith)

  event-Stays : (t : _) (k : ℕ) (p : _) → Stays (create_domain_event t k p)
  unfolding create_domain_event
  event-Stays t k p w s = ground arith

-- What follows the activation of the row.
abbrev announce : Names → Context → Subscription → Action (Unit {0})
announce names c s =
    execute (mark_fulfilled_if_ready c.source_order_id)
    >> (execute (create_notification (notification_for names c))
        >> (create_domain_event subscription_activated s.id
              (activation_data s.id s.user_id c.row.instance.id (subscription_status_text s.status))
            >> create_domain_event instance_running c.row.instance.id (
                instance_data c.row.instance.id c.row.subscription.user_id c.row.subscription.id
                  "running")))

announce-Stays :
    (id : ℕ) (names : Names) (c : Context) (s : Subscription) → Stays id (announce names c s)
announce-Stays id names c s =
    Preserves->>= ProvisionError (IsActivated id)
      (execute (mark_fulfilled_if_ready c.source_order_id)) _ (mark-Stays id c.source_order_id)
      (λ _.
        Preserves->>= ProvisionError (IsActivated id)
          (execute (create_notification (notification_for names c))) _
          (notification-Stays id names c)
          (λ _.
            Preserves->>= ProvisionError (IsActivated id)
              (create_domain_event subscription_activated s.id _) _
              (event-Stays id subscription_activated s.id _)
              (λ _. event-Stays id instance_running c.row.instance.id _)))

activate-IsActivated :
    (names : Names) (c : Context)
    → Ends ProvisionError (λ w. IsActivated c.row.subscription.id w.store) (activate names c)
unfolding activate
activate-IsActivated names c w =
    let id = c.row.subscription.id in
    Ends-then (λ v. IsActivated id v.store) (λ v. IsActivated id v.store)
      (change_row (activate_subscription names id w.now) no_rows) (announce names c)
      (λ v s made.
        activate_subscription-IsActivated names id w.now v.store _
          (change_row-inv (activate_subscription names id w.now) no_rows v made))
      (λ s v h b e. announce-Stays id names c s v h) w

-- Finalize for a subscription that was not active leaves it active, in the session and committed.
pub finalize-IsActivated :
    (names : Names) (c : Context) (p : Placement)
    → is_active c.row.subscription.status ≡ false
    → Ends ProvisionError
        (λ w. IsActivated c.row.subscription.id w.store × IsActivated c.row.subscription.id w.saved)
        (finalize names c p)
unfolding finalize
finalize-IsActivated names c p fresh =
    let id = c.row.subscription.id in
    let unless = activate_unless names c (is_active c.row.subscription.status) in
    let activated_ : Ends ProvisionError (λ w. IsActivated id w.store) unless =
      subst (λ b. Ends ProvisionError (λ w. IsActivated id w.store) (activate_unless names c b))
        (sym fresh) (activate-IsActivated names c) in
    Ends-transaction (IsActivated id) _ (
      Ends-last (λ w. IsActivated id w.saved)
        (select (λ (db : Database). get reservation_id_of p.reservation_id db.reservations)) _
        (λ found.
          Ends-last (λ w. IsActivated id w.saved) (or_fail found no_rows) _
            (λ r.
              Ends-last (λ w. IsActivated id w.saved) (settle_by r.status r) (λ _. unless >> commit)
                (λ _. Ends-commit (IsActivated id) unless activated_))))
