-- ===== src/Provision/Fulfilled.antt =====
-- When an order counts as fulfilled: Finalize of backend/internal/provision/repository.go.
use vps_billing_codex.Shared.{
  ℕ, ◌+◌, ◌≡◌, ◌==◌, Bool, true, false, ◌||◌, some, List, [], ◌∷◌, ◌++◌, arith, inl, inr, refl,
  Bool-cases, Option-cases, eq_of_==,
}
use mathlib.Core.Path.{subst, sym, ap, ◌∙◌}
use vps_billing_codex.Shared.Table.{get, modify, get-modify}
use vps_billing_codex.Shared.Tx.{
  World, ◌>>=◌, ◌>>◌, pure, select, execute, change_row, or_fail, commit, database, no_rows,
}
use vps_billing_codex.Shared.Invariant.{
  Keeps, Keeps->>=, Keeps-select, Keeps-execute, Keeps-change_row, Keeps-commit, Keeps-or_fail,
  Keeps-transaction,
}
use vps_billing_codex.Store.{
  Database, Order, OrderStatus, Subscription, Node, Capacity, Reservation, ReservationStatus,
  EventType, Payload, Notification, subscription_activated, instance_running, activation_data,
  instance_data, subscription_status_text,
}
use vps_billing_codex.Infrastructure.{
  take_reserved, commit_reserved, set_reservation_status, reservation_id_of,
}
use vps_billing_codex.Provision.{
  ProvisionError, Action, Names, Placement, order_id_of, subscription_id_of, is_active, is_pending,
  all_active, fulfilled_order, domain_event, activated, activate_subscription,
  mark_fulfilled_if_ready, create_notification, create_domain_event,
}
use vps_billing_codex.Provision.Finalize.{
  Context, settle_reserved, settle_by, activate, activate_unless, notification_for, finalize,
}

abbrev is_fulfilled : OrderStatus → Bool
is_fulfilled OrderStatus.fulfilled = true
is_fulfilled _ = false

-- An order that is fulfilled has active subscriptions only.
abbrev pub FulfilledAreActive : Database → Type 0
FulfilledAreActive db =
    (k : ℕ) (o : Order)
    → get order_id_of k db.orders ≡ some o
    → is_fulfilled o.status ≡ true
    → all_active k db.subscriptions ≡ true

-- An activation keeps the orders whose subscriptions are all active.
all_active-modify :
    (names : Names) (k id now : ℕ) (t : List Subscription)
    → all_active k t ≡ true
    → all_active k (modify subscription_id_of id (activated names now) t) ≡ true
unfolding activated
all_active-modify names k id now [] h = refl
all_active-modify names k id now (s ∷ t) h = ground (arith, all_active-modify names k id now t)

activate_subscription-appends :
    (names : Names) (id now : ℕ) (db : Database) (p : Subscription × Database)
    → activate_subscription names id now db ≡ some p
    → record db {
      subscriptions = modify subscription_id_of id (activated names now) db.subscriptions;
    }
      ≡ p.1
unfolding activate_subscription
activate_subscription-appends names id now db p met =
    elim (Option-cases (get subscription_id_of id db.subscriptions)) [
      | inl missing ↦ absurd (ground (arith, missing, met))
      | inr (s, found) ↦ elim (Bool-cases (is_pending s.status || is_active s.status)) [
        | inl open_ ↦ ground (arith, found, open_, met)
        | inr closed ↦ absurd (ground (arith, found, closed, met))
      ]
    ]

activate_subscription-kept :
    (names : Names) (id now : ℕ) (db : Database) (p : Subscription × Database)
    → FulfilledAreActive db
    → activate_subscription names id now db ≡ some p
    → FulfilledAreActive p.1
activate_subscription-kept names id now db p h met =
    subst FulfilledAreActive (activate_subscription-appends names id now db p met)
      (λ k o found done. all_active-modify names k id now db.subscriptions (h k o found done))

-- An order is marked only where all of its subscriptions are active.
mark_fulfilled-kept :
    (order : ℕ) (db : Database)
    → FulfilledAreActive db
    → FulfilledAreActive (mark_fulfilled_if_ready order db)
unfolding mark_fulfilled_if_ready
mark_fulfilled-kept order db h k o = elim (Bool-cases (all_active order db.subscriptions)) [
  | inr waiting ↦ rw waiting (h k o)
  | inl ready ↦ rw ready (λ found done. elim (Bool-cases (k == order)) [
    | inl same ↦
        subst (λ j. all_active j db.subscriptions ≡ true) (sym (eq_of_== k order same)) ready
    | inr other ↦
        h k o
          (ground (
            arith,
            other,
            found,
            get-modify order_id_of fulfilled_order (λ o. ground arith) k order db.orders,
          ))
          done
  ])
]

abbrev KeepsFulfilled : {A : Type 0} → Action A → Type 0
KeepsFulfilled = Keeps ProvisionError FulfilledAreActive

mark_fulfilled-KeepsFulfilled :
    (order : ℕ) → KeepsFulfilled (execute (mark_fulfilled_if_ready order))
mark_fulfilled-KeepsFulfilled order =
    Keeps-execute ProvisionError FulfilledAreActive (mark_fulfilled_if_ready order)
      (mark_fulfilled-kept order)

create_domain_event-KeepsFulfilled :
    (t : EventType) (id : ℕ) (p : Payload) → KeepsFulfilled (create_domain_event t id p)
unfolding create_domain_event
create_domain_event-KeepsFulfilled t id p w s v =
    Keeps-execute ProvisionError FulfilledAreActive
      (λ db. record db { outbox = db.outbox ++ domain_event w.next_id w.now t id p ∷ [] })
      (λ db h. h) (record w { next_id = w.next_id + 1 }) s v

unchanged-kept :
    (db db' : Database)
    → db'.orders ≡ db.orders
    → db'.subscriptions ≡ db.subscriptions
    → FulfilledAreActive db
    → FulfilledAreActive db'
unchanged-kept db db' orders subscriptions h k o found done =
    ap (all_active k) subscriptions ∙ h k o (ap (get order_id_of k) (sym orders) ∙ found) done

create_notification-kept :
    (n : Notification) (db : Database)
    → FulfilledAreActive db
    → FulfilledAreActive (create_notification n db)
unfolding create_notification
create_notification-kept n db =
    unchanged-kept db (create_notification n db) (ground arith) (ground arith)

take_reserved-kept :
    (id : ℕ) (want : Capacity) (db : Database) (p : Node × Database)
    → FulfilledAreActive db
    → take_reserved commit_reserved id want db ≡ some p
    → FulfilledAreActive p.1
unfolding take_reserved
take_reserved-kept id want db p h met =
    unchanged-kept db p.1 (ground (arith, met)) (ground (arith, met)) h

set_reservation_status-kept :
    (id : ℕ) (status : ReservationStatus) (db : Database) (p : Reservation × Database)
    → FulfilledAreActive db
    → set_reservation_status id status db ≡ some p
    → FulfilledAreActive p.1
unfolding set_reservation_status
set_reservation_status-kept id status db p h met =
    unchanged-kept db p.1 (ground (arith, met)) (ground (arith, met)) h

settle_reserved-KeepsFulfilled : (r : Reservation) → KeepsFulfilled (settle_reserved r)
unfolding settle_reserved
settle_reserved-KeepsFulfilled r =
    Keeps->>= ProvisionError FulfilledAreActive
      (change_row (take_reserved commit_reserved r.node_id r.amounts) database)
      (λ _. change_row (set_reservation_status r.id ReservationStatus.committed) no_rows >>= λ _.
        pure tt)
      (Keeps-change_row ProvisionError FulfilledAreActive
        (take_reserved commit_reserved r.node_id r.amounts) database
        (take_reserved-kept r.node_id r.amounts))
      (λ _.
        Keeps->>= ProvisionError FulfilledAreActive
          (change_row (set_reservation_status r.id ReservationStatus.committed) no_rows)
          (λ _. pure tt)
          (Keeps-change_row ProvisionError FulfilledAreActive
            (set_reservation_status r.id ReservationStatus.committed) no_rows
            (set_reservation_status-kept r.id ReservationStatus.committed))
          (λ _ w s v. (s, v)))

settle_by-KeepsFulfilled :
    (status : ReservationStatus) (r : Reservation) → KeepsFulfilled (settle_by status r)
settle_by-KeepsFulfilled ReservationStatus.reserved r w s v = settle_reserved-KeepsFulfilled r w s v
settle_by-KeepsFulfilled ReservationStatus.committed r w s v = (s, v)
settle_by-KeepsFulfilled _ r w s v = (s, v)

events-KeepsFulfilled :
    (t u : EventType) (i j : ℕ) (p q : Payload)
    → KeepsFulfilled (create_domain_event t i p >> create_domain_event u j q)
events-KeepsFulfilled t u i j p q =
    Keeps->>= ProvisionError FulfilledAreActive (create_domain_event t i p)
      (λ _. create_domain_event u j q) (create_domain_event-KeepsFulfilled t i p)
      (λ _. create_domain_event-KeepsFulfilled u j q)

activate-KeepsFulfilled : (names : Names) (c : Context) → KeepsFulfilled (activate names c)
unfolding activate
activate-KeepsFulfilled names c w =
    Keeps->>= ProvisionError FulfilledAreActive
      (change_row (activate_subscription names c.row.subscription.id w.now) no_rows)
      (λ sub.
        execute (mark_fulfilled_if_ready c.source_order_id)
        >> (execute (create_notification (notification_for names c))
            >> (create_domain_event subscription_activated sub.id (
                  activation_data sub.id sub.user_id c.row.instance.id
                    (subscription_status_text sub.status))
                >> create_domain_event instance_running c.row.instance.id (
                    instance_data c.row.instance.id c.row.subscription.user_id c.row.subscription.id
                      "running"))))
      (Keeps-change_row ProvisionError FulfilledAreActive
        (activate_subscription names c.row.subscription.id w.now) no_rows
        (activate_subscription-kept names c.row.subscription.id w.now))
      (λ sub.
        Keeps->>= ProvisionError FulfilledAreActive
          (execute (mark_fulfilled_if_ready c.source_order_id)) _
          (mark_fulfilled-KeepsFulfilled c.source_order_id)
          (λ _.
            Keeps->>= ProvisionError FulfilledAreActive
              (execute (create_notification (notification_for names c))) _
              (Keeps-execute ProvisionError FulfilledAreActive
                (create_notification (notification_for names c))
                (create_notification-kept (notification_for names c)))
              (λ _. events-KeepsFulfilled _ _ sub.id c.row.instance.id _ _)))
      w

activate_unless-KeepsFulfilled :
    (names : Names) (c : Context) (active : Bool) → KeepsFulfilled (activate_unless names c active)
activate_unless-KeepsFulfilled names c true w s v =
    mark_fulfilled-KeepsFulfilled c.source_order_id w s v
activate_unless-KeepsFulfilled names c false w s v = activate-KeepsFulfilled names c w s v

-- Where every fulfilled order has active subscriptions only, the same holds after Finalize, for
-- whatever context and placement and whichever statement fails.
pub finalize_keeps_fulfilled :
    (names : Names) (c : Context) (p : Placement) (w : World Database)
    → w.store ≡ w.saved
    → FulfilledAreActive w.saved
    → FulfilledAreActive (finalize names c p w).1.saved
unfolding finalize
finalize_keeps_fulfilled names c p w settled h =
    (Keeps-transaction ProvisionError FulfilledAreActive _
      (Keeps->>= ProvisionError FulfilledAreActive
        (select (λ (db : Database). get reservation_id_of p.reservation_id db.reservations))
        (λ found. or_fail found no_rows >>= λ r.
          settle_by r.status r
          >> (activate_unless names c (is_active c.row.subscription.status) >> commit))
        (Keeps-select ProvisionError FulfilledAreActive _)
        (λ found.
          Keeps->>= ProvisionError FulfilledAreActive (or_fail found no_rows) _
            (Keeps-or_fail ProvisionError FulfilledAreActive found no_rows)
            (λ r.
              Keeps->>= ProvisionError FulfilledAreActive (settle_by r.status r) _
                (settle_by-KeepsFulfilled r.status r)
                (λ _.
                  Keeps->>= ProvisionError FulfilledAreActive
                    (activate_unless names c (is_active c.row.subscription.status)) (λ _. commit)
                    (activate_unless-KeepsFulfilled names c (is_active c.row.subscription.status))
                    (λ _. Keeps-commit ProvisionError FulfilledAreActive)))))
      w (subst FulfilledAreActive (sym settled) h) h).1
