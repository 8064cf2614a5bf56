-- ===== src/Infrastructure/Room.antt =====
-- Nodes are never oversubscribed by Scheduler of backend/internal/infrastructure/scheduler.go.
use Prim.Native.String.{String}
use vps_billing_codex.Shared.{
  ℕ, ◌+◌, ◌≤◌, ◌≡◌, ◌==◌, Bool, true, not, Option, none, some, List, [], ◌∷◌, arith, inl, inr, refl,
  Bool-cases, Option-cases, leb, eq_of_==,
}
use mathlib.Core.Path.{subst, sym}
use vps_billing_codex.Shared.Int.{ℤ, pos_part}
use vps_billing_codex.Shared.Table.{get, modify, update_one, get-modify}
use vps_billing_codex.Shared.Tx.{
  World, Error, Result, ok, err, unique_violation, database, no_rows, refused, ◌>>=◌, ◌>>◌, pure,
  or_fail, fail_if, select, commit, change_row,
}
use vps_billing_codex.Shared.Invariant.{
  Keeps, Keeps->>=, Keeps-select, Keeps-change_row, Keeps-commit-pure, Keeps-transaction,
  Keeps-or_fail, Keeps-if,
}
use vps_billing_codex.Store.{
  Database, Resource, cpu, memory, disk, ipv4, ipv6, nat_port, Capacity, Node, Reservation,
  ReservationStatus,
}
use vps_billing_codex.Infrastructure.{
  InfrastructureError, resource_exhausted, Action, Postgres, ScheduleRequest, all_resources,
  node_id_of, has_room, add_reserved, add_node_reservation, create_reservation, reserve_new,
  reserve_in_transaction, reserve, reserve_on, new_reservation, first_of, reserve_unless,
  reservation_operation, or_existing, is_invalid, invalid_request, reserve_or_existing, Call,
  reserve_call, commit_call, release_call, run_call, run_calls, holds_reserved, take_reserved,
  settle_node, Target, to_committed, to_released, set_reservation_status, settle_reservation,
  change_status, status_step, has_target, is_reserved, reservation_state, reservation_absent,
  reservation_id_of, target_status, commit_reservation, release_reservation, candidate_nodes,
}

-- What a node promises of each resource is at most what it has.
abbrev pub IsWithin : Node → Type 0
IsWithin n = (r : Resource) → n.allocated r + n.reserved r ≤ n.total r

abbrev pub InRoom : Database → Type 0
InRoom db = (k : ℕ) (n : Node) → get node_id_of k db.nodes ≡ some n → IsWithin n

all_resources-holds : (p : Resource → Bool) → all_resources p ≡ true → (r : Resource) → p r ≡ true
all_resources-holds p h cpu = ground arith
all_resources-holds p h memory = ground arith
all_resources-holds p h disk = ground arith
all_resources-holds p h ipv4 = ground arith
all_resources-holds p h ipv6 = ground arith
all_resources-holds p h nat_port = ground arith

add_reserved-IsWithin :
    (want : Capacity) (n : Node)
    → has_room want n ≡ true
    → IsWithin n
    → IsWithin (add_reserved want n)
add_reserved-IsWithin want n room h r = ground (
  arith,
  all_resources-holds (λ r. leb (n.allocated r + n.reserved r + want r) (n.total r)) room r,
)

settle_node-IsWithin :
    (t : Target) (want : Capacity) (n : Node)
    → holds_reserved want n ≡ true
    → IsWithin n
    → IsWithin (settle_node t want n)
settle_node-IsWithin to_committed want n held h r =
    ground (arith, all_resources-holds (λ r. leb (want r) (n.reserved r)) held r, h r)
settle_node-IsWithin to_released want n held h r = ground (arith, h r)

settle_node-id :
    (t : Target) (want : Capacity) (n : Node) → node_id_of (settle_node t want n) ≡ node_id_of n
settle_node-id to_committed want n = refl
settle_node-id to_released want n = refl

update-InRoom :
    (guard : Node → Bool) (f : Node → Node) (id : ℕ) (db : Database) (p : Node × List Node)
    → ((n : Node) → node_id_of (f n) ≡ node_id_of n)
    → ((n : Node) → guard n ≡ true → IsWithin n → IsWithin (f n))
    → InRoom db
    → update_one node_id_of id guard f db.nodes ≡ some p
    → InRoom (record db { nodes = p.1 })
update-InRoom guard f id db p keep within room met k n found =
    elim (Option-cases (get node_id_of id db.nodes)) [
      | inl missing ↦ absurd (ground arith)
      | inr (o, there) ↦ elim (Bool-cases (guard o)) [
        | inr closed ↦ absurd (ground arith)
        | inl open_ ↦
            let e : p.1 ≡ modify node_id_of id f db.nodes = ground arith in
            elim (Bool-cases (k == id)) [
              | inl same ↦
                  let new : f o ≡ n =
                    ground
                      (arith, e, get-modify node_id_of f keep k id db.nodes, eq_of_== k id same) in
                  subst IsWithin new (within o open_ (room id o there))
              | inr other ↦ room k n (ground (arith, e, get-modify node_id_of f keep k id db.nodes))
            ]
      ]
    ]

abbrev KeepsRoom : {A : Type 0} → Action A → Type 0
KeepsRoom = Keeps InfrastructureError InRoom

add_node_reservation-KeepsRoom :
    (id : ℕ) (want : Capacity) (e : Error InfrastructureError)
    → KeepsRoom (change_row (add_node_reservation id want) e)
unfolding add_node_reservation
add_node_reservation-KeepsRoom id want e =
    Keeps-change_row InfrastructureError InRoom (add_node_reservation id want) e (λ db p room met.
      elim (Option-cases (update_one node_id_of id (has_room want) (add_reserved want) db.nodes)) [
        | inl missing ↦ absurd (ground arith)
        | inr (q, there) ↦ subst InRoom {x = record db { nodes = q.1 }} {y = p.1} (ground arith) (
            update-InRoom (has_room want) (add_reserved want) id db q (λ _. refl)
              (add_reserved-IsWithin want) room there)
      ])

create_reservation-KeepsRoom :
    (row : Reservation) (e : Error InfrastructureError)
    → KeepsRoom (change_row (create_reservation row) e)
unfolding create_reservation
create_reservation-KeepsRoom row e =
    Keeps-change_row InfrastructureError InRoom (create_reservation row) e
      (λ db p room met k n found. room k n (ground arith))

set_reservation_status-KeepsRoom :
    (id : ℕ) (s : ReservationStatus) (e : Error InfrastructureError)
    → KeepsRoom (change_row (set_reservation_status id s) e)
unfolding set_reservation_status
set_reservation_status-KeepsRoom id s e =
    Keeps-change_row InfrastructureError InRoom (set_reservation_status id s) e
      (λ db p room met k n found. room k n (ground arith))

take_reserved-KeepsRoom :
    (t : Target) (id : ℕ) (want : Capacity) (e : Error InfrastructureError)
    → KeepsRoom (change_row (take_reserved (settle_node t) id want) e)
unfolding take_reserved
take_reserved-KeepsRoom t id want e =
    Keeps-change_row InfrastructureError InRoom (take_reserved (settle_node t) id want) e
      (λ db p room met.
        elim (Option-cases
          (update_one node_id_of id (holds_reserved want) (settle_node t want) db.nodes)) [
            | inl missing ↦ absurd (ground arith)
            | inr (q, there) ↦
                subst InRoom {x = record db { nodes = q.1 }} {y = p.1} (ground arith) (
                  update-InRoom (holds_reserved want) (settle_node t want) id db q
                    (settle_node-id t want) (settle_node-IsWithin t want) room there)
          ])

settle_reservation-KeepsRoom :
    (t : Target) (current : Reservation) → KeepsRoom (settle_reservation t current)
unfolding settle_reservation
settle_reservation-KeepsRoom t current =
    Keeps->>= InfrastructureError InRoom
      (change_row (take_reserved (settle_node t) current.node_id current.amounts) database)
      (λ _. change_row (set_reservation_status current.id (target_status t)) no_rows >>= λ updated.
        commit >> pure updated)
      (take_reserved-KeepsRoom t current.node_id current.amounts database)
      (λ _.
        Keeps->>= InfrastructureError InRoom
          (change_row (set_reservation_status current.id (target_status t)) no_rows)
          (λ updated. commit >> pure updated)
          (set_reservation_status-KeepsRoom current.id (target_status t) no_rows)
          (λ updated. Keeps-commit-pure InfrastructureError InRoom updated))

status_step-KeepsRoom : (t : Target) (current : Reservation) → KeepsRoom (status_step t current)
unfolding status_step
status_step-KeepsRoom t current =
    Keeps-if InfrastructureError InRoom (has_target t current.status) (pure current)
      (fail_if (not (is_reserved current.status)) (refused reservation_state)
        >> settle_reservation t current)
      (λ w s v. (s, v))
      (Keeps->>= InfrastructureError InRoom
        (fail_if (not (is_reserved current.status)) (refused reservation_state))
        (λ _. settle_reservation t current) (λ w s v. (s, v))
        (λ _. settle_reservation-KeepsRoom t current))

change_status-KeepsRoom : (id : ℕ) (t : Target) → KeepsRoom (change_status id t)
unfolding change_status
change_status-KeepsRoom id t = Keeps-transaction InfrastructureError InRoom _ (
    Keeps->>= InfrastructureError InRoom (select (λ db. get reservation_id_of id db.reservations))
      (λ found. or_fail found (refused reservation_absent) >>= status_step t)
      (Keeps-select InfrastructureError InRoom _)
      (λ found.
        Keeps->>= InfrastructureError InRoom (or_fail found (refused reservation_absent))
          (status_step t)
          (Keeps-or_fail InfrastructureError InRoom found (refused reservation_absent))
          (status_step-KeepsRoom t)))

reserve_on-KeepsRoom :
    (operation_id : ℕ) (want : Capacity) (ttl : ℤ) (n : Node)
    → KeepsRoom (reserve_on operation_id want ttl n)
unfolding reserve_on
reserve_on-KeepsRoom operation_id want ttl n =
    Keeps->>= InfrastructureError InRoom
      (change_row (add_node_reservation n.id want) (refused resource_exhausted))
      (λ _ w.
        (change_row
              (create_reservation
                (new_reservation w.next_id n.id operation_id want (w.now + pos_part ttl)))
              unique_violation
            >>= λ row. commit >> pure row)
          (record w { next_id = w.next_id + 1 }))
      (add_node_reservation-KeepsRoom n.id want (refused resource_exhausted))
      (λ _ w s v.
        Keeps->>= InfrastructureError InRoom
          (change_row
            (create_reservation
              (new_reservation w.next_id n.id operation_id want (w.now + pos_part ttl)))
            unique_violation)
          (λ row. commit >> pure row) (create_reservation-KeepsRoom _ unique_violation)
          (λ row. Keeps-commit-pure InfrastructureError InRoom row)
          (record w { next_id = w.next_id + 1 }) s v)

reserve_new-KeepsRoom :
    (pg : Postgres) (operation_id : ℕ) (request : ScheduleRequest) (required : String)
    (want : Capacity)
    → KeepsRoom (reserve_new pg operation_id request required want)
unfolding reserve_new
reserve_new-KeepsRoom pg operation_id request required want =
    Keeps->>= InfrastructureError InRoom
      (select (candidate_nodes pg request.node_group_id required want))
      (λ ns.
        or_fail (first_of ns) (refused resource_exhausted)
        >>= reserve_on operation_id want request.ttl)
      (Keeps-select InfrastructureError InRoom _)
      (λ ns.
        Keeps->>= InfrastructureError InRoom (or_fail (first_of ns) (refused resource_exhausted))
          (reserve_on operation_id want request.ttl)
          (Keeps-or_fail InfrastructureError InRoom (first_of ns) (refused resource_exhausted))
          (reserve_on-KeepsRoom operation_id want request.ttl))

reserve_unless-KeepsRoom :
    (pg : Postgres) (operation_id : ℕ) (request : ScheduleRequest) (required : String)
    (want : Capacity) (o : Option Reservation)
    → KeepsRoom (reserve_unless pg operation_id request required want o)
reserve_unless-KeepsRoom pg operation_id request required want none w s v =
    reserve_new-KeepsRoom pg operation_id request required want w s v
reserve_unless-KeepsRoom pg operation_id request required want (some _) w s v = (s, v)

reserve_in_transaction-KeepsRoom :
    (pg : Postgres) (operation_id : ℕ) (request : ScheduleRequest) (required : String)
    (want : Capacity)
    → KeepsRoom (reserve_in_transaction pg operation_id request required want)
unfolding reserve_in_transaction
reserve_in_transaction-KeepsRoom pg operation_id request required want =
    Keeps-transaction InfrastructureError InRoom _ (
      Keeps->>= InfrastructureError InRoom
        (select (λ db. get reservation_operation operation_id db.reservations))
        (reserve_unless pg operation_id request required want)
        (Keeps-select InfrastructureError InRoom _)
        (reserve_unless-KeepsRoom pg operation_id request required want))

or_existing-InRoom :
    (id : ℕ) (p : Result InfrastructureError Reservation × World Database)
    → InRoom p.1.store × InRoom p.1.saved
    → InRoom (or_existing id p).1.store × InRoom (or_existing id p).1.saved
or_existing-InRoom id (ok r, w) h = h
or_existing-InRoom id (err unique_violation, w) h =
    Keeps->>= InfrastructureError InRoom
      (select (λ db. get reservation_operation id db.reservations)) (λ found. or_fail found no_rows)
      (Keeps-select InfrastructureError InRoom _)
      (λ found. Keeps-or_fail InfrastructureError InRoom found no_rows) w h.0 h.1
or_existing-InRoom id (err database, w) h = h
or_existing-InRoom id (err no_rows, w) h = h
or_existing-InRoom id (err (refused _), w) h = h

reserve-KeepsRoom :
    (pg : Postgres) (operation_id : ℕ) (request : ScheduleRequest)
    → KeepsRoom (reserve pg operation_id request)
unfolding reserve
reserve-KeepsRoom pg operation_id request =
    Keeps->>= InfrastructureError InRoom
      (fail_if (is_invalid operation_id request) (refused invalid_request))
      (λ _.
        or_fail request.required_capabilities (refused invalid_request)
        >>= reserve_or_existing pg operation_id request)
      (λ w s v. (s, v))
      (λ _.
        Keeps->>= InfrastructureError InRoom
          (or_fail request.required_capabilities (refused invalid_request))
          (reserve_or_existing pg operation_id request)
          (Keeps-or_fail InfrastructureError InRoom request.required_capabilities
            (refused invalid_request))
          (λ required w s v.
            or_existing-InRoom operation_id
              (reserve_in_transaction pg operation_id request required
                (λ r. pos_part (request.resources r)) w)
              (reserve_in_transaction-KeepsRoom pg operation_id request required
                (λ r. pos_part (request.resources r)) w s v)))

run_call-InRoom :
    (pg : Postgres) (c : Call) (w : World Database)
    → InRoom w.store
    → InRoom w.saved
    → InRoom (run_call pg c w).store × InRoom (run_call pg c w).saved
unfolding run_call commit_reservation release_reservation
run_call-InRoom pg (reserve_call id request) w s v = reserve-KeepsRoom pg id request w s v
run_call-InRoom pg (commit_call id) w s v = change_status-KeepsRoom id to_committed w s v
run_call-InRoom pg (release_call id) w s v = change_status-KeepsRoom id to_released w s v

run_calls-InRoom :
    (pg : Postgres) (cs : List (ℕ × Call)) (w : World Database)
    → InRoom w.store
    → InRoom w.saved
    → InRoom (run_calls pg cs w).saved
unfolding run_calls
run_calls-InRoom pg [] w s v = v
run_calls-InRoom pg ((later, c) ∷ cs) w s v =
    let after = run_call-InRoom pg c (record w { now = w.now + later }) s v in
    run_calls-InRoom pg cs (run_call pg c (record w { now = w.now + later })) after.0 after.1

-- No node is ever oversubscribed: any sequence of Reserve, Commit and Release, with any arguments and
-- failing statements, that starts with every node's allocated and reserved capacity within its total
-- ends so.
pub never_oversubscribed :
    (pg : Postgres) (calls : List (ℕ × Call)) (w : World Database)
    → w.store ≡ w.saved
    → InRoom w.saved
    → InRoom (run_calls pg calls w).saved
never_oversubscribed pg calls w settled room =
    run_calls-InRoom pg calls w (subst InRoom (sym settled) room) room
