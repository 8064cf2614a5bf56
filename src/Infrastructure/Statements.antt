-- ===== src/Infrastructure/Statements.antt =====
-- The requests, errors and statements of backend/internal/infrastructure, from domain.go, scheduler.go
-- and backend/internal/store/sqlc/infrastructure.sql.go. A want is compared with what is left by adding
-- up, so that no difference falls below zero.
use Prim.Native.String.{String}
use vps_billing_codex.Shared.{
  ℕ, ◌+◌, ◌-◌, Bool, true, false, ◌&&◌, ◌||◌, Option, none, some, List, [], ◌∷◌, ◌++◌, ltb, leb,
  ◌==◌, if◌then◌else◌, where_, order_by,
}
use vps_billing_codex.Shared.Int.{ℤ, pos, ltb_ℤ, leb_ℤ}
use vps_billing_codex.Shared.Table.{get, update_one}
use vps_billing_codex.Shared.Tx.{M}
use vps_billing_codex.Store.{
  Database, Resource, cpu, memory, disk, ipv4, ipv6, nat_port, Capacity, Node, NodeStatus, online,
  Provider, NodeGroup, Reservation, ReservationStatus,
}

pub data InfrastructureError : Type 0 where
  resource_exhausted invalid_request reservation_state reservation_absent : InfrastructureError

abbrev pub Action : Type 0 → Type 0
Action = M Database InfrastructureError

-- PostgreSQL's jsonb @> and its quotient of numerics, as a number of the quotient's last digit.
pub record Postgres : Type 0 where
  pub contains : String → String → Bool
  pub quotient : ℕ → ℕ → ℕ

-- ScheduleRequest; `none` are capabilities that encoding/json refuses.
pub record ScheduleRequest : Type 0 where
  pub node_group_id : ℕ
  pub resources : Resource → ℤ
  pub required_capabilities : Option String
  pub ttl : ℤ

abbrev pub all_resources : (Resource → Bool) → Bool
all_resources p = p cpu && (p memory && (p disk && (p ipv4 && (p ipv6 && p nat_port))))

-- validCapacityRequest
unfoldable pub valid_capacity_request : (Resource → ℤ) → Bool
valid_capacity_request want =
    ltb_ℤ (pos 0) (want cpu)
    && (ltb_ℤ (pos 0) (want memory)
        && (ltb_ℤ (pos 0) (want disk)
            && (leb_ℤ (pos 0) (want ipv4)
                && (leb_ℤ (pos 0) (want ipv6) && leb_ℤ (pos 0) (want nat_port)))))

abbrev pub node_id_of : Node → ℕ
node_id_of n = n.id

abbrev pub provider_id_of : Provider → ℕ
provider_id_of p = p.id

abbrev pub group_id_of : NodeGroup → ℕ
group_id_of g = g.id

abbrev pub reservation_id_of : Reservation → ℕ
reservation_id_of r = r.id

abbrev pub reservation_operation : Reservation → ℕ
reservation_operation r = r.operation_id

abbrev pub is_online : NodeStatus → Bool
is_online online = true
is_online _ = false

-- total - allocated - reserved >= want, for every resource
abbrev pub has_room : Capacity → Node → Bool
has_room want n = all_resources (λ r. leb (n.allocated r + n.reserved r + want r) (n.total r))

abbrev provider_active : Option Provider → Bool
provider_active none = false
provider_active (some p) = p.is_active

abbrev group_active : Option NodeGroup → Bool
group_active none = false
group_active (some g) = g.is_active

abbrev is_in : ℕ → Option ℕ → Bool
is_in group none = false
is_in group (some g) = g == group

-- COALESCE((allocated + reserved + want) / NULLIF(total, 0), 0)
abbrev pub load : Postgres → Capacity → Node → Resource → ℕ
load pg want n r =
    if n.total r == 0 then 0 else pg.quotient (n.allocated r + n.reserved r + want r) (n.total r)

abbrev max_ : ℕ → ℕ → ℕ
max_ a b = if leb a b then b else a

abbrev pub worst_load : Postgres → Capacity → Node → ℕ
worst_load pg want n =
    max_ (load pg want n cpu) (max_ (load pg want n memory) (load pg want n disk))

-- The ORDER BY of SelectCandidateNodesForUpdate.
abbrev pub node_before : Postgres → Capacity → Node → Node → Bool
node_before pg want a b =
    ltb (worst_load pg want a) (worst_load pg want b)
    || worst_load pg want a == worst_load pg want b
      && (ltb_ℤ b.weight a.weight || leb_ℤ b.weight a.weight && leb a.id b.id)

-- SelectCandidateNodesForUpdate
unfoldable pub candidate_nodes : Postgres → ℕ → String → Capacity → Database → List Node
candidate_nodes pg group required want db = order_by (node_before pg want) (
    where_
      (λ n.
        is_in group n.node_group_id
        && (is_online n.status
            && (provider_active (get provider_id_of n.provider_id db.providers)
                && (group_active (get group_id_of group db.node_groups)
                    && (pg.contains n.capabilities required && has_room want n)))))
      db.nodes)

-- AddNodeReservation
abbrev pub add_reserved : Capacity → Node → Node
add_reserved want n = record n { reserved = λ r. n.reserved r + want r; version = n.version + 1 }

unfoldable pub add_node_reservation : ℕ → Capacity → Database → Option (Node × Database)
add_node_reservation id want db =
    elim (update_one node_id_of id (has_room want) (add_reserved want) db.nodes) [
      | none ↦ none
      | some p ↦ some (p.0, record db { nodes = p.1 })
    ]

-- CreateResourceReservation, under resource_reservations_operation_unique
unfoldable pub create_reservation : Reservation → Database → Option (Reservation × Database)
create_reservation row db = elim (get reservation_operation row.operation_id db.reservations) [
  | some _ ↦ none
  | none ↦ some (row, record db { reservations = db.reservations ++ row ∷ [] })
]

-- CommitNodeReservation and ReleaseNodeReservation, with the new values of the columns.
abbrev pub commit_reserved : Capacity → Node → Node
commit_reserved want n = record n {
  reserved = λ r. n.reserved r - want r;
  allocated = λ r. n.allocated r + want r;
  version = n.version + 1;
}

abbrev pub release_reserved : Capacity → Node → Node
release_reserved want n = record n {
  reserved = λ r. n.reserved r - want r;
  version = n.version + 1;
}

-- nodes_capacity_nonnegative, on the difference that the update writes
abbrev pub holds_reserved : Capacity → Node → Bool
holds_reserved want n = all_resources (λ r. leb (want r) (n.reserved r))

unfoldable pub take_reserved :
    (Capacity → Node → Node) → ℕ → Capacity → Database → Option (Node × Database)
take_reserved f id want db =
    elim (update_one node_id_of id (holds_reserved want) (f want) db.nodes) [
      | none ↦ none
      | some p ↦ some (p.0, record db { nodes = p.1 })
    ]

-- SetResourceReservationStatus
unfoldable pub set_reservation_status :
    ℕ → ReservationStatus → Database → Option (Reservation × Database)
set_reservation_status id status db =
    elim (update_one reservation_id_of id (λ _. true) (λ r. record r { status = status })
      db.reservations) [ none ↦ none | some p ↦ some (p.0, record db { reservations = p.1 }) ]
