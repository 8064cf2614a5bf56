-- ===== src/Store/Nodes.antt =====
-- The rows of providers, node groups, nodes and reservations: Provider, NodeGroup, Node and
-- ResourceReservation of backend/internal/store/sqlc/models.go. The six columns of a kind of capacity
-- are a function of the resource; cores are counted in the smallest unit of their column.
use vps_billing_codex.Shared.{ℕ, Bool, Option}
use vps_billing_codex.Shared.Int.{ℤ}
use Prim.Native.String.{String}

pub data Resource : Type 0 where
  cpu memory disk ipv4 ipv6 nat_port : Resource

abbrev pub Capacity : Type 0
Capacity = Resource → ℕ

pub data NodeStatus : Type 0 where
  online degraded draining maintenance offline : NodeStatus

-- The providers' and the groups' status, as far as the scheduler reads it.
pub record Provider : Type 0 where
  pub id : ℕ
  pub is_active : Bool

pub record NodeGroup : Type 0 where
  pub id : ℕ
  pub is_active : Bool

pub record Node : Type 0 where
  pub id : ℕ
  pub provider_id : ℕ
  pub node_group_id : Option ℕ
  pub status : NodeStatus
  pub total : Capacity
  pub allocated : Capacity
  pub reserved : Capacity
  pub weight : ℤ
  pub capabilities : String
  pub version : ℕ
  pub provider_node_id : Option String

pub data ReservationStatus : Type 0 where
  reserved committed released expired : ReservationStatus

pub record Reservation : Type 0 where
  pub id : ℕ
  pub node_id : ℕ
  pub operation_id : ℕ
  pub amounts : Capacity
  pub status : ReservationStatus
  pub expires_at : ℕ
