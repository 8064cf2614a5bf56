-- ===== src/Store/Instances.antt =====
-- The rows of instances and notifications: Instance and Notification of
-- backend/internal/store/sqlc/models.go, less created_at, updated_at and what a notification shows.
use vps_billing_codex.Shared.{ℕ, Option}
use Prim.Native.String.{String}

-- The values that instances_desired_state_valid allows.
pub data DesiredState : Type 0 where
  running stopped suspended deleted : DesiredState

-- The values that instances_observed_state_valid allows.
pub data ObservedState : Type 0 where
  pending provisioning running stopping stopped restarting reinstalling : ObservedState
  suspending suspended deleting deleted error unknown : ObservedState

-- An address is kept as a text.
pub record Instance : Type 0 where
  pub id : ℕ
  pub subscription_id : ℕ
  pub node_id : Option ℕ
  pub provider_id : Option ℕ
  pub provider_instance_id : Option String
  pub name : String
  pub desired_state : DesiredState
  pub observed_state : ObservedState
  pub cpu_cores : ℕ
  pub memory_mb : ℕ
  pub disk_gb : ℕ
  pub traffic_limit_gb : Option ℕ
  pub bandwidth_mbps : Option ℕ
  pub image_id : Option String
  pub primary_ipv4 : Option String
  pub primary_ipv6 : Option String
  pub last_synced_at : Option ℕ
  pub version : ℕ
  pub deleted_at : Option ℕ

pub record Notification : Type 0 where
  pub id : ℕ
  pub user_id : Option ℕ
  pub instance_id : ℕ
