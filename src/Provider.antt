-- ===== src/Provider.antt =====
-- The contract of backend/internal/provider/provider.go: what the workflows ask of the API that runs
-- the servers. Its client is an argument of the workflows.
use Prim.Native.String.{String}
use vps_billing_codex.Shared.{ℕ, Bool, Option, List}

-- Error, less its raw code and cause
pub record ProviderError : Type 0 where
  pub code : String
  pub retryable : Bool
  pub raw_message : String

-- What a call of the API returns: a value, an Error of the contract, or another error with its text.
pub data Answer (A : Type 0) : Type 0 where
  answered : A → Answer A
  provider_error : ProviderError → Answer A
  other_error : String → Answer A

pub record CreateInstanceRequest : Type 0 where
  pub operation_id : String
  pub idempotency_key : String
  pub node_id : String
  pub instance_id : String
  pub name : String
  pub cpu_cores : ℕ
  pub memory_mb : ℕ
  pub disk_gb : ℕ
  pub traffic_gb : Option ℕ
  pub bandwidth_mbps : Option ℕ
  pub ipv4_count : ℕ
  pub ipv6_count : ℕ
  pub nat_port_count : ℕ
  pub image : String
  pub virtualization : String

pub record InstanceActionRequest : Type 0 where
  pub operation_id : String
  pub idempotency_key : String
  pub node_id : String
  pub provider_instance_id : String

pub record GetInstanceRequest : Type 0 where
  pub node_id : String
  pub provider_instance_id : String
  pub platform_instance_id : String

pub record ProviderOperation : Type 0 where
  pub provider_operation_id : String
  pub status : String
  pub accepted : Bool

pub record ProviderInstance : Type 0 where
  pub provider_instance_id : String
  pub state : String
  pub ipv4 : List String
  pub ipv6 : List String

-- Provider: the methods that the workflows call. A workflow calls each at most once.
pub record Adapter : Type 0 where
  pub create_instance : CreateInstanceRequest → Answer ProviderOperation
  pub get_instance : GetInstanceRequest → Answer ProviderInstance
  pub start_instance : InstanceActionRequest → Answer ProviderOperation
  pub stop_instance : InstanceActionRequest → Answer ProviderOperation
  pub restart_instance : InstanceActionRequest → Answer ProviderOperation
  pub reinstall_instance : InstanceActionRequest → String → Answer ProviderOperation
