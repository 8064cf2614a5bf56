-- ===== src/Store/Subscriptions.antt =====
-- The rows of subscriptions, plans and products: Subscription, Plan and Product of
-- backend/internal/store/sqlc/models.go, less the columns that no modelled statement reads.
use vps_billing_codex.Shared.{ℕ, Bool, Option}
use Prim.Native.String.{String}

-- The values that the column's CHECK allows.
pub data SubscriptionStatus : Type 0 where
  pending active past_due suspended cancelled expired terminated : SubscriptionStatus

abbrev pub subscription_status_text : SubscriptionStatus → String
subscription_status_text pending = "pending"
subscription_status_text active = "active"
subscription_status_text past_due = "past_due"
subscription_status_text suspended = "suspended"
subscription_status_text cancelled = "cancelled"
subscription_status_text expired = "expired"
subscription_status_text terminated = "terminated"

pub data BillingCycle : Type 0 where
  monthly quarterly yearly : BillingCycle

-- A count of cores is in hundredths.
pub record Plan : Type 0 where
  pub id : ℕ
  pub product_id : ℕ
  pub node_group_id : Option ℕ
  pub slug : String
  pub name : String
  pub status : String
  pub cpu_cores : ℕ
  pub memory_mb : ℕ
  pub disk_gb : ℕ
  pub traffic_gb : Option ℕ
  pub bandwidth_mbps : Option ℕ
  pub ipv4_count : ℕ
  pub ipv6_count : ℕ
  pub nat_port_count : ℕ
  pub virtualization : String
  pub billing_cycle : BillingCycle
  pub price_minor : ℕ
  pub currency : String
  pub default_image_id : String

pub record Product : Type 0 where
  pub id : ℕ
  pub slug : String
  pub name : String
  pub description : String
  pub status : String

pub record Subscription : Type 0 where
  pub id : ℕ
  pub user_id : ℕ
  pub plan_id : ℕ
  pub status : SubscriptionStatus
  pub billing_cycle : BillingCycle
  pub price_minor : ℕ
  pub currency : String
  pub started_at : Option ℕ
  pub current_period_start : Option ℕ
  pub current_period_end : Option ℕ
  pub next_due_at : Option ℕ
  pub grace_until : Option ℕ
  pub cancel_at_period_end : Bool
  pub ended_at : Option ℕ
  pub version : ℕ
  pub source_order_id : Option ℕ
  pub source_item_index : Option ℕ
