-- ===== src/Store/Outbox.antt =====
-- The transactional outbox: OutboxEvent of backend/internal/store/sqlc/models.go, with the payloads
-- that the components write as data instead of JSON text.
use vps_billing_codex.Shared.{ℕ, Bool, Option}
use vps_billing_codex.Shared.Int.{ℤ}
use Prim.Native.String.{String}

pub data EventType : Type 0 where
  payment_succeeded subscription_renewed : EventType
  subscription_cancel_scheduled subscription_cancel_schedule_removed : EventType
  subscription_cancelled subscription_past_due subscription_suspended : EventType
  operation_queued operation_updated : EventType
  subscription_activated instance_running : EventType

-- The "data" object of the envelope; a status is the text of the column, and `recovered` says whether
-- the key "recovery" is there.
pub data Payload : Type 0 where
  subscription_data : (subscription_id user_id : ℕ) (status : String) (version : ℕ) → Payload
  renewal_data :
      (subscription_id user_id payment_id : ℕ) (period_end : Option ℕ) (status : String)
      (version : ℕ)
      → Payload
  payment_data : (payment_id order_id user_id : ℕ) (amount_minor : ℤ) (currency : String) → Payload
  operation_data :
      (operation_id : ℕ) (user_id : Option ℕ) (status : String) (phase : Option String)
      (progress : ℤ) (message_key : Option String) (retryable : Bool) (error_code : Option String)
      (trace_id : String) (recovered : Bool)
      → Payload
  step_data :
      (operation_id : ℕ) (user_id : Option ℕ) (status : String) (phase : Option String)
      (progress : ℤ) (message_key : Option String) (retryable : Bool) (error_code : Option String)
      (trace_id step_key step_status : String) (step_progress : ℤ)
      → Payload
  activation_data : (subscription_id user_id instance_id : ℕ) (status : String) → Payload
  instance_data : (instance_id user_id subscription_id : ℕ) (status : String) → Payload

pub data OutboxStatus : Type 0 where
  pending published : OutboxStatus

pub record OutboxEvent : Type 0 where
  pub id : ℕ
  pub event_type : EventType
  pub aggregate_id : ℕ
  pub occurred_at : ℕ
  pub payload : Payload
  pub status : OutboxStatus
  pub attempts : ℕ
  pub next_attempt_at : ℕ
