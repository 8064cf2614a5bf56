-- ===== src/InstanceAction.antt =====
-- backend/internal/instanceaction/workflow.go, with its queries of
-- backend/internal/store/sqlc/portal.sql.go.
use Prim.Native.String.{String}
use text.Mathlib.Text.{◌==◌ as str_eq}
use vps_billing_codex.Shared.{
  ◌&◌, ℕ, ◌+◌, Bool, true, false, not, Option, none, some, List, [], ◌∷◌, if◌then◌else◌,
}
use vps_billing_codex.Shared.Int.{pos}
use vps_billing_codex.Shared.Table.{get, modify}
use vps_billing_codex.Shared.Tx.{
  World, Error, Result, ok, err, refused, M, ◌>>=◌, ◌>>◌, pure, fail, fail_if, or_fail, select,
  clock, outside, with_error, no_rows,
}
use vps_billing_codex.Store.{
  Database, Instance, DesiredState, ObservedState, OperationStatus, StepStatus,
}
use vps_billing_codex.Operation.{OperationError, update_progress, WorkflowError}
use vps_billing_codex.Operation.Queue.{Failure, workflow_error, other_error, Workflow}
use vps_billing_codex.Operation.Create.{execution_step}
use vps_billing_codex.Provider.{
  Answer, ProviderError, Adapter, InstanceActionRequest, ProviderOperation, ProviderInstance,
}
use vps_billing_codex.Provision.{operation_id_of, node_id_of, instance_id_of, update_instance}
use vps_billing_codex.Provision.Workflow.{Flow, returned}
pub mod Steps
pub mod Settles
mod Tests

-- The error of an instance that no provider has placed
pub data ActionError : Type 0 where
  placement_incomplete : ActionError

-- The actions that Execute knows.
pub data ActionKind : Type 0 where
  start stop suspend restart reinstall : ActionKind

-- What a step writes as its output.
pub data ActionOutput : Type 0 where
  no_output : ActionOutput
  instance_output : ℕ → ActionOutput
  operation_output state_output : String → ActionOutput

-- The texts of ids and errors, what encoding/json makes of outputs, and the registry of providers by
-- the attempt.
pub record Surroundings : Type 0 where
  pub uuid_text : ℕ → String
  pub operation_text : Error OperationError → String
  pub action_text : Error ActionError → String
  pub provider_text : ProviderError → String
  pub marshal : ActionOutput → String
  pub resolve : ℕ → ℕ → Answer Adapter

-- actionContext
pub record ActionContext : Type 0 where
  pub instance_id : ℕ
  pub provider_id : ℕ
  pub provider_instance_id : String
  pub provider_node_id : String
  pub image_id : String
  pub operation_type : String

abbrev pub action_of : String → Option ActionKind
action_of s =
    if str_eq s "start"
    then some start
    else if str_eq s "stop"
    then some stop
    else if str_eq s "suspend"
    then some suspend
    else if str_eq s "restart"
    then some restart
    else if str_eq s "reinstall"
    then some reinstall
    else none

-- The three states of an action, and what is stored in the end.
abbrev pub desired : ActionKind → DesiredState
desired stop = DesiredState.stopped
desired suspend = DesiredState.suspended
desired _ = DesiredState.running

abbrev pub transitional : ActionKind → ObservedState
transitional stop = ObservedState.stopping
transitional suspend = ObservedState.suspending
transitional reinstall = ObservedState.reinstalling
transitional _ = ObservedState.restarting

abbrev pub expected : ActionKind → String
expected stop = "stopped"
expected suspend = "stopped"
expected _ = "running"

abbrev pub stored : ActionKind → ObservedState
stored stop = ObservedState.stopped
stored suspend = ObservedState.suspended
stored _ = ObservedState.running

abbrev pub stored_text : ActionKind → String
stored_text stop = "stopped"
stored_text suspend = "suspended"
stored_text _ = "running"

abbrev pub text_or_empty : Option String → String
text_or_empty none = ""
text_or_empty (some s) = s

-- SetInstanceActionState
unfoldable pub set_action_state : ℕ → DesiredState → ObservedState → Database → Database
set_action_state id d o =
    update_instance id (λ _. true)
      (λ i. record i { desired_state = d; observed_state = o; version = i.version + 1 })

-- SetInstanceObservedState
unfoldable pub set_observed : ℕ → ObservedState → ℕ → Database → Database
set_observed id o now =
    update_instance id (λ _. true)
      (λ i. record i { observed_state = o; last_synced_at = some now; version = i.version + 1 })

module _ (l : Surroundings) where
  abbrev pub complete_context : Instance → String → String → M Database ActionError ActionContext
  complete_context i node kind = elim i.provider_id [
    | none ↦ fail (refused placement_incomplete)
    | some provider ↦ elim i.provider_instance_id [
      | none ↦ fail (refused placement_incomplete)
      | some external ↦ pure (record {
        instance_id = i.id;
        provider_id = provider;
        provider_instance_id = external;
        provider_node_id = node;
        image_id = text_or_empty i.image_id;
        operation_type = kind;
      })
    ]
  ]

  -- GetInstanceActionContextByOperation: the instance, its node's name and the operation's type
  unfoldable pub action_row : ℕ → Database → Option (Instance × String × String)
  action_row id db = elim (get operation_id_of id db.operations) [
    | none ↦ none
    | some o ↦
        if str_eq o.resource_type "instance"
        then elim (get instance_id_of o.resource_id db.instances) [
          | none ↦ none
          | some i ↦ elim i.node_id [
            | none ↦ none
            | some k ↦ elim (get node_id_of k db.nodes) [
              | none ↦ none
              | some n ↦ some (
                i,
                elim n.provider_node_id [ none ↦ l.uuid_text n.id | some name ↦ name ],
                o.kind,
              )
            ]
          ]
        ]
        else none
  ]

  -- Repository.context
  unfoldable pub action_context : ℕ → M Database ActionError ActionContext
  action_context operation = do
    found ← select (action_row operation)
    row ← or_fail found no_rows
    complete_context row.0 row.1 row.2

  -- workflowError and providerError
  abbrev pub action_failure : String → Bool → String → Failure
  action_failure code retryable cause = workflow_error (record {
    code = code;
    message_key = "operation.instance.failed";
    retryable = retryable;
    cause = some cause;
  })

  abbrev pub or_provider_error : {A : Type 0} → Answer A → Flow A
  or_provider_error (Answer.answered a) = pure a
  or_provider_error (Answer.provider_error e) = fail (
      refused (
        workflow_error (record {
          code = e.code;
          message_key = "operation.providerError";
          retryable = e.retryable;
          cause = some (l.provider_text e);
        })))
  or_provider_error (Answer.other_error s) =
      fail (refused (action_failure "UNKNOWN_PROVIDER_ERROR" true s))

  abbrev pub or_unavailable : Answer Adapter → Flow Adapter
  or_unavailable (Answer.answered a) = pure a
  or_unavailable (Answer.provider_error e) =
      fail (refused (action_failure "PROVIDER_UNAVAILABLE" true (l.provider_text e)))
  or_unavailable (Answer.other_error s) =
      fail (refused (action_failure "PROVIDER_UNAVAILABLE" true s))

  abbrev pub wrapped : {A : Type 0} → String → Bool → M Database ActionError A → Flow A
  wrapped code retryable =
      with_error (λ e. refused (action_failure code retryable (l.action_text e)))

  -- The calls of the provider, by the action
  abbrev pub call : ActionKind → Adapter → InstanceActionRequest → String → Answer ProviderOperation
  call start adapter request image = adapter.start_instance request
  call stop adapter request image = adapter.stop_instance request
  call suspend adapter request image = adapter.stop_instance request
  call restart adapter request image = adapter.restart_instance request
  call reinstall adapter request image = adapter.reinstall_instance request image

  module _ (operation attempt : ℕ) where
    abbrev pub report : OperationStatus → String → ℕ → String → Flow (Unit {0})
    report status phase percent message_key =
        with_error (λ e. refused (other_error (l.operation_text e)))
          (update_progress operation status phase (pos percent) message_key)

    abbrev pub record_step : String → StepStatus → ℕ → ActionOutput → Flow (Unit {0})
    record_step key status percent output =
        with_error (λ e. refused (other_error (l.operation_text e)))
          (execution_step operation (pos attempt) key status (pos percent) "" none
            (l.marshal output))

    abbrev pub action_request : ActionContext → InstanceActionRequest
    action_request c = record {
      operation_id = l.uuid_text operation;
      idempotency_key = "instance-action:" & l.uuid_text operation;
      node_id = c.provider_node_id;
      provider_instance_id = c.provider_instance_id;
    }

    -- Execute from the provider's answer on; the state that is stored is the one that was expected,
    -- but for a suspension.
    unfoldable pub settle_action : ActionContext → ActionKind → ProviderInstance → Flow (Unit {0})
    settle_action c a i = do
      fail_if (not (str_eq i.state (expected a))) (
          refused (
            action_failure "INSTANCE_STATE_MISMATCH" true
              ("expected " & expected a & ", observed " & i.state)))
      wrapped "INSTANCE_STATE_UPDATE_FAILED" true
          (do now ← clock; outside (λ db. (tt, set_observed c.instance_id (stored a) now db)))
      record_step "verify" StepStatus.succeeded 100 (state_output (stored_text a))
      report OperationStatus.running "finish" 99 "operation.instance.completed"

    unfoldable pub ask_provider : ActionContext → ActionKind → Flow ProviderInstance
    ask_provider c a = do
      adapter ← or_unavailable (l.resolve attempt c.provider_id)
      report OperationStatus.waiting_provider "provider" 30
          ("operation.instance." & c.operation_type)
      record_step "provider" StepStatus.running 20 no_output
      done ← or_provider_error (call a adapter (action_request c) c.image_id)
      record_step "provider" StepStatus.succeeded 100 (operation_output done.provider_operation_id)
      report OperationStatus.verifying "verify" 80 "operation.instance.verifying"
      or_provider_error (
          adapter.get_instance (record {
            node_id = c.provider_node_id;
            provider_instance_id = c.provider_instance_id;
            platform_instance_id = l.uuid_text c.instance_id;
          }))

    unfoldable pub perform : ActionContext → ActionKind → Flow (Unit {0})
    perform c a = do
      report OperationStatus.running "validate" 5 "operation.instance.validating"
      record_step "validate" StepStatus.succeeded 100 (instance_output c.instance_id)
      wrapped "INSTANCE_STATE_UPDATE_FAILED" true
          (outside (λ db. (tt, set_action_state c.instance_id (desired a) (transitional a) db)))
      i ← ask_provider c a
      settle_action c a i

    unfoldable pub action_flow : Flow (Unit {0})
    action_flow = do
      c ← wrapped "INSTANCE_CONTEXT_INVALID" false (action_context operation)
      a ← or_fail (action_of c.operation_type) (
          refused
            (action_failure "UNSUPPORTED_OPERATION" false ("unknown action " & c.operation_type)))
      perform c a

-- Workflow.Execute
unfoldable pub action_workflow : Surroundings → Workflow
action_workflow l operation attempt w = returned (action_flow l operation attempt w)
