-- ===== src/Provision/Workflow.antt =====
-- Workflow of backend/internal/provision/workflow.go: the steps of a provisioning run, as a workflow of
-- the operation queue.
use Prim.Native.String.{String}
use text.Mathlib.Text.{◌==◌ as str_eq}
use vps_billing_codex.Shared.{
  ◌&◌, ℕ, ◌*◌, Bool, true, false, Option, none, some, if◌then◌else◌, length,
}
use vps_billing_codex.Shared.Int.{pos}
use vps_billing_codex.Shared.Tx.{
  World, Error, Result, ok, err, refused, M, ◌>>=◌, ◌>>◌, pure, fail, with_error, ignoring,
}
use vps_billing_codex.Store.{
  Database, cpu, memory, disk, ipv4, ipv6, nat_port, Reservation, OperationStatus, StepStatus,
  ObservedState,
}
use vps_billing_codex.Operation.{OperationError, update_progress}
use vps_billing_codex.Operation.Queue.{Failure, workflow_error, other_error, Workflow, second}
use vps_billing_codex.Operation.Create.{execution_step}
use vps_billing_codex.Infrastructure.{
  InfrastructureError, resource_exhausted, Postgres, ScheduleRequest, reserve, release_reservation,
}
use vps_billing_codex.Provider.{
  Answer, ProviderError, Adapter, CreateInstanceRequest, ProviderInstance,
}
use vps_billing_codex.Provision.{ProvisionError, Names, Placement}
use vps_billing_codex.Provision.Finalize.{
  Context, context, placement, set_placement, save_provider_result, set_error, finalize,
}

-- The body of a workflow: its errors are those that Execute returns.
abbrev pub Flow : Type 0 → Type 0
Flow = M Database Failure

-- What a step writes as its output.
pub data StepOutput : Type 0 where
  nothing : StepOutput
  subscription_output node_output reservation_output : ℕ → StepOutput
  operation_output instance_output state_output : String → StepOutput
  network_output : (ipv4_count ipv6_count : ℕ) → StepOutput
  empty_output : StepOutput

-- The texts of errors, and what encoding/json makes of outputs and capabilities; and the providers'
-- registry, by the attempt.
pub record Library : Type 0 where
  pub names : Names
  pub postgres : Postgres
  pub operation_text : Error OperationError → String
  pub provision_text : Error ProvisionError → String
  pub infrastructure_text : Error InfrastructureError → String
  pub provider_text : ProviderError → String
  pub marshal : StepOutput → String
  pub virtualization_json : String → String
  pub resolve : ℕ → ℕ → Answer Adapter

-- workflowError
abbrev pub workflow_failure : String → Bool → String → Failure
workflow_failure code retryable cause = workflow_error (record {
  code = code;
  message_key = "operation.provision.failed";
  retryable = retryable;
  cause = some cause;
})

module _ (l : Library) where
  abbrev pub wrapped : {A : Type 0} → String → Bool → M Database ProvisionError A → Flow A
  wrapped code retryable =
      with_error (λ e. refused (workflow_failure code retryable (l.provision_text e)))

  module _ (operation attempt : ℕ) where
    -- Execution.Progress and Execution.Step
    abbrev pub progress : OperationStatus → String → ℕ → String → Flow (Unit {0})
    progress status phase percent message_key =
        with_error (λ e. refused (other_error (l.operation_text e)))
          (update_progress operation status phase (pos percent) message_key)

    abbrev pub step : String → StepStatus → ℕ → StepOutput → Flow (Unit {0})
    step key status percent output =
        with_error (λ e. refused (other_error (l.operation_text e)))
          (execution_step operation (pos attempt) key status (pos percent) "" none
            (l.marshal output))

    abbrev pub schedule_request : Context → ScheduleRequest
    schedule_request c = record {
      node_group_id = c.node_group_id;
      resources = λ r. elim r [
        | cpu ↦ pos c.row.plan.cpu_cores
        | memory ↦ pos c.row.plan.memory_mb
        | disk ↦ pos c.row.plan.disk_gb
        | ipv4 ↦ pos c.row.plan.ipv4_count
        | ipv6 ↦ pos c.row.plan.ipv6_count
        | nat_port ↦ pos c.row.plan.nat_port_count
      ];
      required_capabilities = some (l.virtualization_json c.row.plan.virtualization);
      ttl = pos (30 * 60 * second);
    }

    -- What Execute makes of the scheduler's answer.
    abbrev pub after_reserve :
        Result InfrastructureError Reservation × World Database
        → Result Failure Reservation × World Database
    after_reserve (ok r, w) = (ok r, w)
    after_reserve (err (refused resource_exhausted), w) =
        (ignoring {F = Failure} (
              progress OperationStatus.waiting_resource "select_node" 15
                "operation.provision.waitingResource")
            >> fail (
                refused (
                  workflow_failure "RESOURCE_EXHAUSTED" true
                    (l.infrastructure_text (refused resource_exhausted)))))
          w
    after_reserve (err e, w) =
        (err (refused (workflow_failure "SCHEDULER_FAILED" true (l.infrastructure_text e))), w)

    unfoldable pub reserve_capacity : Context → Flow Reservation
    reserve_capacity c w = after_reserve (reserve l.postgres operation (schedule_request c) w)

    -- handleProviderError, and a value where there is one
    unfoldable pub or_handle : {A : Type 0} → Context → ℕ → Answer A → Flow A
    or_handle c reservation (Answer.answered a) = pure a
    or_handle c reservation (Answer.provider_error e) = do
      (if e.retryable then pure tt else (do
        ignoring (set_error c.row.instance.id)
        ignoring (release_reservation reservation)))
      fail (
          refused (
            workflow_error (record {
              code = e.code;
              message_key = "operation.providerError";
              retryable = e.retryable;
              cause = some (l.provider_text e);
            })))
    or_handle c reservation (Answer.other_error s) =
        fail (refused (workflow_failure "UNKNOWN_PROVIDER_ERROR" true s))

    abbrev pub create_request : Context → Placement → CreateInstanceRequest
    create_request c p = record {
      operation_id = l.names.uuid_text operation;
      idempotency_key = "provision:" & l.names.uuid_text operation;
      node_id = p.provider_node_id;
      instance_id = l.names.uuid_text c.row.instance.id;
      name = c.row.instance.name;
      cpu_cores = c.row.plan.cpu_cores;
      memory_mb = c.row.plan.memory_mb;
      disk_gb = c.row.plan.disk_gb;
      traffic_gb = c.row.plan.traffic_gb;
      bandwidth_mbps = c.row.plan.bandwidth_mbps;
      ipv4_count = c.row.plan.ipv4_count;
      ipv6_count = c.row.plan.ipv6_count;
      nat_port_count = c.row.plan.nat_port_count;
      image = c.row.plan.default_image_id;
      virtualization = c.row.plan.virtualization;
    }

    abbrev external_id : Option String → String
    external_id none = ""
    external_id (some s) = s

    -- Resolve
    abbrev pub resolved : Answer Adapter → Flow Adapter
    resolved (Answer.answered a) = pure a
    resolved (Answer.provider_error e) =
        fail (refused (workflow_failure "PROVIDER_UNAVAILABLE" true (l.provider_text e)))
    resolved (Answer.other_error s) =
        fail (refused (workflow_failure "PROVIDER_UNAVAILABLE" true s))

    -- Execute up to the placement
    unfoldable pub place_instance : Context → Flow (Reservation × Placement)
    place_instance c = do
      progress OperationStatus.running "validate_subscription" 2 "operation.provision.validating"
      step "validate_subscription" StepStatus.succeeded 100
          (subscription_output c.row.subscription.id)
      step "select_node" StepStatus.running 20 nothing
      r ← reserve_capacity c
      step "select_node" StepStatus.succeeded 100 (node_output r.node_id)
      step "reserve_resources" StepStatus.succeeded 100 (reservation_output r.id)
      p ← wrapped "PLACEMENT_MISSING" true (placement l.names operation)
      wrapped "INSTANCE_PLACEMENT_FAILED" true (set_placement c.row.instance.id p)
      pure (r, p)

    -- From CreateInstance to GetInstance
    unfoldable pub create_server :
        Context → Reservation → Placement → Adapter → Flow ProviderInstance
    create_server c r p adapter = do
      progress OperationStatus.waiting_provider "create_instance" 35 "operation.provision.creating"
      step "create_instance" StepStatus.running 20 nothing
      created ← or_handle c r.id (adapter.create_instance (create_request c p))
      step "create_instance" StepStatus.succeeded 100
          (operation_output created.provider_operation_id)
      step "wait_provider" StepStatus.running 50 nothing
      or_handle c r.id (
          adapter.get_instance (record {
            node_id = p.provider_node_id;
            provider_instance_id = external_id c.row.instance.provider_instance_id;
            platform_instance_id = l.names.uuid_text c.row.instance.id;
          }))

    -- What follows the provider's work.
    unfoldable pub verify_server : ProviderInstance → Flow (Unit {0})
    verify_server i = do
      step "wait_provider" StepStatus.succeeded 100 (instance_output i.provider_instance_id)
      step "configure_network" StepStatus.succeeded 100
          (network_output (length i.ipv4) (length i.ipv6))
      if str_eq i.state "running" then pure tt else (do
        ignoring {F = Failure}
            (progress OperationStatus.verifying "verify_running" 75 "operation.provision.verifying")
        fail (
            refused
              (workflow_failure "INSTANCE_NOT_RUNNING" true ("provider state is " & i.state))))
      step "verify_running" StepStatus.succeeded 100 (state_output i.state)

    unfoldable pub finish_instance : Context → Placement → ProviderInstance → Flow (Unit {0})
    finish_instance c p i = do
      wrapped "INSTANCE_PERSIST_FAILED" true (
          save_provider_result l.names c.row.instance.id i.provider_instance_id
            ObservedState.running i.ipv4 i.ipv6)
      step "persist_network" StepStatus.succeeded 100 empty_output
      step "commit_reservation" StepStatus.running 80 nothing
      wrapped "PROVISION_FINALIZE_FAILED" true (finalize l.names c p)
      step "commit_reservation" StepStatus.succeeded 100 nothing
      step "activate_subscription" StepStatus.succeeded 100
          (subscription_output c.row.subscription.id)
      step "notify" StepStatus.succeeded 100 nothing
      progress OperationStatus.running "finish" 99 "operation.provision.finishing"

    unfoldable pub provision_flow : Flow (Unit {0})
    provision_flow = do
      c ← wrapped "PROVISION_CONTEXT_INVALID" false (context operation)
      rp ← place_instance c
      adapter ← resolved (l.resolve attempt rp.1.provider_id)
      i ← create_server c rp.0 rp.1 adapter
      verify_server i
      finish_instance c rp.1 i

-- The error that Execute returns; the driver's errors are texts by then.
abbrev pub returned : Result Failure (Unit {0}) × World Database → Option Failure × World Database
returned (ok _, w) = (none, w)
returned (err (refused f), w) = (some f, w)
returned (err _, w) = (some (other_error ""), w)

-- Workflow.Execute
unfoldable pub provision_workflow : Library → Workflow
provision_workflow l operation attempt w = returned (provision_flow l operation attempt w)
