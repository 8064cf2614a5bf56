-- ===== src/Provision/RunTests.antt =====
-- A run of Workflow.Execute of backend/internal/provision/workflow.go over the one server of a paid
-- order, with a provider that answers.
use Prim.Native.String.{String}
use vps_billing_codex.Shared.{List, ◌≡◌, true, false, none, some, [], ◌∷◌, refl}
use vps_billing_codex.Shared.Int.{pos}
use vps_billing_codex.Shared.Tx.{World}
use vps_billing_codex.Store.{Database, Operation, OperationStatus, OperationStep, StepStatus}
use vps_billing_codex.Operation.{update_progress, mutate, update_operation_progress, create_event}
use vps_billing_codex.Operation.Create.{
  execution_step, update_step, update_operation_step, create_step_event,
}
use vps_billing_codex.Infrastructure.{
  reserve, reserve_in_transaction, valid_capacity_request, take_reserved, set_reservation_status,
}
use vps_billing_codex.Provider.{Answer, Adapter, ProviderOperation, ProviderInstance}
use vps_billing_codex.Provision.{
  provision_context, provision_placement, set_instance_placement, set_provider_result,
  activate_subscription, activated, mark_fulfilled_if_ready, create_notification,
  create_domain_event, deterministic_id,
}
use vps_billing_codex.Provision.Finalize.{
  context, placement, set_placement, save_provider_result, finalize, settle_reserved, activate,
  first_address,
}
use vps_billing_codex.Provision.Workflow.{
  Library, provision_workflow, provision_flow, place_instance, reserve_capacity, create_server,
  or_handle, verify_server, finish_instance,
}
use vps_billing_codex.Provision.Active.{has_active}
use vps_billing_codex.Provision.Activates.{workflow_activates}
use vps_billing_codex.Provision.Tests.{short_names, world, provisioned, server, pending, plan}

abbrev accepted : ProviderOperation
accepted = record { provider_operation_id = "p-1"; status = "succeeded"; accepted = true }

abbrev running_server : ProviderInstance
running_server = record {
  provider_instance_id = "i-1";
  state = "running";
  ipv4 = "192.0.2.1" ∷ [];
  ipv6 = [];
}

abbrev willing : Adapter
willing = record {
  create_instance = λ _. Answer.answered accepted;
  get_instance = λ _. Answer.answered running_server;
  start_instance = λ _. Answer.answered accepted;
  stop_instance = λ _. Answer.answered accepted;
  restart_instance = λ _. Answer.answered accepted;
  reinstall_instance = λ _ _. Answer.answered accepted;
}

abbrev library : Library
library = record {
  names = short_names;
  postgres = record { contains = λ _ _. true; quotient = λ n d. n };
  operation_text = λ _. "operation error";
  provision_text = λ _. "provision error";
  infrastructure_text = λ _. "scheduler error";
  provider_text = λ _. "provider error";
  marshal = λ _. "{}";
  virtualization_json = λ _. "[]";
  resolve = λ attempt provider. Answer.answered willing;
}

abbrev pub job : Operation
job = record {
  id = 30;
  kind = "provision";
  resource_type = "instance";
  resource_id = server.id;
  status = OperationStatus.running;
  phase = some "queued";
  progress = pos 0;
  message_key = some "operation.queued";
  idempotency_key = "provision:40";
  retryable = false;
  retry_count = 0;
  max_retries = 5;
  error_code = none;
  error_message = none;
  trace_id = "trace";
  started_at = none;
  finished_at = none;
  user_id = some 2;
  actor_admin_id = none;
  next_attempt_at = 90;
  heartbeat_at = none;
}

abbrev pub step_of_job : String → OperationStep
step_of_job key = record {
  id = 50;
  operation_id = 30;
  step_key = key;
  step_order = pos 1;
  status = StepStatus.pending;
  progress = pos 0;
  attempt = pos 0;
  error_code = none;
  error_message = none;
  output = "{}";
  started_at = none;
  finished_at = none;
}

abbrev steps : List OperationStep
steps =
    step_of_job "validate_subscription"
    ∷ step_of_job "select_node"
    ∷ step_of_job "reserve_resources"
    ∷ step_of_job "create_instance"
    ∷ step_of_job "wait_provider"
    ∷ step_of_job "configure_network"
    ∷ step_of_job "verify_running"
    ∷ step_of_job "persist_network"
    ∷ step_of_job "commit_reservation"
    ∷ step_of_job "activate_subscription"
    ∷ step_of_job "notify"
    ∷ []

abbrev ready : World Database
ready =
    world (record provisioned { operations = job ∷ []; operation_steps = steps; plans = plan ∷ [] })

run : (provision_workflow library 30 1 ready).0 ≡ none
unfolding provision_workflow provision_flow place_instance reserve_capacity create_server or_handle
    verify_server finish_instance context placement set_placement save_provider_result finalize
    settle_reserved activate first_address provision_context provision_placement
    set_instance_placement set_provider_result activate_subscription activated
    mark_fulfilled_if_ready create_notification create_domain_event deterministic_id reserve
    reserve_in_transaction valid_capacity_request take_reserved set_reservation_status
    update_progress mutate update_operation_progress create_event execution_step update_step
    update_operation_step create_step_event
run = refl

workflow_activates_example :
    has_active pending.id (provision_workflow library 30 1 ready).1.saved.subscriptions ≡ true
unfolding provision_context deterministic_id
workflow_activates_example =
    workflow_activates library 30 1 ready
      (record { operation_id = 30; instance = server; subscription = pending; plan = plan }) refl
      refl run
