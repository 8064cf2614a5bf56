-- ===== src/InstanceAction/Tests.antt =====
-- A stop of one instance by Execute of backend/internal/instanceaction/workflow.go, with a provider that
-- answers.
use vps_billing_codex.Shared.{◌∷◌, [], true, some}
use vps_billing_codex.Shared.Tx.{World}
use vps_billing_codex.Store.{
  Database, empty_database, Operation, Instance, DesiredState, ObservedState,
}
use vps_billing_codex.Provider.{Answer, Adapter, ProviderOperation, ProviderInstance}
use vps_billing_codex.InstanceAction.{Surroundings}
use vps_billing_codex.Provision.Tests.{node, server, world}
use vps_billing_codex.Provision.RunTests.{job, step_of_job}

abbrev accepted : ProviderOperation
accepted = record { provider_operation_id = "p-2"; status = "succeeded"; accepted = true }

abbrev stopped_server : ProviderInstance
stopped_server = record { provider_instance_id = "i-1"; state = "stopped"; ipv4 = []; ipv6 = [] }

abbrev obedient : Adapter
obedient = record {
  create_instance = λ _. Answer.answered accepted;
  get_instance = λ _. Answer.answered stopped_server;
  start_instance = λ _. Answer.answered accepted;
  stop_instance = λ _. Answer.answered accepted;
  restart_instance = λ _. Answer.answered accepted;
  reinstall_instance = λ _ _. Answer.answered accepted;
}

abbrev surroundings : Surroundings
surroundings = record {
  uuid_text = λ _. "id";
  operation_text = λ _. "operation error";
  action_text = λ _. "action error";
  provider_text = λ _. "provider error";
  marshal = λ _. "{}";
  resolve = λ attempt provider. Answer.answered obedient;
}

abbrev running_instance : Instance
running_instance = record server {
  id = 60;
  node_id = some 1;
  provider_id = some 2;
  provider_instance_id = some "i-1";
  desired_state = DesiredState.running;
  observed_state = ObservedState.running;
}

abbrev stop_job : Operation
stop_job = record job { kind = "stop"; resource_id = 60 }

abbrev ready : World Database
ready =
    let db : Database = record empty_database {
      operations = stop_job ∷ [];
      operation_steps = step_of_job "validate" ∷ step_of_job "provider" ∷ step_of_job "verify" ∷ [];
      instances = running_instance ∷ [];
      nodes = node ∷ [];
    } in
    world db
