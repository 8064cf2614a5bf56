-- ===== src/Operation/Create/Tests.antt =====
-- Runs of Create and UpdateStep of backend/internal/operation on small tables.
use vps_billing_codex.Shared.{arith, ◌≡◌, false, none, some, [], ◌∷◌, refl}
use vps_billing_codex.Shared.Int.{pos}
use vps_billing_codex.Shared.Tx.{World, ok}
use vps_billing_codex.Store.{
  Database, empty_database, Operation, running, OperationStep, StepStatus,
}
use vps_billing_codex.Operation.Create.{
  CreateRequest, operation_row, step_row, create_operation, update_step, StepUpdate, updated_step,
  modify_step,
}
use vps_billing_codex.Operation.Create.Busy.{HasOneAction, create_keeps_one_action}
use vps_billing_codex.Operation.Create.Again.{
  answered, create_operation_again, step_event, update_step_lem,
}

abbrev restart_request : CreateRequest
restart_request = record {
  kind = "restart";
  resource_type = "instance";
  resource_id = 9;
  idempotency_key = "restart-9";
  trace_id = "trace";
  user_id = some 3;
  actor_admin_id = none;
  max_retries = 3;
  steps =
      record { key = "validate"; order = pos 1 } ∷ record { key = "provider"; order = pos 2 } ∷ [];
}

abbrev job : Operation
job = record (operation_row 5 90 restart_request) {
  kind = "stop";
  status = running;
  idempotency_key = "stop-9";
}

abbrev step : OperationStep
step = step_row 6 5 (record { key = "provider"; order = pos 2 })

abbrev world : Database → World Database
world db = record {
  store = db;
  saved = db;
  now = 100;
  next_id = 1000;
  calls = 0;
  broken = λ _. false;
  locked = λ _. false;
}

abbrev same : Database → Database
same db = db

abbrev busy : Database
busy = record empty_database { operations = job ∷ []; operation_steps = step ∷ [] }

create_operation_again_example :
    let r = record restart_request { idempotency_key = "stop-9" } in
    ((create_operation same r (world busy)).0 ≡ answered r job busy)
    × ((create_operation same r (world busy)).1.saved ≡ busy)
create_operation_again_example =
    create_operation_again same (record restart_request { idempotency_key = "stop-9" }) (world busy)
      {o = job} (λ _. refl) refl

create_keeps_one_action_example :
    HasOneAction 9 (create_operation same restart_request (world busy)).1.saved
create_keeps_one_action_example =
    create_keeps_one_action 9 same restart_request (world busy) (omega arith) (omega arith)
      (λ db h. h)

abbrev half_done : StepUpdate
half_done = record {
  status = StepStatus.running;
  progress = pos 50;
  attempt = pos 1;
  error_code = "";
  error_message = "";
  output = "";
}

update_step_lem_example :
    ((update_step 5 "provider" half_done (world busy)).0 ≡ ok tt)
    × ((update_step 5 "provider" half_done (world busy)).1.saved ≡ record busy {
      operation_steps = modify_step 5 "provider" (updated_step half_done 100) (step ∷ []);
      outbox = step_event 1000 100 job (updated_step half_done 100 step) ∷ [];
    })
update_step_lem_example =
    update_step_lem 5 "provider" half_done (world busy) {s = step} {o = job} (λ _. refl) refl refl
      refl
