-- ===== src/InstanceAction/Settles.antt =====
-- What a run of Execute in backend/internal/instanceaction/workflow.go leaves of the instance when it
-- ends without an error.
use Prim.Native.String.{String}
use text.Mathlib.Text.{◌==◌ as str_eq}
use vps_billing_codex.Shared.{◌&◌, ℕ, false}
use vps_billing_codex.Shared.Tx.{refused, ◌>>=◌, or_fail}
use vps_billing_codex.Provision.Workflow.{Flow}
use vps_billing_codex.InstanceAction.{
  Surroundings, ActionContext, action_of, perform, action_failure,
}

module _ (l : Surroundings) (operation attempt : ℕ) where
  abbrev after_context : ActionContext → Flow (Unit {0})
  after_context c =
      or_fail (action_of c.operation_type) (
        refused
          (action_failure l "UNSUPPORTED_OPERATION" false ("unknown action " & c.operation_type)))
      >>= λ a. perform l operation attempt c a
