-- ===== src/Operation/Message.antt =====
-- processMessage of backend/internal/operation/queue.go from the message to the end of the execution.
use Prim.Native.String.{String}
use vps_billing_codex.Shared.{
  ℕ, ◌+◌, ◌≡◌, ◌==◌, true, false, ◌&&◌, Option, some, arith, leb, option_map, ap, ◌∙◌,
}
use mathlib.Core.Path.{subst, sym}
use vps_billing_codex.Shared.Table.{get}
use vps_billing_codex.Shared.Tx.{World, ok, IsUp}
use vps_billing_codex.Store.{Database, Operation}
use vps_billing_codex.Operation.{op_id, is_final, is_queued, claimed}
use vps_billing_codex.Operation.Queue.{
  Failure, Workflow, Registry, run_claimed, settle_execution, after_claim, claim_and_run,
  process_message,
}
use vps_billing_codex.Operation.Claim.{
  after_claim as world_after_claim, claim_lem, outcome, expected, settle_execution_lem,
}

run_claimed_lem :
    (registry : Registry) (current : Operation) (w : World Database) {f : Workflow}
    → registry current.kind ≡ some f
    → run_claimed registry current w
      ≡ settle_execution current
          (f current.id (current.retry_count + 1) w).0
          (f current.id (current.retry_count + 1) w).1
unfolding run_claimed
run_claimed_lem registry current w known = ground arith

-- A message for a queued operation that is due, while the database answers: the operation is claimed,
-- its workflow runs once as the next attempt, and if that leaves the operation open and the database
-- answering, the message ends without an error and the row is succeeded, retrying or failed as the
-- workflow's error and the retries left demand.
pub process_message_lem :
    (decode : String → Option ℕ) (registry : Registry) (text : String) (id : ℕ) (w : World Database)
    {o row : Operation} {f : Workflow} {failure : Option Failure} {w' : World Database}
    → IsUp w
    → decode text ≡ some id
    → (id == 0) ≡ false
    → get op_id id w.store.operations ≡ some o
    → (is_queued o.status && leb o.next_attempt_at w.now) ≡ true
    → registry o.kind ≡ some f
    → f o.id (o.retry_count + 1) (world_after_claim id w o) ≡ (failure, w')
    → IsUp w'
    → get op_id o.id w'.store.operations ≡ some row
    → is_final row.status ≡ false
    → let (r, w'') = process_message decode registry (some text) w in
      (r ≡ ok tt)
      × (option_map outcome (get op_id o.id w''.saved.operations)
          ≡ some (expected (claimed w.now o) row failure w'.now))
unfolding process_message
process_message_lem decode registry text id w {o} {row} {f} {failure} {w'} up read real found due
      known ran up' there open_ =
    let current = claimed w.now o in
    let e : process_message decode registry (some text) w ≡ claim_and_run registry id w =
      ground arith in
    let whole =
      e
      ∙ ap (after_claim registry) (claim_lem id w {o = o} up found due)
      ∙ run_claimed_lem registry current (world_after_claim id w o) {f = f} known
      ∙ ap (λ p. settle_execution current p.0 p.1) ran in
    subst
      (λ p.
        (p.0 ≡ ok tt)
        × (option_map outcome (get op_id o.id p.1.saved.operations)
            ≡ some (expected current row failure w'.now)))
      (sym whole) (settle_execution_lem current failure w' {o = row} up' there open_)
