-- ===== src/Provision/Returned.antt =====
-- A workflow that returns no error: its body ended without one, in the same world. It models no code of
-- its own.
use vps_billing_codex.Shared.{◌≡◌, none, refl, arith}
use vps_billing_codex.Shared.Tx.{World, Error, Result, ok, err, refused}
use vps_billing_codex.Store.{Database}
use vps_billing_codex.Operation.Queue.{Failure}
use vps_billing_codex.Provision.Workflow.{returned}

pub returned-ok :
    (p : Result Failure (Unit {0}) × World Database) → (returned p).0 ≡ none → p.0 ≡ ok tt
returned-ok (ok a, w) h = refl
returned-ok (err (refused f), w) h = absurd (ground (arith, h))
returned-ok (err Error.database, w) h = absurd (ground (arith, h))
returned-ok (err Error.no_rows, w) h = absurd (ground (arith, h))
returned-ok (err Error.unique_violation, w) h = absurd (ground (arith, h))

pub returned-world : (p : Result Failure (Unit {0}) × World Database) → (returned p).1 ≡ p.1
returned-world (ok a, w) = refl
returned-world (err (refused f), w) = refl
returned-world (err Error.database, w) = refl
returned-world (err Error.no_rows, w) = refl
returned-world (err Error.unique_violation, w) = refl
