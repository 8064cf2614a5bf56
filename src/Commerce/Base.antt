-- ===== src/Commerce/Base.antt =====
-- The errors of backend/internal/commerce/commerce.go, and what the package takes from Go's library
-- and from PostgreSQL.
use Prim.Native.String.{String}
use text.Mathlib.Text.{◌==◌ as str_eq}
use vps_billing_codex.Shared.{ℕ, Bool, false, Option, none, some, if◌then◌else◌}
use vps_billing_codex.Shared.Tx.{M}
use vps_billing_codex.Store.{Database, BillingCycle}

-- The sentinel errors, and the one that validateBalanced makes.
pub data CommerceError : Type 0 where
  plan_not_found invalid_quantity invalid_idempotency idempotency_conflict : CommerceError
  payment_not_found payment_mismatch payment_state : CommerceError
  subscription_not_found subscription_state ledger_rejected : CommerceError

abbrev pub Action : Type 0 → Type 0
Action = M Database CommerceError

-- strings.ToUpper; encoding/json's Decode with UseNumber (a value and the rest of the input), whether
-- a further Decode reports io.EOF, and Marshal; PostgreSQL's timestamptz + interval.
pub record Library : Type 1 where
  pub to_upper : String → String
  pub Json : Type 0
  pub decode : String → Option (Json × String)
  pub at_end : String → Bool
  pub marshal : Json → String
  pub add_cycle : BillingCycle → ℕ → ℕ

-- canonicalJSON
unfoldable pub canonical_json : Library → String → Option String
canonical_json lib payload = elim (lib.decode payload) [
  | none ↦ none
  | some p ↦ if lib.at_end p.1 then some (lib.marshal p.0) else none
]

abbrev both_equal : Option String → Option String → Bool
both_equal (some a) (some b) = str_eq a b
both_equal _ _ = false

-- equalJSON
unfoldable pub equal_json : Library → String → String → Bool
unfolding canonical_json
equal_json lib left right = both_equal (canonical_json lib left) (canonical_json lib right)

-- `text` of the source: an empty string is a null.
abbrev pub nullable_text : String → Option String
nullable_text s = if str_eq s "" then none else some s
