-- ===== src/Commerce/Ledger.antt =====
-- validateBalanced of backend/internal/commerce/repository.go: the double-entry check on the entries
-- of a transaction. A Go map of int64 balances is the list of its keys and a function into 64-bit
-- patterns, so that sums wrap around as they do there.
pub mod Balanced
use Prim.Native.String.{String}
use text.Mathlib.Text.{◌==◌ as str_eq}
use vps_billing_codex.Shared.{
  ℕ, ◌+◌, ◌-◌, ◌%◌, ◌^◌, Bool, true, false, ◌&&◌, List, [], ◌∷◌, ◌==◌, if◌then◌else◌,
}
use vps_billing_codex.Shared.Int.{ℤ, pos, pos_part, ltb_ℤ}
use vps_billing_codex.Store.{LedgerEntry, Direction, debit, credit}

abbrev pub word : ℕ
word = 2 ^ 64

pub record Balances : Type 0 where
  pub keys : List String
  pub value : String → ℕ

abbrev pub no_balances : Balances
no_balances = record { keys = []; value = λ _. 0 }

-- balances[c] = f(balances[c])
abbrev pub adjust : String → (ℕ → ℕ) → Balances → Balances
adjust c f b = record {
  keys = c ∷ b.keys;
  value = λ k. if str_eq k c then f (b.value k) else b.value k;
}

pub data LedgerError : Type 0 where
  negative_amount invalid_direction unbalanced : LedgerError

pub data Check : Type 0 where
  running : Balances → Check
  failed : LedgerError → Check

-- One round of the first loop, for an amount that is not negative.
abbrev pub post : Direction → String → ℕ → Balances → Check
post debit c amount b = running (adjust c (λ v. (v + amount) % word) b)
post credit c amount b = running (adjust c (λ v. (v + (word - amount % word)) % word) b)
post (Direction.other _) c amount b = failed invalid_direction

abbrev pub post_entry : LedgerEntry → Balances → Check
post_entry e b =
    if ltb_ℤ e.amount_minor (pos 0)
    then failed negative_amount
    else post e.direction e.currency (pos_part e.amount_minor) b

unfoldable pub tally : List LedgerEntry → Balances → Check
tally [] b = running b
tally (e ∷ es) b = elim (post_entry e b) [ running b' ↦ tally es b' | failed x ↦ failed x ]

-- The second loop: every balance is zero.
unfoldable pub all_zero : List String → (String → ℕ) → Bool
all_zero [] value = true
all_zero (k ∷ ks) value = value k == 0 && all_zero ks value

abbrev pub settle : Check → Check
settle (running b) = if all_zero b.keys b.value then running b else failed unbalanced
settle (failed x) = failed x

abbrev pub is_running : Check → Bool
is_running (running _) = true
is_running (failed _) = false

unfoldable pub validate_balanced : List LedgerEntry → Check
validate_balanced entries = settle (tally entries no_balances)
