-- ===== src/Commerce/Ledger/Balanced.antt =====
-- validateBalanced of backend/internal/commerce/repository.go against double entry: debits and credits
-- agree in every currency.
use Prim.Native.String.{String}
use mathlib.Core.Path.{subst}
use text.Mathlib.Text.{◌==◌ as str_eq}
use text.Mathlib.TextEquality.{eq_iff}
use vps_billing_codex.Shared.{
  ℕ, ◌+◌, ◌-◌, ◌%◌, ◌≡◌, ◌↔◌, ◌⊎◌, inl, inr, refl, Bool, true, false, ◌&&◌, ◌||◌, sym, ◌∙◌, List,
  [], ◌∷◌, if◌then◌else◌, All, arith, Bool-cases, ◌<◌,
}
use vps_billing_codex.Shared.Int.{pos, pos_part, ◌≤ℤ◌}
use vps_billing_codex.Store.{LedgerEntry, Direction, debit, credit}
use vps_billing_codex.Commerce.Ledger.{
  word, Balances, no_balances, adjust, Check, running, failed, tally, all_zero, settle, is_running,
  validate_balanced,
}

abbrev pub is_debit : Direction → Bool
is_debit debit = true
is_debit _ = false

abbrev pub is_credit : Direction → Bool
is_credit credit = true
is_credit _ = false

-- The amounts of one side in one currency, added without a bound.
abbrev pub side : (Direction → Bool) → String → List LedgerEntry → ℕ
side d c [] = 0
side d c (e ∷ es) =
    (if d e.direction && str_eq c e.currency then pos_part e.amount_minor else 0) + side d c es

abbrev pub IsEntry : LedgerEntry → Type 0
IsEntry e = (pos 0 ≤ℤ e.amount_minor) × ((e.direction ≡ debit) ⊎ (e.direction ≡ credit))

abbrev pub accepts : List LedgerEntry → Bool
accepts es = is_running (validate_balanced es)

abbrev debited : LedgerEntry → Balances → Balances
debited e b = adjust e.currency (λ v. (v + pos_part e.amount_minor) % word) b

abbrev credited : LedgerEntry → Balances → Balances
credited e b = adjust e.currency (λ v. (v + (word - pos_part e.amount_minor % word)) % word) b

tally_debit :
    (e : LedgerEntry) (es : List LedgerEntry) (b : Balances)
    → pos 0 ≤ℤ e.amount_minor
    → e.direction ≡ debit
    → tally (e ∷ es) b ≡ tally es (debited e b)
unfolding tally
tally_debit e es b sign d = ground arith

tally_credit :
    (e : LedgerEntry) (es : List LedgerEntry) (b : Balances)
    → pos 0 ≤ℤ e.amount_minor
    → e.direction ≡ credit
    → tally (e ∷ es) b ≡ tally es (credited e b)
unfolding tally
tally_credit e es b sign d = ground arith

-- An entry that is refused stops the loop.
tally-IsEntry :
    (e : LedgerEntry) (es : List LedgerEntry) (b : Balances) {b' : Balances}
    → tally (e ∷ es) b ≡ running b'
    → IsEntry e
unfolding tally
tally-IsEntry e es b h = ground arith

-- What the balances hold after the loop: everything debited, less everything credited.
abbrev Holds : List LedgerEntry → Balances → Balances → Type 0
Holds es b b' =
    (c : String)
    → (b'.value c + side is_credit c es) % word ≡ (b.value c + side is_debit c es) % word

debit_step :
    (e : LedgerEntry) (es : List LedgerEntry) (b b' : Balances)
    → e.direction ≡ debit
    → Holds es (debited e b) b'
    → Holds (e ∷ es) b b'
debit_step e es b b' d h c = ground (arith, h c)

credit_step :
    (e : LedgerEntry) (es : List LedgerEntry) (b b' : Balances)
    → e.direction ≡ credit
    → Holds es (credited e b) b'
    → Holds (e ∷ es) b b'
credit_step e es b b' d h c = ground (arith, h c)

running_inj : {b b' : Balances} → running b ≡ running b' → b ≡ b'
running_inj h = cc

-- A key that no entry has touched has balance zero.
abbrev has_name : List String → String → Bool
has_name [] c = false
has_name (k ∷ ks) c = str_eq c k || has_name ks c

abbrev Tracks : Balances → Type 0
Tracks b = (c : String) → has_name b.keys c ≡ false → b.value c ≡ 0

adjust-Tracks : (k : String) (f : ℕ → ℕ) (b : Balances) → Tracks b → Tracks (adjust k f b)
adjust-Tracks k f b h c absent = ground (arith, h c)

-- Values are 64-bit patterns.
abbrev IsWord : Balances → Type 0
IsWord b = (c : String) → b.value c < word

record Tallied (es : List LedgerEntry) (b b' : Balances) : Type 0 where
  entries : All IsEntry es
  holds : Holds es b b'
  tracks : Tracks b → Tracks b'
  words : IsWord b → IsWord b'

tally-Tallied :
    (es : List LedgerEntry) (b b' : Balances) → tally es b ≡ running b' → Tallied es b b'
unfolding tally
tally-Tallied [] b b' h =
    subst (Tallied [] b) (running_inj h)
      (record { entries = tt; holds = λ c. refl; tracks = λ t. t; words = λ t. t })
tally-Tallied (e ∷ es) b b' h =
    let (sign, d) = tally-IsEntry e es b h in
    elim d [
      | inl d ↦
          let rest = tally-Tallied es (debited e b) b' (sym (tally_debit e es b sign d) ∙ h) in
          record {
            entries = ((sign, inl d), rest.entries);
            holds = debit_step e es b b' d rest.holds;
            tracks = λ t.
                rest.tracks
                  (adjust-Tracks e.currency (λ x. (x + pos_part e.amount_minor) % word) b t);
            words = λ t. rest.words (λ c. ground (arith, t c));
          }
      | inr d ↦
          let rest = tally-Tallied es (credited e b) b' (sym (tally_credit e es b sign d) ∙ h) in
          record {
            entries = ((sign, inr d), rest.entries);
            holds = credit_step e es b b' d rest.holds;
            tracks = λ t. rest.tracks (
                adjust-Tracks e.currency (λ x. (x + (word - pos_part e.amount_minor % word)) % word)
                  b t);
            words = λ t. rest.words (λ c. ground (arith, t c));
          }
    ]

tally_complete :
    (es : List LedgerEntry) (b : Balances)
    → All IsEntry es
    → (b' : Balances) × (tally es b ≡ running b')
unfolding tally
tally_complete [] b h = (b, refl)
tally_complete (e ∷ es) b h = elim (h.0.1) [
  | inl d ↦
      let (b', t) = tally_complete es (debited e b) h.1 in (b', tally_debit e es b h.0.0 d ∙ t)
  | inr d ↦
      let (b', t) = tally_complete es (credited e b) h.1 in (b', tally_credit e es b h.0.0 d ∙ t)
]

all_zero_sound :
    (ks : List String) (value : String → ℕ) (c : String)
    → all_zero ks value ≡ true
    → has_name ks c ≡ true
    → value c ≡ 0
unfolding all_zero
all_zero_sound [] value c z h = absurd (cc)
all_zero_sound (k ∷ ks) value c z h = ground (arith, eq_iff c k, all_zero_sound ks value c)

all_zero_complete :
    (ks : List String) (value : String → ℕ)
    → ((c : String) → value c ≡ 0)
    → all_zero ks value ≡ true
unfolding all_zero
all_zero_complete [] value h = refl
all_zero_complete (k ∷ ks) value h = ground (arith, h k, all_zero_complete ks value h)

settle_running :
    (k : Check)
    → is_running (settle k) ≡ true
    → (b : Balances) × (k ≡ running b) × (all_zero b.keys b.value ≡ true)
settle_running (running b) h = (b, refl, ground arith)
settle_running (failed x) h = absurd (cc)

value_zero :
    (es : List LedgerEntry) (b : Balances)
    → Tallied es no_balances b
    → all_zero b.keys b.value ≡ true
    → (c : String) → b.value c ≡ 0
value_zero es b t z c = elim (Bool-cases (has_name b.keys c)) [
  | inl touched ↦ all_zero_sound b.keys b.value c z touched
  | inr absent ↦ t.tracks (λ _ _. refl) c absent
]

accepted :
    (es : List LedgerEntry)
    → accepts es ≡ true
    → All IsEntry es × ((c : String) → side is_debit c es % word ≡ side is_credit c es % word)
unfolding validate_balanced
accepted es h =
    let (b, t, z) = settle_running (tally es no_balances) h in
    let posted = tally-Tallied es no_balances b t in
    (posted.entries, λ c. omega (arith, posted.holds c, value_zero es b posted z c))

accepting :
    (es : List LedgerEntry)
    → All IsEntry es
    → ((c : String) → side is_debit c es % word ≡ side is_credit c es % word)
    → accepts es ≡ true
unfolding validate_balanced
accepting es entries agree =
    let (b, t) = tally_complete es no_balances entries in
    let posted = tally-Tallied es no_balances b t in
    let words = posted.words (λ _. omega arith) in
    let zero_at =
      all_zero_complete b.keys b.value (λ c. omega (arith, posted.holds c, agree c, words c)) in
    rw t (rw zero_at refl)

-- validateBalanced accepts exactly the transactions in double entry: every amount is at least zero on
-- the debit or the credit side, and in every currency both sides add up to the same, as int64 sums.
pub validate_balanced_iff :
    (es : List LedgerEntry)
    → (accepts es ≡ true)
      ↔ (All IsEntry es × ((c : String) → side is_debit c es % word ≡ side is_credit c es % word))
validate_balanced_iff es = (accepted es, λ h. accepting es h.0 h.1)
