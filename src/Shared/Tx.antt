-- ===== src/Shared/Tx.antt =====
-- A database session as the Go code uses one: pgx's BeginTx, Commit and the deferred Rollback, with a
-- driver that may fail at any statement. It models no file of its own; the repositories are `do`
-- blocks in this monad.
use Prim.Native.Nat.{ℕ, ◌+◌}
use mathlib.Core.Path.{◌≡◌, refl, ap}
use mathlib.Core.Logic.{◌⊎◌, inl, inr}
use mathlib.Core.Bool.{Bool, false}
use mathlib.Core.Option.{Option, none, some}
use mathlib.Core.List.{List, [], ◌∷◌}
use vps_billing_codex.Shared.Tests.{if◌then◌else◌}

-- `database` is an error of the driver, `no_rows` is pgx.ErrNoRows returned as it is,
-- `unique_violation` is PostgreSQL's 23505, and `refused` is a sentinel error of the package.
pub data Error (E : Type 0) : Type 0 where
  database no_rows unique_violation : Error E
  refused : E → Error E

pub data Result (E A : Type 0) : Type 0 where
  ok : A → Result E A
  err : Error E → Result E A

-- `saved` is what is committed, and `store` what this session sees. The driver fails at the n-th
-- statement if `broken n`; `calls` counts the statements. Other sessions hold row locks on the keys
-- that `locked` says. `now` is both the program's clock and
-- PostgreSQL's now(), and `next_id` feeds newID, whose values are never given twice.
pub record World (S : Type 0) : Type 0 where
  pub store : S
  pub saved : S
  pub now : ℕ
  pub next_id : ℕ
  pub calls : ℕ
  pub broken : ℕ → Bool
  pub locked : ℕ → Bool

abbrev pub M : Type 0 → Type 0 → Type 0 → Type 0
M S E A = World S → Result E A × World S

module _ {S E A : Type 0} where
  abbrev pub pure : A → M S E A
  pure a w = (ok a, w)

  abbrev pub fail : Error E → M S E A
  fail e w = (err e, w)

  abbrev pub or_fail : Option A → Error E → M S E A
  or_fail none e = fail e
  or_fail (some a) _ = pure a

-- What follows a step, by how the step ended.
abbrev pub continue_with :
    {S E A B : Type 0} → (A → M S E B) → Result E A × World S → Result E B × World S
continue_with f (ok a, w) = f a w
continue_with f (err e, w) = (err e, w)

infixl 5 ◌>>=◌ ◌>>◌
abbrev pub ◌>>=◌ : {S E A B : Type 0} → M S E A → (A → M S E B) → M S E B
◌>>=◌ m f w = continue_with f (m w)

abbrev pub ◌>>◌ : {S E B : Type 0} → M S E (Unit {0}) → M S E B → M S E B
m >> k = m >>= λ _. k

-- A bind whose first part is known to succeed, and one whose first part is known to fail.
pub >>=-ok :
    {S E A B : Type 0} (m : M S E A) (f : A → M S E B) {a : A} {w w' : World S}
    → m w ≡ (ok a, w')
    → (m >>= f) w ≡ f a w'
>>=-ok m f e = ap (continue_with f) e

pub >>-ok :
    {S E B : Type 0} (m : M S E (Unit {0})) (k : M S E B) {w w' : World S}
    → m w ≡ (ok tt, w')
    → (m >> k) w ≡ k w'
>>-ok m k e = >>=-ok m (λ _. k) e

abbrev pub fail_if : {S E : Type 0} → Bool → Error E → M S E (Unit {0})
fail_if c e w = (if c then err e else ok tt, w)

-- One round trip to the database: the driver may fail.
abbrev pub statement : {S E : Type 0} → M S E (Unit {0})
statement w = (if w.broken w.calls then err database else ok tt, record w { calls = w.calls + 1 })

module _ {S E A : Type 0} where
  abbrev pub select : (S → A) → M S E A
  select f = statement >> λ w. (ok (f w.store), w)

  -- A statement that changes the store and returns a row.
  abbrev pub change : (S → A × S) → M S E A
  change f = statement >> λ w. let (a, s) = f w.store in (ok a, record w { store = s })

  -- The same where no row may be met.
  abbrev pub change_row : (S → Option (A × S)) → Error E → M S E A
  change_row f e = statement >> λ w. elim (f w.store) [
    | none ↦ (err e, w)
    | some p ↦ (ok p.0, record w { store = p.1 })
  ]

abbrev pub execute : {S E : Type 0} → (S → S) → M S E (Unit {0})
execute f = statement >> λ w. (ok tt, record w { store = f w.store })

-- time.Now() and newID()
abbrev pub clock : {S E : Type 0} → M S E ℕ
clock w = (ok w.now, w)

-- The rows that FOR UPDATE SKIP LOCKED passes over.
abbrev pub lock_table : {S E : Type 0} → M S E (ℕ → Bool)
lock_table w = (ok w.locked, w)

abbrev pub new_id : {S E : Type 0} → M S E ℕ
new_id w = (ok w.next_id, record w { next_id = w.next_id + 1 })

abbrev pub commit : {S E : Type 0} → M S E (Unit {0})
commit = statement >> λ w. (ok tt, record w { saved = w.store })

-- What other sessions commit between two steps that stand outside a transaction.
abbrev pub meanwhile : {S E : Type 0} → (S → S) → M S E (Unit {0})
meanwhile others w = (ok tt, record w { store = others w.saved; saved = others w.saved })

module _ {S E A : Type 0} where
  -- BeginTx, the body, and `defer tx.Rollback`, which does nothing after a commit.
  abbrev pub transaction : M S E A → M S E A
  transaction body w = let (r, w') = (statement >> body) w in (r, record w' { store = w'.saved })

  -- A statement outside a transaction is committed at once.
  abbrev pub outside : (S → A × S) → M S E A
  outside f = statement >> λ w. let (a, s) = f w.store in (ok a, record w { store = s; saved = s })

  -- The same where no row may be met.
  abbrev pub outside_row : (S → Option (A × S)) → Error E → M S E A
  outside_row f e = statement >> λ w. elim (f w.store) [
    | none ↦ (err e, w)
    | some p ↦ (ok p.0, record w { store = p.1; saved = p.1 })
  ]

  abbrev pub run_value : M S E A → World S → Result E A
  run_value m w = (m w).0

-- Outside a transaction a session sees what is committed.
abbrev pub IsSettled : {S : Type 0} → World S → Type 0
IsSettled w = w.store ≡ w.saved

-- No statement fails from here on.
abbrev pub IsUp : {S : Type 0} → World S → Type 0
IsUp w = (n : ℕ) → w.broken n ≡ false

module _ {S E : Type 0} {A : Type 0} where
  -- A loop over the rows of a query; it stops at the first error.
  unfoldable pub for_each : (A → M S E (Unit {0})) → List A → M S E (Unit {0})
  for_each f [] = pure tt
  for_each f (x ∷ xs) = f x >> for_each f xs

pub Result-cases :
    {E A : Type 0} (r : Result E A) → ((e : Error E) × (r ≡ err e)) ⊎ ((a : A) × (r ≡ ok a))
Result-cases (ok a) = inr (a, refl)
Result-cases (err e) = inl (e, refl)

-- The same session with its errors wrapped, and with its error dropped.
abbrev pub rename_error :
    {S E F A : Type 0} → (Error E → Error F) → Result E A × World S → Result F A × World S
rename_error g (ok a, w) = (ok a, w)
rename_error g (err e, w) = (err (g e), w)

abbrev pub with_error : {S E F A : Type 0} → (Error E → Error F) → M S E A → M S F A
with_error g m w = rename_error g (m w)

abbrev pub ignoring : {S E F A : Type 0} → M S E A → M S F (Unit {0})
ignoring m w = (ok tt, (m w).1)
