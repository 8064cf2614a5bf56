-- ===== src/Shared/Table.antt =====
-- A database table as a list of rows, with the statements that the queries are made of: a row by its
-- primary key, and an UPDATE of the row with a key.
use Prim.Native.Nat.{ℕ}
use mathlib.Core.Path.{◌≡◌, subst}
use mathlib.Core.Logic.{inl, inr}
use mathlib.Core.Bool.{Bool}
use mathlib.Core.Option.{Option, none, some}
use mathlib.Core.List.{List, [], ◌∷◌, ◌++◌}
use native.Mathlib.Omega.{arith}
use vps_billing_codex.Shared.Tests.{
  ◌==◌, ==_refl, if◌then◌else◌, All, Bool-cases, eq_of_==, option_map, some_inj,
}

module _ {R : Type 0} (id_of : R → ℕ) where
  -- SELECT ... WHERE id = k
  abbrev pub get : ℕ → List R → Option R
  get k [] = none
  get k (r ∷ t) = if id_of r == k then some r else get k t

  -- UPDATE ... SET f WHERE id = k
  abbrev pub modify : ℕ → (R → R) → List R → List R
  modify k f [] = []
  modify k f (r ∷ t) = (if id_of r == k then f r else r) ∷ modify k f t

  -- UPDATE ... SET f WHERE id = k AND guard RETURNING *; `none` when no row was met.
  abbrev pub update_one : ℕ → (R → Bool) → (R → R) → List R → Option (R × List R)
  update_one k guard f t = elim (get k t) [
    | none ↦ none
    | some r ↦ if guard r then some (f r, modify k f t) else none
  ]

  pub get_id : (k : ℕ) (t : List R) {r : R} → get k t ≡ some r → id_of r ≡ k
  get_id k [] e = absurd (cc)
  get_id k (x ∷ t) e = elim (Bool-cases (id_of x == k)) [
    | inl found ↦ subst (λ y. id_of y ≡ k) (some_inj (rw found at e)) (eq_of_== (id_of x) k found)
    | inr other ↦ get_id k t (rw other at e)
  ]

  pub get-modify :
      (f : R → R)
      → ((r : R) → id_of (f r) ≡ id_of r)
      → (j k : ℕ) (t : List R)
      → get j (modify k f t) ≡ (if j == k then option_map f (get j t) else get j t)
  get-modify f keep j k [] = ground arith
  get-modify f keep j k (r ∷ t) = ground (arith, keep r, get-modify f keep j k t)

  pub All-get {κ} : (P : R → Type κ) (k : ℕ) (t : List R) {r : R} → All P t → get k t ≡ some r → P r
  All-get P k [] h e = absurd (cc)
  All-get P k (x ∷ t) h e = elim (Bool-cases (id_of x == k)) [
    | inl found ↦ subst P (some_inj (rw found at e)) h.0
    | inr other ↦ All-get P k t h.1 (rw other at e)
  ]

  pub All-modify {κ} :
      (P : R → Type κ) (k : ℕ) (f : R → R) (t : List R)
      → ((r : R) → id_of r ≡ k → P r → P (f r))
      → All P t
      → All P (modify k f t)
  All-modify P k f [] step h = tt
  All-modify P k f (r ∷ t) step h = elim (Bool-cases (id_of r == k)) [
    | inl found ↦ rw found (step r (eq_of_== (id_of r) k found) h.0, All-modify P k f t step h.1)
    | inr other ↦ rw other (h.0, All-modify P k f t step h.1)
  ]

  pub All-append {κ} : (P : R → Type κ) (s t : List R) → All P s → All P t → All P (s ++ t)
  All-append P [] t _ h = h
  All-append P (_ ∷ s) t g h = (g.0, All-append P s t g.1 h)

  pub get-append :
      (k : ℕ) (t : List R) (r : R) → get k t ≡ none → id_of r ≡ k → get k (t ++ r ∷ []) ≡ some r
  get-append k [] r missing own = ground (arith, ==_refl k)
  get-append k (x ∷ t) r missing own = ground (arith, get-append k t r)
