-- ===== src/Shared/Frame.antt =====
-- Frames: what holds of the rows that a session sees and holds still after each statement of a body,
-- and the inversion of a bind that succeeds. It models no file of its own.
use mathlib.Core.Option.{Option, none, some}
use mathlib.Core.List.{List, [], ◌∷◌}
use mathlib.Core.Path.{◌≡◌, refl}
use mathlib.Core.Logic.{inl, inr}
use native.Mathlib.Omega.{arith}
use vps_billing_codex.Shared.Tests.{Option-cases}
use vps_billing_codex.Shared.Tx.{
  World, M, Error, Result, ok, err, ◌>>=◌, continue_with, statement, select, change_row, execute,
  or_fail, change, for_each,
}

module _ {S : Type 0} (E : Type 0) (P : S → Type 0) where
  abbrev pub Preserves : {A : Type 0} → M S E A → Type 0
  Preserves m = (w : World S) → P w.store → P (m w).1.store

  Preserves-continue :
      {A B : Type 0} (f : A → M S E B)
      → ((a : A) → Preserves (f a))
      → (p : Result E A × World S) → P p.1.store
      → P (continue_with f p).1.store
  Preserves-continue f keep (ok a, w) h = keep a w h
  Preserves-continue f keep (err e, w) h = h

  pub Preserves->>= :
      {A B : Type 0} (m : M S E A) (f : A → M S E B)
      → Preserves m
      → ((a : A) → Preserves (f a))
      → Preserves (m >>= f)
  Preserves->>= m f first after w s = Preserves-continue f after (m w) (first w s)

  pub Preserves-select : {A : Type 0} (f : S → A) → Preserves (select {S = S} {E = E} f)
  Preserves-select f = Preserves->>= statement (λ _ w. (ok (f w.store), w)) (λ w s. s) (λ _ w s. s)

  pub Preserves-execute :
      (f : S → S) → ((s : S) → P s → P (f s)) → Preserves (execute {S = S} {E = E} f)
  Preserves-execute f keep =
      Preserves->>= statement (λ _ w. (ok tt, record w { store = f w.store })) (λ w s. s)
        (λ _ w s. keep w.store s)

  pub Preserves-change :
      {A : Type 0} (f : S → A × S) → ((s : S) → P s → P (f s).1) → Preserves (change f)
  Preserves-change f keep =
      Preserves->>= statement (λ _ w. let (a, s) = f w.store in (ok a, record w { store = s }))
        (λ w s. s) (λ _ w s. keep w.store s)

  pub Preserves-change_row :
      {A : Type 0} (f : S → Option (A × S)) (e : Error E)
      → ((s : S) (p : A × S) → P s → f s ≡ some p → P p.1)
      → Preserves (change_row f e)
  Preserves-change_row {A} f e keep =
      Preserves->>= statement
        (λ _ w. elim (f w.store) [
          | none ↦ (err e, w)
          | some p ↦ (ok p.0, record w { store = p.1 })
        ])
        (λ w s. s)
        (λ _ w s. elim (Option-cases (f w.store)) [
          | inl missing ↦ rw missing s
          | inr (p, met) ↦ rw met (keep w.store p s met)
        ])

  pub Preserves-or_fail : {A : Type 0} (o : Option A) (e : Error E) → Preserves (or_fail o e)
  Preserves-or_fail none e w s = s
  Preserves-or_fail (some a) e w s = s

  pub Preserves-for_each :
      {A : Type 0} (f : A → M S E (Unit {0})) (xs : List A)
      → ((a : A) → Preserves (f a))
      → Preserves (for_each f xs)
  unfolding for_each
  Preserves-for_each f [] keep w s = s
  Preserves-for_each f (x ∷ xs) keep w s =
      Preserves->>= (f x) (λ _. for_each f xs) (keep x) (λ _. Preserves-for_each f xs keep) w s

-- A bind that succeeds went through both parts.
continued :
    {S E A B : Type 0} (f : A → M S E B) (p : Result E A × World S) {b : B}
    → (continue_with f p).0 ≡ ok b
    → (a : A) × (p.0 ≡ ok a) × (continue_with f p ≡ f a p.1)
continued f (ok a, w) h = (a, refl, refl)
continued f (err e, w) h = absurd (ground arith)

pub >>=-inv :
    {S E A B : Type 0} (m : M S E A) (f : A → M S E B) (w : World S) {b : B}
    → ((m >>= f) w).0 ≡ ok b
    → (a : A) × ((m w).0 ≡ ok a) × ((m >>= f) w ≡ f a (m w).1)
>>=-inv m f w h = continued f (m w) h

-- A statement that succeeds met a row.
pub change_row-inv :
    {S E A : Type 0} (f : S → Option (A × S)) (e : Error E) (w : World S) {a : A}
    → (change_row f e w).0 ≡ ok a
    → f w.store ≡ some (a, (change_row f e w).1.store)
change_row-inv f e w h = elim (Option-cases (f w.store)) [
  | inl missing ↦ absurd (ground (arith, missing))
  | inr (p, met) ↦ ground (arith, met)
]
