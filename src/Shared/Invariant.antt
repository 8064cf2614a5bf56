-- ===== src/Shared/Invariant.antt =====
-- Invariants of sessions: what holds of the rows that a session sees and of the committed rows holds
-- of both after it, whatever statement fails. It models no file of its own.
use mathlib.Core.Bool.{Bool, true, false}
use mathlib.Core.Option.{Option, none, some}
use mathlib.Core.List.{List, [], ◌∷◌}
use mathlib.Core.Path.{◌≡◌}
use mathlib.Core.Logic.{inl, inr}
use vps_billing_codex.Shared.Tests.{Option-cases, if◌then◌else◌}
use vps_billing_codex.Shared.Tx.{
  World, M, Error, Result, ok, err, ◌>>=◌, ◌>>◌, continue_with, pure, statement, select, change_row,
  execute, commit, or_fail, change, transaction, for_each, with_error, rename_error,
}

module _ {S : Type 0} (E : Type 0) (P : S → Type 0) where
  abbrev pub Keeps : {A : Type 0} → M S E A → Type 0
  Keeps m = (w : World S) → P w.store → P w.saved → P (m w).1.store × P (m w).1.saved

  Keeps-continue :
      {A B : Type 0} (f : A → M S E B)
      → ((a : A) → Keeps (f a))
      → (p : Result E A × World S) → P p.1.store × P p.1.saved
      → P (continue_with f p).1.store × P (continue_with f p).1.saved
  Keeps-continue f keep (ok a, w) h = keep a w h.0 h.1
  Keeps-continue f keep (err e, w) h = h

  pub Keeps->>= :
      {A B : Type 0} (m : M S E A) (f : A → M S E B)
      → Keeps m
      → ((a : A) → Keeps (f a))
      → Keeps (m >>= f)
  Keeps->>= m f first after w s v = Keeps-continue f after (m w) (first w s v)

  pub Keeps-select : {A : Type 0} (f : S → A) → Keeps (select {S = S} {E = E} f)
  Keeps-select f =
      Keeps->>= statement (λ _ w. (ok (f w.store), w)) (λ w s v. (s, v)) (λ _ w s v. (s, v))

  pub Keeps-execute : (f : S → S) → ((s : S) → P s → P (f s)) → Keeps (execute {S = S} {E = E} f)
  Keeps-execute f keep =
      Keeps->>= statement (λ _ w. (ok tt, record w { store = f w.store })) (λ w s v. (s, v))
        (λ _ w s v. (keep w.store s, v))

  pub Keeps-change_row :
      {A : Type 0} (f : S → Option (A × S)) (e : Error E)
      → ((s : S) (p : A × S) → P s → f s ≡ some p → P p.1)
      → Keeps (change_row f e)
  Keeps-change_row {A} f e keep =
      Keeps->>= statement
        (λ _ w. elim (f w.store) [
          | none ↦ (err e, w)
          | some p ↦ (ok p.0, record w { store = p.1 })
        ])
        (λ w s v. (s, v))
        (λ _ w s v. elim (Option-cases (f w.store)) [
          | inl missing ↦ rw missing (s, v)
          | inr (p, met) ↦ rw met (keep w.store p s met, v)
        ])

  pub Keeps-commit : Keeps (commit {S = S} {E = E})
  Keeps-commit =
      Keeps->>= statement (λ _ w. (ok tt, record w { saved = w.store })) (λ w s v. (s, v))
        (λ _ w s v. (s, s))

  pub Keeps-transaction : {A : Type 0} (m : M S E A) → Keeps m → Keeps (transaction m)
  Keeps-transaction m keep w s v =
      let h = Keeps->>= statement (λ _. m) (λ w s v. (s, v)) (λ _. keep) w s v in (h.1, h.1)

  pub Keeps-for_each :
      {A : Type 0} (f : A → M S E (Unit {0})) (xs : List A)
      → ((a : A) → Keeps (f a))
      → Keeps (for_each f xs)
  unfolding for_each
  Keeps-for_each f [] keep w s v = (s, v)
  Keeps-for_each f (x ∷ xs) keep w s v =
      Keeps->>= (f x) (λ _. for_each f xs) (keep x) (λ _. Keeps-for_each f xs keep) w s v

  pub Keeps-or_fail : {A : Type 0} (o : Option A) (e : Error E) → Keeps (or_fail o e)
  Keeps-or_fail none e w s v = (s, v)
  Keeps-or_fail (some a) e w s v = (s, v)

  pub Keeps-change : {A : Type 0} (f : S → A × S) → ((s : S) → P s → P (f s).1) → Keeps (change f)
  Keeps-change f keep =
      Keeps->>= statement (λ _ w. let (a, s) = f w.store in (ok a, record w { store = s }))
        (λ w s v. (s, v)) (λ _ w s v. (keep w.store s, v))

  pub Keeps-if :
      {A : Type 0} (c : Bool) (m n : M S E A) → Keeps m → Keeps n → Keeps (if c then m else n)
  Keeps-if true m n first second w s v = first w s v
  Keeps-if false m n first second w s v = second w s v

  -- The end of a transaction.
  pub Keeps-commit-pure : {A : Type 0} (a : A) → Keeps (commit >> pure a)
  Keeps-commit-pure a = Keeps->>= commit (λ _. pure a) Keeps-commit (λ _ w s v. (s, v))

Keeps-renamed :
    {S E F A : Type 0} (P : S → Type 0) (g : Error E → Error F) (p : Result E A × World S)
    → P p.1.store × P p.1.saved
    → P (rename_error g p).1.store × P (rename_error g p).1.saved
Keeps-renamed P g (ok a, w) h = h
Keeps-renamed P g (err e, w) h = h

pub Keeps-with_error :
    {S E F A : Type 0} (P : S → Type 0) (g : Error E → Error F) (m : M S E A)
    → Keeps E P m
    → Keeps F P (with_error g m)
Keeps-with_error P g m keep w s v = Keeps-renamed P g (m w) (keep w s v)
