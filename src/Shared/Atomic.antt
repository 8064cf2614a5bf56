-- ===== src/Shared/Atomic.antt =====
-- What a body does to the committed store: `KeepsSaved` bodies do not touch it, and an `Atomic` one
-- leaves it alone whenever it ends in an error. The rules follow the `do` blocks of the repositories.
use mathlib.Core.Path.{◌≡◌, refl, ◌∙◌}
use mathlib.Core.List.{List, [], ◌∷◌}
use native.Mathlib.Omega.{arith}
use vps_billing_codex.Shared.Tx.{World, Result, ok, err, M, for_each, continue_with, ◌>>=◌}

abbrev pub KeepsSaved : {S E A : Type 0} → M S E A → Type 0
KeepsSaved m = (w : _) → (m w).1.saved ≡ w.saved

abbrev pub Atomic : {S E A : Type 0} → M S E A → Type 0
Atomic m = (w : _) (e : _) → (m w).0 ≡ err e → (m w).1.saved ≡ w.saved

module _ {S E : Type 0} {A : Type 0} where
  pub KeepsSaved-for_each :
      (f : A → M S E (Unit {0})) (xs : List A)
      → ((a : A) → KeepsSaved (f a))
      → KeepsSaved (for_each f xs)
  unfolding for_each
  KeepsSaved-for_each f [] h w = refl
  KeepsSaved-for_each f (x ∷ xs) h w = ground (arith, h x w, KeepsSaved-for_each f xs h (f x w).1)

KeepsSaved-continue :
    {S E A B : Type 0} (f : A → M S E B)
    → ((a : A) → KeepsSaved (f a))
    → (p : Result E A × World S) → (continue_with f p).1.saved ≡ p.1.saved
KeepsSaved-continue f h (ok a, w) = h a w
KeepsSaved-continue f h (err e, w) = refl

pub KeepsSaved->>= :
    {S E A B : Type 0} (m : M S E A) (f : A → M S E B)
    → KeepsSaved m
    → ((a : A) → KeepsSaved (f a))
    → KeepsSaved (m >>= f)
KeepsSaved->>= m f first after w = KeepsSaved-continue f after (m w) ∙ first w
