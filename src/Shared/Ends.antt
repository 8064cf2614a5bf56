-- ===== src/Shared/Ends.antt =====
-- What holds of the world after a body that ends without an error, with the rules that follow `do`
-- blocks, transactions and wrapped errors. It models no file of its own.
use Prim.Native.Nat.{◌+◌}
use mathlib.Core.Path.{◌≡◌}
use mathlib.Core.Logic.{inl, inr}
use native.Mathlib.Omega.{arith}
use vps_billing_codex.Shared.Tests.{Bool-cases}
use vps_billing_codex.Shared.Tx.{
  World, M, Error, Result, ok, err, ◌>>=◌, continue_with, transaction, commit, with_error,
  rename_error,
}

abbrev pub Ends : {S A : Type 0} (E : Type 0) → (World S → Type 0) → M S E A → Type 0
Ends E Q m = (w : _) (a : _) → (m w).0 ≡ ok a → Q (m w).1

Ends-continue :
    {S E A B : Type 0} (Q R : World S → Type 0) (f : A → M S E B) (p : Result E A × World S) (b : B)
    → ((a : A) → p.0 ≡ ok a → Q p.1)
    → ((a : A) (w : World S) → Q w → (b : B) → (f a w).0 ≡ ok b → R (f a w).1)
    → (continue_with f p).0 ≡ ok b
    → R (continue_with f p).1
Ends-continue Q R f (ok a, w) b first next e = next a w (first a (ground arith)) b e
Ends-continue Q R f (err x, w) b first next e = absurd (ground (arith, e))

-- What the first part establishes, and what the second makes of it.
pub Ends-then :
    {S E A B : Type 0} (Q R : World S → Type 0) (m : M S E A) (f : A → M S E B)
    → Ends E Q m
    → ((a : A) (w : World S) → Q w → (b : B) → (f a w).0 ≡ ok b → R (f a w).1)
    → Ends E R (m >>= f)
Ends-then Q R m f first next w b e = Ends-continue Q R f (m w) b (first w) next e

-- The last part decides.
pub Ends-last :
    {S E A B : Type 0} (R : World S → Type 0) (m : M S E A) (f : A → M S E B)
    → ((a : A) → Ends E R (f a))
    → Ends E R (m >>= f)
Ends-last R m f next = Ends-then (λ _. Unit {0}) R m f (λ _ _ _. tt) (λ a w _ b e. next a w b e)

-- A body that leaves it in the session, and a commit.
pub Ends-commit :
    {S E : Type 0} (P : S → Type 0) (m : M S E (Unit {0}))
    → Ends E (λ w. P w.store) m
    → Ends E (λ w. P w.saved) (m >>= λ _. commit)
Ends-commit P m first =
    Ends-then (λ w. P w.store) (λ w. P w.saved) m (λ _. commit) first
      (λ _ w h b e. elim (Bool-cases (w.broken w.calls)) [
        | inl down ↦ absurd (ground (arith, down, e))
        | inr alive ↦ rw alive h
      ])

-- A transaction leaves the session at what is committed.
pub Ends-transaction :
    {S E A : Type 0} (P : S → Type 0) (m : M S E A)
    → Ends E (λ w. P w.saved) m
    → Ends E (λ w. P w.store × P w.saved) (transaction m)
Ends-transaction P m body w a e = elim (Bool-cases (w.broken w.calls)) [
  | inl down ↦ absurd (ground (arith, down, e))
  | inr alive ↦
      let h = body (record w { calls = w.calls + 1 }) a (ground (arith, alive, e)) in
      rw alive (h, h)
]

Ends-renamed :
    {S E F A : Type 0} (R : World S → Type 0) (g : Error E → Error F) (p : Result E A × World S)
    (a : A)
    → ((a : A) → p.0 ≡ ok a → R p.1)
    → (rename_error g p).0 ≡ ok a
    → R (rename_error g p).1
Ends-renamed R g (ok b, w) a h e = h b (ground arith)
Ends-renamed R g (err x, w) a h e = absurd (ground (arith, e))

pub Ends-with_error :
    {S E F A : Type 0} (R : World S → Type 0) (g : Error E → Error F) (m : M S E A)
    → Ends E R m
    → Ends F R (with_error g m)
Ends-with_error R g m h w a e = Ends-renamed R g (m w) a (h w) e

renamed-ok :
    {S E F A : Type 0} (g : Error E → Error F) (p : Result E A × World S) {a : A}
    → (rename_error g p).0 ≡ ok a
    → p.0 ≡ ok a
renamed-ok g (ok a, w) h = ground (arith, h)
renamed-ok g (err e, w) h = absurd (ground (arith, h))

pub with_error-ok :
    {S E F A : Type 0} (g : Error E → Error F) (m : M S E A) (w : World S) {a : A}
    → (with_error g m w).0 ≡ ok a
    → (m w).0 ≡ ok a
with_error-ok g m w h = renamed-ok g (m w) h

-- What holds after a body that ends without an error, if something else held before it.
abbrev pub After :
    {S A : Type 0} (E : Type 0) → (World S → Type 0) → (World S → Type 0) → M S E A → Type 0
After E Q R m = (w : _) → Q w → (a : _) → (m w).0 ≡ ok a → R (m w).1

After-continue :
    {S E A B : Type 0} (Q R : World S → Type 0) (f : A → M S E B) (p : Result E A × World S) (b : B)
    → ((a : A) → p.0 ≡ ok a → Q p.1)
    → ((a : A) → After E Q R (f a))
    → (continue_with f p).0 ≡ ok b
    → R (continue_with f p).1
After-continue Q R f (ok a, w) b first next e = next a w (first a (ground arith)) b e
After-continue Q R f (err x, w) b first next e = absurd (ground (arith, e))

pub After-then :
    {S E A B : Type 0} (P Q R : World S → Type 0) (m : M S E A) (f : A → M S E B)
    → After E P Q m
    → ((a : A) → After E Q R (f a))
    → After E P R (m >>= f)
After-then P Q R m f first next w h b e = After-continue Q R f (m w) b (first w h) next e

pub After-with_error :
    {S E F A : Type 0} (Q R : World S → Type 0) (g : Error E → Error F) (m : M S E A)
    → After E Q R m
    → After F Q R (with_error g m)
After-with_error Q R g m h w q a e = Ends-renamed R g (m w) a (h w q) e
