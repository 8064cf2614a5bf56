-- ===== src/Shared/Keys.antt =====
-- Primary keys: that no key stands twice in a table, and that WHERE, ORDER BY and LIMIT keep that.
use Prim.Native.Nat.{ℕ, zero, suc}
use mathlib.Core.Path.{◌≡◌, refl}
use mathlib.Core.Logic.{inl, inr}
use mathlib.Core.Bool.{Bool, false, ◌||◌}
use mathlib.Core.Option.{some}
use mathlib.Core.List.{List, [], ◌∷◌}
use native.Mathlib.Omega.{arith}
use vps_billing_codex.Shared.Tests.{
  ◌==◌, ==_refl, Bool-cases, All, take, where_, order_by, insert_row,
}
use vps_billing_codex.Shared.Table.{get}

module _ {R : Type 0} (id_of : R → ℕ) where
  abbrev pub has_key : ℕ → List R → Bool
  has_key k [] = false
  has_key k (r ∷ rs) = id_of r == k || has_key k rs

  abbrev pub IsDistinct : List R → Type 0
  IsDistinct [] = Unit
  IsDistinct (r ∷ rs) = (has_key (id_of r) rs ≡ false) × IsDistinct rs

  present-cons :
      (r : R) (t rs : List R)
      → has_key (id_of r) rs ≡ false
      → All (λ s. get id_of (id_of s) t ≡ some s) rs
      → All (λ s. get id_of (id_of s) (r ∷ t) ≡ some s) rs
  present-cons r t [] other h = tt
  present-cons r t (s ∷ rs) other h = (ground (arith, h.0), present-cons r t rs (ground arith) h.1)

  -- With distinct keys each row is found under its own key.
  pub IsDistinct-get : (t : List R) → IsDistinct t → All (λ s. get id_of (id_of s) t ≡ some s) t
  IsDistinct-get [] h = tt
  IsDistinct-get (r ∷ t) h =
      (ground (arith, ==_refl (id_of r)), present-cons r t t h.0 (IsDistinct-get t h.1))

  has_key-where_ :
      (k : ℕ) (p : R → Bool) (t : List R) → has_key k t ≡ false → has_key k (where_ p t) ≡ false
  has_key-where_ k p [] h = refl
  has_key-where_ k p (r ∷ t) h = ground (arith, has_key-where_ k p t)

  pub IsDistinct-where_ : (p : R → Bool) (t : List R) → IsDistinct t → IsDistinct (where_ p t)
  IsDistinct-where_ p [] h = tt
  IsDistinct-where_ p (r ∷ t) h = elim (Bool-cases (p r)) [
    | inl keep ↦ rw keep (has_key-where_ (id_of r) p t h.0, IsDistinct-where_ p t h.1)
    | inr drop ↦ rw drop (IsDistinct-where_ p t h.1)
  ]

  has_key-insert_row :
      (k : ℕ) (before : R → R → Bool) (r : R) (t : List R)
      → has_key k (insert_row before r t) ≡ (id_of r == k || has_key k t)
  unfolding order_by
  has_key-insert_row k before r [] = refl
  has_key-insert_row k before r (s ∷ t) = ground (arith, has_key-insert_row k before r t)

  IsDistinct-insert_row :
      (before : R → R → Bool) (r : R) (t : List R)
      → has_key (id_of r) t ≡ false
      → IsDistinct t
      → IsDistinct (insert_row before r t)
  unfolding order_by
  IsDistinct-insert_row before r [] other h = (refl, tt)
  IsDistinct-insert_row before r (s ∷ t) other h = elim (Bool-cases (before r s)) [
    | inl first ↦ rw first (other, h)
    | inr later ↦ rw later (
      ground (arith, has_key-insert_row (id_of s) before r t, h.0),
      IsDistinct-insert_row before r t (ground arith) h.1,
    )
  ]

  has_key-order_by :
      (k : ℕ) (before : R → R → Bool) (t : List R)
      → has_key k t ≡ false
      → has_key k (order_by before t) ≡ false
  unfolding order_by
  has_key-order_by k before [] h = refl
  has_key-order_by k before (r ∷ t) h =
      ground (arith, has_key-order_by k before t, has_key-insert_row k before r (order_by before t))

  pub IsDistinct-order_by :
      (before : R → R → Bool) (t : List R) → IsDistinct t → IsDistinct (order_by before t)
  unfolding order_by
  IsDistinct-order_by before [] h = tt
  IsDistinct-order_by before (r ∷ t) h =
      IsDistinct-insert_row before r (order_by before t) (has_key-order_by (id_of r) before t h.0)
        (IsDistinct-order_by before t h.1)

  has_key-take : (k n : ℕ) (t : List R) → has_key k t ≡ false → has_key k (take n t) ≡ false
  has_key-take k zero t h = refl
  has_key-take k (suc n) [] h = refl
  has_key-take k (suc n) (r ∷ t) h = ground (arith, has_key-take k n t)

  pub IsDistinct-take : (n : ℕ) (t : List R) → IsDistinct t → IsDistinct (take n t)
  IsDistinct-take zero t h = tt
  IsDistinct-take (suc n) [] h = tt
  IsDistinct-take (suc n) (r ∷ t) h = (has_key-take (id_of r) n t h.0, IsDistinct-take n t h.1)
