-- ===== src/Commerce/Order/Total.antt =====
-- The total of an order in CreateOrder of backend/internal/commerce/repository.go: the guard before the
-- product of two int64.
use vps_billing_codex.Shared.{ℕ, zero, suc, ◌*◌, ◌≤◌, ◌≡◌, ◌↔◌, refl, false, arith, ◌%◌, ◌^◌}
use native.Mathlib.Nat.{le-div_iff_mul-le, mod-eq_of_lt, mul_comm}
use vps_billing_codex.Shared.Int.{pos}
use vps_billing_codex.Commerce.Order.{max_int64, times_int64, total_overflows}

fits_of_guard :
    (price quantity : ℕ)
    → total_overflows price (pos quantity) ≡ false
    → price * quantity ≤ max_int64
unfolding total_overflows
fits_of_guard zero quantity h = ground arith
fits_of_guard (suc p) quantity h = ground (
  arith,
  (le-div_iff_mul-le {k = suc p} {x = quantity} {y = max_int64} (omega arith)).0,
  mul_comm quantity (suc p),
)

guard_of_fits :
    (price quantity : ℕ)
    → price * quantity ≤ max_int64
    → total_overflows price (pos quantity) ≡ false
unfolding total_overflows
guard_of_fits zero quantity h = refl
guard_of_fits (suc p) quantity h = ground (
  arith,
  (le-div_iff_mul-le {k = suc p} {x = quantity} {y = max_int64} (omega arith)).1,
  mul_comm quantity (suc p),
)

times_of_fits :
    (price quantity : ℕ)
    → price * quantity ≤ max_int64
    → times_int64 price (pos quantity) ≡ pos (price * quantity)
unfolding times_int64
times_of_fits price quantity h =
    let e : price * quantity % 2 ^ 64 ≡ price * quantity = mod-eq_of_lt (omega arith) in
    rw e (ground arith)

-- The guard lets a price and a quantity through exactly when their product is an int64, which the
-- total then is.
pub total_overflows_iff :
    (price quantity : ℕ)
    → (total_overflows price (pos quantity) ≡ false) ↔ (
        (price * quantity ≤ max_int64)
        × (times_int64 price (pos quantity) ≡ pos (price * quantity)))
total_overflows_iff price quantity = (
  λ h. let fits = fits_of_guard price quantity h in (fits, times_of_fits price quantity fits),
  λ h. guard_of_fits price quantity h.0,
)
