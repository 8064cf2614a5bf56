-- ===== src/Security/Codes.antt =====
-- The time windows of Validate in backend/internal/security/totp/totp.go.
use Prim.Native.String.{String, len}
use text.Mathlib.TextPositions.{eq_refl}
use native.Mathlib.Decide.{dec_lt}
use vps_billing_codex.Shared.{ℕ, ◌+◌, ◌-◌, ◌%◌, ◌≤◌, ◌<◌, ◌≡◌, ◌⊎◌, inl, inr, true, some, arith}
use vps_billing_codex.Security.{Crypto, generate, validate, period, counter_at, truncated}

near_window :
    (t now : ℕ)
    → period ≤ now
    → t ≤ now + period
    → now ≤ t + period
    → (counter_at t ≡ counter_at (now - period))
      ⊎ ((counter_at t ≡ counter_at now) ⊎ (counter_at t ≡ counter_at (now + period)))
near_window t now late after before = elim (dec_lt (counter_at t) (counter_at now)) [
  | yes less ↦ inl (omega arith)
  | no ge ↦ elim (dec_lt (counter_at now) (counter_at t)) [
    | yes more ↦ inr (inr (omega arith))
    | no le ↦ inr (inl (omega arith))
  ]
]

module _ (c : Crypto) where
  same_window :
      (secret : String) (a b : ℕ)
      → counter_at a ≡ counter_at b
      → generate c secret a ≡ generate c secret b
  unfolding generate
  same_window secret a b e = ground (arith, e)

  code_length :
      ((n : ℕ) → n < 1000000 → len (c.six_digits n) ≡ 6)
      → (secret key : String) → c.base32_decoded (c.to_upper secret) ≡ some key
      → (t : ℕ) → len (generate c secret t) ≡ 6
  unfolding generate
  code_length six secret key decoded t =
      let n = truncated (c.hmac_sha1 key (counter_at t)) in
      ground (arith, decoded, six (n % 1000000) (omega arith))

  -- Where a number below a million has six digits, a code that an authenticator generates from a
  -- secret whose text is base32 is accepted by Validate, while the two clocks are at most 30 seconds
  -- apart.
  pub fresh_code_valid :
      ((n : ℕ) → n < 1000000 → len (c.six_digits n) ≡ 6)
      → (secret key : String) → c.base32_decoded (c.to_upper secret) ≡ some key
      → (t now : ℕ) → period ≤ now
      → t ≤ now + period
      → now ≤ t + period
      → validate c secret (generate c secret t) now ≡ true
  unfolding validate
  fresh_code_valid six secret key decoded t now late after before =
      let long = code_length six secret key decoded t in
      elim (near_window t now late after before) [
        | inl e ↦
            ground
              (arith, long, same_window secret t (now - period) e, eq_refl (generate c secret t))
        | inr (inl e) ↦
            ground (arith, long, same_window secret t now e, eq_refl (generate c secret t))
        | inr (inr e) ↦
            ground
              (arith, long, same_window secret t (now + period) e, eq_refl (generate c secret t))
      ]
