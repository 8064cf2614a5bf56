-- ===== src/Identity/Login.antt =====
-- What LoginUser and LoginAdmin of backend/internal/identity/identity.go have checked when they return a
-- session, and what that session is good for.
use Prim.Native.String.{String}
use text.Mathlib.Text.{◌==◌ as str_eq}
use vps_billing_codex.Shared.{
  ◌+◌, ◌≡◌, Bool, true, false, some, arith, inl, inr, Bool-cases, Option-cases,
}
use vps_billing_codex.Shared.Tx.{World, ok}
use vps_billing_codex.Shared.Frame.{>>=-inv}
use vps_billing_codex.Shared.Table.{get}
use vps_billing_codex.Security.{decrypt, validate, verify_password}
use vps_billing_codex.Identity.{
  Service, AdminRow, TotpSecret, Accounts, Admin, AuthResult, admin_by_email, secret_id_of,
  normalize_email, login_admin, check_code, check_code_if, new_admin_session,
}

module _ (s : Service) where
  -- What stands behind the second factor of an admin.
  abbrev pub HasCode : AdminRow → String → World Accounts → Type 0
  HasCode a code w =
      (row : TotpSecret) × (get secret_id_of a.id w.store.totp_secrets ≡ some row)
      × (secret : String) × (decrypt s.crypto row.ciphertext row.nonce ≡ some secret)
      × (validate s.crypto secret code w.now ≡ true)

  code-checked :
      (a : AdminRow) (code : String) (w : World Accounts)
      → (check_code s a code w).0 ≡ ok tt
      → HasCode a code w
  unfolding check_code
  code-checked a code w h = elim (Bool-cases (str_eq code "")) [
    | inl empty ↦ absurd (ground (arith, empty, h))
    | inr given ↦ elim (Bool-cases (w.broken w.calls)) [
      | inl down ↦ absurd (ground (arith, given, down, h))
      | inr alive ↦ elim (Option-cases (get secret_id_of a.id w.store.totp_secrets)) [
        | inl missing ↦ absurd (ground (arith, given, alive, missing, h))
        | inr (row, found) ↦ elim (Option-cases (decrypt s.crypto row.ciphertext row.nonce)) [
          | inl closed ↦ absurd (ground (arith, given, alive, found, closed, h))
          | inr (secret, opened) ↦ elim (Bool-cases (validate s.crypto secret code w.now)) [
            | inl valid ↦ (row, found, secret, opened, valid)
            | inr invalid ↦ absurd (ground (arith, given, alive, found, opened, invalid, h))
          ]
        ]
      ]
    ]
  ]

  code_if-checked :
      (b : Bool) (a : AdminRow) (code : String) (w : World Accounts)
      → (check_code_if s b a code w).0 ≡ ok tt
      → b ≡ true
      → HasCode a code w
  code_if-checked true a code w h e = code-checked a code w h
  code_if-checked false a code w h e = absurd (ground (arith, e))

  -- A LoginAdmin that returns a session was called with the password of an active admin of that email;
  -- and where that admin has two-factor authentication, with a code that is valid at that time for the
  -- secret that is stored for the admin.
  pub login_admin_checks :
      (email password code : String) (w : World Accounts) {r : AuthResult Admin}
      → (login_admin s email password code w).0 ≡ ok r
      → (a : AdminRow) × (admin_by_email (normalize_email s email) w.store.admins ≡ some a)
        × (verify_password s.crypto a.password_hash password ≡ true)
        × (str_eq a.status "active" ≡ true)
        × (a.two_factor_enabled ≡ true → HasCode a code w)
  unfolding login_admin
  login_admin_checks email password code w {r} h =
      let found_of = admin_by_email (normalize_email s email) w.store.admins in
      elim (Bool-cases (w.broken w.calls)) [
        | inl down ↦ absurd (ground (arith, down, h))
        | inr alive ↦ elim (Option-cases found_of) [
          | inl missing ↦ absurd (ground (arith, alive, missing, h))
          | inr (a, found) ↦ elim (Bool-cases (verify_password s.crypto a.password_hash password)) [
            | inr wrong ↦ absurd (ground (arith, alive, found, wrong, h))
            | inl right ↦ elim (Bool-cases (str_eq a.status "active")) [
              | inr inactive ↦ absurd (ground (arith, alive, found, right, inactive, h))
              | inl active ↦
                  let w' = record w { calls = w.calls + 1 } in
                  let second = check_code_if s a.two_factor_enabled a code in
                  let (u, e, _) =
                    >>=-inv second (λ _. new_admin_session s a.id) w'
                      (simp (alive, found, right, active) at h) in
                  (a, found, right, active, code_if-checked a.two_factor_enabled a code w' e)
            ]
          ]
        ]
      ]
