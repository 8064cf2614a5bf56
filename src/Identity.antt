-- ===== src/Identity.antt =====
-- backend/internal/identity: Service of identity.go over PostgresRepository of repository.go.
use Prim.Native.String.{String}
use text.Mathlib.Text.{◌==◌ as str_eq}
use vps_billing_codex.Shared.{
  is_some, ℕ, ◌+◌, Bool, true, false, not, Option, none, some, List, [], ◌∷◌, if◌then◌else◌, ◌||◌,
  ◌&&◌,
}
use vps_billing_codex.Shared.Tx.{
  World, Error, Result, ok, err, no_rows, unique_violation, refused, M, ◌>>=◌, ◌>>◌, pure, fail,
  fail_if, or_fail, select, clock, new_id, outside, outside_row, with_error, ignoring,
}
use vps_billing_codex.Security.{
  Crypto, Hashed, hashed, invalid_length, no_salt, new_token, digest, csrf_token, valid_csrf,
  hash_password, verify_password, validate, generate_secret, encrypt, decrypt, uri,
}
use vps_billing_codex.Shared.Table.{get}
unfoldable pub use Statements.*
unfoldable pub use Repository.*
pub mod Statements
mod Repository
pub mod Rows
pub mod Kept
pub mod Services
pub mod Calls
pub mod Revoked
pub mod Login
pub mod Opened
mod Tests

module _ (s : Service) where
  -- normalizeEmail
  abbrev pub normalize_email : String → String
  normalize_email value = s.crypto.to_lower (s.crypto.trim_space value)

  abbrev pub session_row : ℕ → ℕ → String → ℕ → Session
  session_row id account hash now = record {
    id = id;
    account = account;
    token_hash = hash;
    expires_at = now + s.ttl;
    last_seen_at = now;
    revoked_at = none;
  }

  abbrev pub user_result : User → String → AuthResult User
  user_result user token = record {
    principal = user;
    csrf_token = csrf_token s.crypto s.user_csrf_secret token;
    token = token;
  }

  abbrev pub admin_result : Admin → String → AuthResult Admin
  admin_result admin token = record {
    principal = admin;
    csrf_token = csrf_token s.crypto s.admin_csrf_secret token;
    token = token;
  }

  -- newUserSession and newAdminSession
  unfoldable pub new_user_session : User → Action (AuthResult User)
  new_user_session user = do
    n ← new_id
    token ← or_fail (new_token s.crypto n) (refused no_random_bytes)
    id ← new_id
    now ← clock
    made ←
        outside_row
          (create_user_session
            (session_row id user.id (digest s.crypto s.user_session_secret token) now))
          unique_violation
    pure (user_result user token)

  unfoldable pub new_admin_session : ℕ → Action (AuthResult Admin)
  new_admin_session admin = do
    n ← new_id
    token ← or_fail (new_token s.crypto n) (refused no_random_bytes)
    id ← new_id
    now ← clock
    made ←
        outside_row
          (create_admin_session
            (session_row id admin (digest s.crypto s.admin_session_secret token) now))
          unique_violation
    found ← admin_by_session (digest s.crypto s.admin_session_secret token)
    pure (admin_result found.1 token)

  abbrev pub hash_or_fail : Hashed → Action String
  hash_or_fail (hashed h) = pure h
  hash_or_fail invalid_length = fail (refused invalid_password)
  hash_or_fail no_salt = fail (refused no_random_bytes)

  abbrev pub locale_or_default : String → String
  locale_or_default l = if str_eq l "en-US" || str_eq l "zh-CN" then l else "zh-CN"

  abbrev pub timezone_or_default : String → String
  timezone_or_default t = if str_eq (s.crypto.trim_space t) "" then "UTC" else t

  -- Register
  unfoldable pub register : String → String → String → String → Action (AuthResult User)
  register email password locale timezone = do
    n ← new_id
    hash ← hash_or_fail (hash_password s.crypto n password)
    id ← new_id
    user ← save_user (record {
      id = id;
      email = normalize_email email;
      password_hash = hash;
      status = "active";
      locale = locale_or_default locale;
      timezone = timezone_or_default timezone;
    })
    new_user_session (user_of user)

  -- LoginUser
  unfoldable pub login_user : String → String → Action (AuthResult User)
  login_user email password = do
    found ← attempt (user_credentials_by_email (normalize_email email))
    fail_if
        (not (
            verify_password s.crypto (stored_password (hash_of_user found) s.dummy_password_hash)
              password)
          || not (is_some found))
        (refused invalid_credentials)
    user ← or_fail found (refused invalid_credentials)
    fail_if (not (str_eq user.status "active")) (refused inactive)
    new_user_session (user_of user)

  -- AuthenticateUser
  unfoldable pub authenticate_user : String → Action (AuthResult User)
  authenticate_user token = do
    fail_if (str_eq token "") (refused unauthenticated)
    found ← attempt (user_by_session (digest s.crypto s.user_session_secret token))
    p ← or_fail found (refused unauthenticated)
    fail_if (not (str_eq p.1.status "active")) (refused unauthenticated)
    ignoring {F = IdentityError} (touch_user_session p.0.id)
    pure (user_result (user_of p.1) token)

  -- LogoutUser
  unfoldable pub logout_user : String → Action (Unit {0})
  logout_user token = revoke_user_session (digest s.crypto s.user_session_secret token)

  -- The second factor of LoginAdmin
  unfoldable pub check_code : AdminRow → String → Action (Unit {0})
  check_code admin code = do
    fail_if (str_eq code "") (refused totp_required)
    found ← attempt (admin_totp_secret admin.id)
    row ← or_fail found (refused invalid_credentials)
    secret ← or_fail (decrypt s.crypto row.ciphertext row.nonce) (refused totp_invalid)
    now ← clock
    fail_if (not (validate s.crypto secret code now)) (refused totp_invalid)

  abbrev pub check_code_if : Bool → AdminRow → String → Action (Unit {0})
  check_code_if true admin code = check_code admin code
  check_code_if false admin code = pure tt

  -- LoginAdmin
  unfoldable pub login_admin : String → String → String → Action (AuthResult Admin)
  login_admin email password code = do
    found ← attempt (admin_credentials_by_email (normalize_email email))
    fail_if
        (not (
            verify_password s.crypto (stored_password (hash_of_admin found) s.dummy_password_hash)
              password)
          || not (is_some found))
        (refused invalid_credentials)
    admin ← or_fail found (refused invalid_credentials)
    fail_if (not (str_eq admin.status "active")) (refused inactive)
    check_code_if admin.two_factor_enabled admin code
    new_admin_session admin.id

  -- BeginAdminTOTP
  unfoldable pub begin_admin_totp : Admin → Action TotpSetup
  begin_admin_totp admin = do
    n ← new_id
    secret ← or_fail (generate_secret s.crypto n) (refused no_random_bytes)
    n' ← new_id
    sealed ← or_fail (encrypt s.crypto n' secret) (refused no_random_bytes)
    outside (λ db. (
      tt,
      upsert_totp_secret
          (record {
            admin_id = admin.id;
            ciphertext = sealed.0;
            nonce = sealed.1;
            verified_at = none;
          })
          db,
    ))
    pure (record { secret = secret; uri = uri s.crypto "VPS Billing" admin.email secret })

  -- EnableAdminTOTP
  unfoldable pub enable_totp : ℕ → String → Action (Unit {0})
  enable_totp id code = do
    found ← attempt (admin_totp_secret id)
    row ← or_fail found (refused totp_invalid)
    secret ← or_fail (decrypt s.crypto row.ciphertext row.nonce) (refused totp_invalid)
    now ← clock
    fail_if (not (validate s.crypto secret code now)) (refused totp_invalid)
    outside (λ db. (tt, enable_admin_totp id now db))

  -- AuthenticateAdmin
  unfoldable pub authenticate_admin : String → Action (AuthResult Admin)
  authenticate_admin token = do
    fail_if (str_eq token "") (refused unauthenticated)
    found ← attempt (admin_by_session (digest s.crypto s.admin_session_secret token))
    p ← or_fail found (refused unauthenticated)
    fail_if (not (str_eq p.1.status "active")) (refused unauthenticated)
    ignoring {F = IdentityError} (touch_admin_session p.0.id)
    pure (admin_result p.1 token)

  -- LogoutAdmin
  unfoldable pub logout_admin : String → Action (Unit {0})
  logout_admin token = revoke_admin_session (digest s.crypto s.admin_session_secret token)

  -- ValidUserCSRF and ValidAdminCSRF
  abbrev pub valid_user_csrf : String → String → Bool
  valid_user_csrf token candidate = valid_csrf s.crypto s.user_csrf_secret token candidate

  abbrev pub valid_admin_csrf : String → String → Bool
  valid_admin_csrf token candidate = valid_csrf s.crypto s.admin_csrf_secret token candidate
