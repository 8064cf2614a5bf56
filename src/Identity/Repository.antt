-- ===== src/Identity/Repository.antt =====
-- The types of backend/internal/identity/identity.go and PostgresRepository of repository.go.
use Prim.Native.String.{String}
use vps_billing_codex.Shared.{ℕ, Bool, Option, none, some, List}
use vps_billing_codex.Shared.Tx.{
  World, Error, Result, ok, err, no_rows, unique_violation, refused, M, ◌>>=◌, pure, or_fail,
  select, clock, outside, outside_row, with_error,
}
use vps_billing_codex.Security.{Crypto}
use vps_billing_codex.Shared.Table.{get}
use vps_billing_codex.Identity.Statements.{
  UserRow, AdminRow, Session, TotpSecret, Accounts, secret_id_of, user_by_email, admin_by_email,
  create_user, active_user_session, active_admin_session, touch_session, revoke_session,
}

-- The errors of identity.go, ErrInvalidPassword, and an error of crypto/rand
pub data IdentityError : Type 0 where
  invalid_credentials email_in_use unauthenticated inactive totp_required totp_invalid :
      IdentityError
  invalid_password no_random_bytes : IdentityError

abbrev pub Action : Type 0 → Type 0
Action = M Accounts IdentityError

-- Service, with the hash of the password that belongs to no account
pub record Service : Type 0 where
  pub crypto : Crypto
  pub user_session_secret : String
  pub admin_session_secret : String
  pub user_csrf_secret : String
  pub admin_csrf_secret : String
  pub ttl : ℕ
  pub dummy_password_hash : String

pub record User : Type 0 where
  pub id : ℕ
  pub email : String
  pub status : String
  pub locale : String
  pub timezone : String

pub record Admin : Type 0 where
  pub id : ℕ
  pub email : String
  pub status : String
  pub display_name : String
  pub two_factor_enabled : Bool
  pub permissions : List String

pub record AuthResult (T : Type 0) : Type 0 where
  pub principal : T
  pub csrf_token : String
  pub token : String

pub record TotpSetup : Type 0 where
  pub secret : String
  pub uri : String

abbrev pub user_of : UserRow → User
user_of u = record {
  id = u.id;
  email = u.email;
  status = u.status;
  locale = u.locale;
  timezone = u.timezone;
}

abbrev pub text_of : Option String → String
text_of none = ""
text_of (some s) = s

abbrev pub admin_of : AdminRow → List String → Admin
admin_of a permissions = record {
  id = a.id;
  email = a.email;
  status = a.status;
  display_name = text_of a.display_name;
  two_factor_enabled = a.two_factor_enabled;
  permissions = permissions;
}

-- A call whose error the caller only tests for.
abbrev pub attempted :
    {A : Type 0}
    → Result IdentityError A × World Accounts
    → Result IdentityError (Option A) × World Accounts
attempted (ok a, w) = (ok (some a), w)
attempted (err e, w) = (ok none, w)

abbrev pub attempt : {A : Type 0} → Action A → Action (Option A)
attempt m w = attempted (m w)

-- PostgresRepository.CreateUser
abbrev pub email_taken : Error IdentityError → Error IdentityError
email_taken unique_violation = refused email_in_use
email_taken e = e

unfoldable pub save_user : UserRow → Action UserRow
save_user row = with_error email_taken (outside_row (create_user row) unique_violation)

-- UserBySession and AdminBySession
unfoldable pub user_by_session : String → Action (Session × UserRow)
user_by_session hash = do
  now ← clock
  found ← select (active_user_session hash now)
  or_fail found (refused unauthenticated)

unfoldable pub admin_by_session : String → Action (Session × Admin)
admin_by_session hash = do
  now ← clock
  found ← select (active_admin_session hash now)
  p ← or_fail found (refused unauthenticated)
  permissions ← select (λ db. db.permissions p.1.id)
  pure (p.0, admin_of p.1 permissions)

abbrev pub stored_password : Option String → String → String
stored_password none dummy = dummy
stored_password (some h) _ = h

abbrev pub hash_of_user : Option UserRow → Option String
hash_of_user none = none
hash_of_user (some u) = some u.password_hash

abbrev pub hash_of_admin : Option AdminRow → Option String
hash_of_admin none = none
hash_of_admin (some a) = some a.password_hash

-- UserCredentialsByEmail and AdminCredentialsByEmail
abbrev pub user_credentials_by_email : String → Action UserRow
user_credentials_by_email email = do
  found ← select (λ db. user_by_email email db.users)
  or_fail found no_rows

abbrev pub admin_credentials_by_email : String → Action AdminRow
admin_credentials_by_email email = do
  found ← select (λ db. admin_by_email email db.admins)
  or_fail found no_rows

-- AdminTOTPSecret
abbrev pub admin_totp_secret : ℕ → Action TotpSecret
admin_totp_secret id = do
  found ← select (λ db. get secret_id_of id db.totp_secrets)
  or_fail found no_rows

-- The statements that write one table of sessions.
unfoldable pub touch_user_session : ℕ → Action (Unit {0})
touch_user_session id = do
  now ← clock
  outside (λ db. (tt, record db { user_sessions = touch_session id now db.user_sessions }))

unfoldable pub touch_admin_session : ℕ → Action (Unit {0})
touch_admin_session id = do
  now ← clock
  outside (λ db. (tt, record db { admin_sessions = touch_session id now db.admin_sessions }))

unfoldable pub revoke_user_session : String → Action (Unit {0})
revoke_user_session hash = do
  now ← clock
  outside (λ db. (tt, record db { user_sessions = revoke_session hash now db.user_sessions }))

unfoldable pub revoke_admin_session : String → Action (Unit {0})
revoke_admin_session hash = do
  now ← clock
  outside (λ db. (tt, record db { admin_sessions = revoke_session hash now db.admin_sessions }))
