-- ===== src/Identity/Statements.antt =====
-- The tables of accounts and sessions, and the queries of backend/internal/store/sqlc/identity.sql.go
-- that backend/internal/identity calls.
use Prim.Native.String.{String}
use text.Mathlib.Text.{◌==◌ as str_eq}
use vps_billing_codex.Shared.{
  ℕ, Bool, true, false, Option, none, some, List, [], ◌∷◌, ◌++◌, if◌then◌else◌, ltb,
}
use vps_billing_codex.Shared.Table.{get, modify}

-- db.User and db.Admin, less what no code here reads
pub record UserRow : Type 0 where
  pub id : ℕ
  pub email : String
  pub password_hash : String
  pub status : String
  pub locale : String
  pub timezone : String

pub record AdminRow : Type 0 where
  pub id : ℕ
  pub email : String
  pub password_hash : String
  pub status : String
  pub display_name : Option String
  pub two_factor_enabled : Bool

-- db.UserSession and db.AdminSession: `account` is the user_id or the admin_id.
pub record Session : Type 0 where
  pub id : ℕ
  pub account : ℕ
  pub token_hash : String
  pub expires_at : ℕ
  pub last_seen_at : ℕ
  pub revoked_at : Option ℕ

-- db.AdminTotpSecret
pub record TotpSecret : Type 0 where
  pub admin_id : ℕ
  pub ciphertext : String
  pub nonce : String
  pub verified_at : Option ℕ

-- The tables; `permissions` is what ListAdminPermissions makes of the tables of roles.
pub record Accounts : Type 0 where
  pub users : List UserRow
  pub admins : List AdminRow
  pub user_sessions : List Session
  pub admin_sessions : List Session
  pub totp_secrets : List TotpSecret
  pub permissions : ℕ → List String

abbrev pub user_id_of : UserRow → ℕ
user_id_of u = u.id

abbrev pub admin_id_of : AdminRow → ℕ
admin_id_of a = a.id

abbrev pub session_id_of : Session → ℕ
session_id_of s = s.id

abbrev pub secret_id_of : TotpSecret → ℕ
secret_id_of s = s.admin_id

-- GetUserByEmail and GetAdminByEmail
unfoldable pub user_by_email : String → List UserRow → Option UserRow
user_by_email email [] = none
user_by_email email (u ∷ us) =
    let rest = user_by_email email us in if str_eq u.email email then some u else rest

unfoldable pub admin_by_email : String → List AdminRow → Option AdminRow
admin_by_email email [] = none
admin_by_email email (a ∷ rows) =
    let rest = admin_by_email email rows in if str_eq a.email email then some a else rest

unfoldable pub find_session : String → List Session → Option Session
find_session hash [] = none
find_session hash (s ∷ ss) =
    let rest = find_session hash ss in if str_eq s.token_hash hash then some s else rest

-- CreateUser: the id and the email are unique.
unfoldable pub create_user : UserRow → Accounts → Option (UserRow × Accounts)
create_user row db = elim (user_by_email row.email db.users) [
  | some _ ↦ none
  | none ↦ elim (get user_id_of row.id db.users) [
    | some _ ↦ none
    | none ↦ some (row, record db { users = db.users ++ row ∷ [] })
  ]
]

-- CreateUserSession and CreateAdminSession: the id and the hash are unique.
unfoldable pub insert_session : Session → List Session → Option (List Session)
insert_session row t = elim (find_session row.token_hash t) [
  | some _ ↦ none
  | none ↦ elim (get session_id_of row.id t) [ some _ ↦ none | none ↦ some (t ++ row ∷ []) ]
]

-- The account must be there.
unfoldable pub create_user_session : Session → Accounts → Option (Session × Accounts)
create_user_session row db = elim (get user_id_of row.account db.users) [
  | none ↦ none
  | some _ ↦ elim (insert_session row db.user_sessions) [
    | none ↦ none
    | some t ↦ some (row, record db { user_sessions = t })
  ]
]

unfoldable pub create_admin_session : Session → Accounts → Option (Session × Accounts)
create_admin_session row db = elim (get admin_id_of row.account db.admins) [
  | none ↦ none
  | some _ ↦ elim (insert_session row db.admin_sessions) [
    | none ↦ none
    | some t ↦ some (row, record db { admin_sessions = t })
  ]
]

abbrev pub is_open : ℕ → Session → Bool
is_open now s = elim s.revoked_at [ none ↦ ltb now s.expires_at | some _ ↦ false ]

-- GetActiveUserSession and GetActiveAdminSession
unfoldable pub active_user_session : String → ℕ → Accounts → Option (Session × UserRow)
active_user_session hash now db = elim (find_session hash db.user_sessions) [
  | none ↦ none
  | some s ↦
      if is_open now s
      then elim (get user_id_of s.account db.users) [ none ↦ none | some u ↦ some (s, u) ]
      else none
]

unfoldable pub active_admin_session : String → ℕ → Accounts → Option (Session × AdminRow)
active_admin_session hash now db = elim (find_session hash db.admin_sessions) [
  | none ↦ none
  | some s ↦
      if is_open now s
      then elim (get admin_id_of s.account db.admins) [ none ↦ none | some a ↦ some (s, a) ]
      else none
]

abbrev pub touched : ℕ → Session → Session
touched now s = elim s.revoked_at [ none ↦ record s { last_seen_at = now } | some _ ↦ s ]

abbrev pub revoked : ℕ → Session → Session
revoked now s = elim s.revoked_at [ none ↦ record s { revoked_at = some now } | some _ ↦ s ]

-- TouchUserSession and TouchAdminSession
unfoldable pub touch_session : ℕ → ℕ → List Session → List Session
touch_session id now = modify session_id_of id (touched now)

-- RevokeUserSession and RevokeAdminSession
unfoldable pub revoke_session : String → ℕ → List Session → List Session
revoke_session hash now [] = []
revoke_session hash now (s ∷ ss) =
    (if str_eq s.token_hash hash then revoked now s else s) ∷ revoke_session hash now ss

-- UpsertAdminTOTPSecret
unfoldable pub upsert_totp_secret : TotpSecret → Accounts → Accounts
upsert_totp_secret row db = record db {
  totp_secrets = elim (get secret_id_of row.admin_id db.totp_secrets) [
    | none ↦ db.totp_secrets ++ row ∷ []
    | some _ ↦ modify secret_id_of row.admin_id (λ _. row) db.totp_secrets
  ];
}

-- EnableAdminTOTP
unfoldable pub enable_admin_totp : ℕ → ℕ → Accounts → Accounts
enable_admin_totp id now db = elim (get secret_id_of id db.totp_secrets) [
  | none ↦ db
  | some _ ↦ record db {
    totp_secrets =
        modify secret_id_of id (λ s. record s { verified_at = some now }) db.totp_secrets;
    admins = modify admin_id_of id (λ a. record a { two_factor_enabled = true }) db.admins;
  }
]
