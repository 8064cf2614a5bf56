-- ===== src/Identity/Tests.antt =====
-- Runs of the logins of backend/internal/identity/identity.go with small functions in the place of the
-- cryptography.
use text.Mathlib.Text.{◌==◌ as str_eq}
use vps_billing_codex.Shared.{◌≡◌, [], ◌∷◌, true, false, some, none, refl, arith}
use vps_billing_codex.Shared.Tx.{World, ok, err, refused}
use vps_billing_codex.Security.{verify_password, validate, generate, split_at_dollar}
use vps_billing_codex.Security.Tests.{small_crypto, stored_hash}
use vps_billing_codex.Identity.{
  Service, UserRow, AdminRow, Accounts, Session, login_user, login_admin, logout_user,
  authenticate_user, new_user_session, new_admin_session, admin_by_session, check_code,
  user_by_email, admin_by_email, find_session, insert_session, create_user_session,
  create_admin_session, active_admin_session, revoke_user_session, unauthenticated, user_result,
  user_of, admin_result, admin_of,
}
use vps_billing_codex.Identity.Calls.{
  run_calls, login_user_call, authenticate_user_call, logout_admin_call,
}
use vps_billing_codex.Identity.Revoked.{logged_out_stays}
use vps_billing_codex.Identity.Login.{login_admin_checks, HasCode}
use vps_billing_codex.Identity.Opened.{login_then_authenticate}

abbrev service : Service
service = record {
  crypto = small_crypto;
  user_session_secret = "s1";
  admin_session_secret = "s2";
  user_csrf_secret = "s3";
  admin_csrf_secret = "s4";
  ttl = 1000;
  dummy_password_hash = "dummy";
}

abbrev ann : UserRow
ann = record {
  id = 3;
  email = "ann@example.com";
  password_hash = stored_hash;
  status = "active";
  locale = "en-US";
  timezone = "UTC";
}

abbrev root : AdminRow
root = record {
  id = 4;
  email = "root@example.com";
  password_hash = stored_hash;
  status = "active";
  display_name = none;
  two_factor_enabled = true;
}

abbrev ann_session : Session
ann_session = record {
  id = 9;
  account = 3;
  token_hash = "old-token";
  expires_at = 5000;
  last_seen_at = 50;
  revoked_at = none;
}

abbrev accounts : Accounts
accounts = record {
  users = ann ∷ [];
  admins = root ∷ [];
  user_sessions = ann_session ∷ [];
  admin_sessions = [];
  totp_secrets =
      record { admin_id = 4; ciphertext = "SECRET"; nonce = "n"; verified_at = some 5 } ∷ [];
  permissions = λ _. "orders.read" ∷ [];
}

abbrev world : World Accounts
world = record {
  store = accounts;
  saved = accounts;
  now = 100;
  next_id = 1000;
  calls = 0;
  broken = λ _. false;
  locked = λ _. false;
}

logged_out_stays_example :
    (authenticate_user service "old-token" (
      run_calls service
        ((5, login_user_call "ann@example.com" "correct horse battery")
          ∷ (7, authenticate_user_call "old-token")
          ∷ (9, logout_admin_call "old-token")
          ∷ [])
        (logout_user service "old-token" world).1)).0
    ≡ err (refused unauthenticated)
unfolding find_session logout_user revoke_user_session
logged_out_stays_example =
    logged_out_stays service "old-token"
      ((5, login_user_call "ann@example.com" "correct horse battery")
        ∷ (7, authenticate_user_call "old-token")
        ∷ (9, logout_admin_call "old-token")
        ∷ [])
      world {x = ann_session} refl refl

login_admin_checks_example :
    (a : AdminRow) × (admin_by_email "root@example.com" accounts.admins ≡ some a)
    × (verify_password small_crypto a.password_hash "correct horse battery" ≡ true)
    × (str_eq a.status "active" ≡ true)
    × (a.two_factor_enabled ≡ true → HasCode service a "000042" world)
unfolding split_at_dollar login_admin new_admin_session admin_by_session check_code admin_by_email
    find_session insert_session create_admin_session active_admin_session verify_password validate
    generate
login_admin_checks_example =
    login_admin_checks service "root@example.com" "correct horse battery" "000042" world
      {r = admin_result service (admin_of root ("orders.read" ∷ [])) "0123456789abcdef"} refl

login_then_authenticate_example :
    (authenticate_user service "0123456789abcdef" (record world {
      store = (login_user service "ann@example.com" "correct horse battery" world).1.saved;
      now = 600;
    })).0
    ≡ ok (user_result service (user_of ann) "0123456789abcdef")
unfolding split_at_dollar login_user new_user_session user_by_email find_session insert_session
    create_user_session verify_password
login_then_authenticate_example =
    login_then_authenticate service "ann@example.com" "correct horse battery" world
      (record world {
        store = (login_user service "ann@example.com" "correct horse battery" world).1.saved;
        now = 600;
      })
      {u = ann} {r = user_result service (user_of ann) "0123456789abcdef"} refl refl refl refl
      (omega arith) (λ _. refl) refl
