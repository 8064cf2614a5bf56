-- ===== src/Identity/Services.antt =====
-- What the methods of Service of backend/internal/identity/identity.go leave of a revoked session.
use Prim.Native.String.{String}
use text.Mathlib.Text.{◌==◌ as str_eq}
use vps_billing_codex.Shared.{
  ℕ, ◌+◌, Bool, true, false, not, none, arith, inl, inr, Option-cases, is_some, ◌||◌,
}
use vps_billing_codex.Shared.Tx.{Error, refused, outside, or_fail, fail_if, no_rows}
use vps_billing_codex.Security.{
  digest, Hashed, hashed, invalid_length, no_salt, hash_password, verify_password, validate,
  generate_secret, encrypt, decrypt,
}
use vps_billing_codex.Shared.Table.{get}
use vps_billing_codex.Identity.{
  IdentityError, Service, AdminRow, Accounts, Admin, attempt, save_user, user_by_session,
  admin_by_session, register, login_user, authenticate_user, check_code, check_code_if, login_admin,
  begin_admin_totp, enable_totp, authenticate_admin, upsert_totp_secret, enable_admin_totp,
  user_credentials_by_email, admin_credentials_by_email, admin_totp_secret, hash_or_fail,
  unauthenticated, user_by_email, admin_by_email, secret_id_of, normalize_email, inactive,
  invalid_credentials, totp_invalid, totp_required, no_random_bytes, stored_password, hash_of_user,
  hash_of_admin, user_of,
}
use vps_billing_codex.Identity.Rows.{IsRevoked}
use vps_billing_codex.Identity.Kept.{
  Stays, then-Stays, outside-Stays, attempt-Stays, or_fail-Stays, find-Stays,
  touch_user_session-Stays, touch_admin_session-Stays, save_user-Stays, new_user_session-Stays,
  new_admin_session-Stays, user_by_session-Stays, admin_by_session-Stays,
}

module _ (hash : String) (s : Service) where
  hash_or_fail-Stays : (h : Hashed) → Stays hash (hash_or_fail s h)
  hash_or_fail-Stays (hashed h) w k v = (k, v)
  hash_or_fail-Stays invalid_length w k v = (k, v)
  hash_or_fail-Stays no_salt w k v = (k, v)

  fail_if-Stays : (b : Bool) (e : Error IdentityError) → Stays hash (fail_if b e)
  fail_if-Stays b e w h k = (h, k)

  pub register-Stays :
      (email password locale timezone : String)
      → Stays hash (register s email password locale timezone)
  unfolding register
  register-Stays email password locale timezone w h k =
      then-Stays hash (hash_or_fail s (hash_password s.crypto w.next_id password)) _
        (hash_or_fail-Stays (hash_password s.crypto w.next_id password))
        (λ stored w h k.
          then-Stays hash (save_user _) _ (save_user-Stays hash _)
            (λ user. new_user_session-Stays hash s (user_of user))
            (record w { next_id = w.next_id + 1 }) h k)
        (record w { next_id = w.next_id + 1 }) h k

  pub login_user-Stays : (email password : String) → Stays hash (login_user s email password)
  unfolding login_user
  login_user-Stays email password =
      then-Stays hash (attempt (user_credentials_by_email (normalize_email s email))) _
        (attempt-Stays hash (user_credentials_by_email (normalize_email s email)) (
          find-Stays hash (λ (db : Accounts). user_by_email (normalize_email s email) db.users)
            no_rows))
        (λ found.
          let wrong =
            not (
              verify_password s.crypto (stored_password (hash_of_user found) s.dummy_password_hash)
                password)
            || not (is_some found) in
          then-Stays hash (fail_if wrong (refused invalid_credentials)) _
            (fail_if-Stays wrong (refused invalid_credentials))
            (λ _.
              then-Stays hash (or_fail found (refused invalid_credentials)) _
                (or_fail-Stays hash found (refused invalid_credentials))
                (λ user.
                  then-Stays hash (fail_if (not (str_eq user.status "active")) (refused inactive)) _
                    (fail_if-Stays (not (str_eq user.status "active")) (refused inactive))
                    (λ _. new_user_session-Stays hash s (user_of user)))))

  pub authenticate_user-Stays : (token : String) → Stays hash (authenticate_user s token)
  unfolding authenticate_user
  authenticate_user-Stays token =
      let stored = digest s.crypto s.user_session_secret token in
      then-Stays hash (fail_if (str_eq token "") (refused unauthenticated)) _
        (fail_if-Stays (str_eq token "") (refused unauthenticated))
        (λ _.
          then-Stays hash (attempt (user_by_session stored)) _
            (attempt-Stays hash (user_by_session stored) (user_by_session-Stays hash stored))
            (λ found.
              then-Stays hash (or_fail found (refused unauthenticated)) _
                (or_fail-Stays hash found (refused unauthenticated))
                (λ p.
                  then-Stays hash
                    (fail_if (not (str_eq p.1.status "active")) (refused unauthenticated)) _
                    (fail_if-Stays (not (str_eq p.1.status "active")) (refused unauthenticated))
                    (λ _ w h k. touch_user_session-Stays hash p.0.id w h k))))

  check_code-Stays : (admin : AdminRow) (code : String) → Stays hash (check_code s admin code)
  unfolding check_code
  check_code-Stays admin code =
      then-Stays hash (fail_if (str_eq code "") (refused totp_required)) _
        (fail_if-Stays (str_eq code "") (refused totp_required))
        (λ _.
          then-Stays hash (attempt (admin_totp_secret admin.id)) _
            (attempt-Stays hash (admin_totp_secret admin.id) (
              find-Stays hash (λ (db : Accounts). get secret_id_of admin.id db.totp_secrets)
                no_rows))
            (λ found.
              then-Stays hash (or_fail found (refused invalid_credentials)) _
                (or_fail-Stays hash found (refused invalid_credentials))
                (λ row.
                  then-Stays hash
                    (or_fail (decrypt s.crypto row.ciphertext row.nonce) (refused totp_invalid)) _
                    (or_fail-Stays hash (decrypt s.crypto row.ciphertext row.nonce)
                      (refused totp_invalid))
                    (λ secret w h k. (h, k)))))

  check_code_if-Stays :
      (b : Bool) (admin : AdminRow) (code : String) → Stays hash (check_code_if s b admin code)
  check_code_if-Stays true admin code w h k = check_code-Stays admin code w h k
  check_code_if-Stays false admin code w h k = (h, k)

  pub login_admin-Stays :
      (email password code : String) → Stays hash (login_admin s email password code)
  unfolding login_admin
  login_admin-Stays email password code =
      then-Stays hash (attempt (admin_credentials_by_email (normalize_email s email))) _
        (attempt-Stays hash (admin_credentials_by_email (normalize_email s email)) (
          find-Stays hash (λ (db : Accounts). admin_by_email (normalize_email s email) db.admins)
            no_rows))
        (λ found.
          let wrong =
            not (
              verify_password s.crypto (stored_password (hash_of_admin found) s.dummy_password_hash)
                password)
            || not (is_some found) in
          then-Stays hash (fail_if wrong (refused invalid_credentials)) _
            (fail_if-Stays wrong (refused invalid_credentials))
            (λ _.
              then-Stays hash (or_fail found (refused invalid_credentials)) _
                (or_fail-Stays hash found (refused invalid_credentials))
                (λ admin.
                  then-Stays hash (fail_if (not (str_eq admin.status "active")) (refused inactive))
                    _ (fail_if-Stays (not (str_eq admin.status "active")) (refused inactive))
                    (λ _.
                      then-Stays hash (check_code_if s admin.two_factor_enabled admin code) _
                        (check_code_if-Stays admin.two_factor_enabled admin code)
                        (λ _. new_admin_session-Stays hash s admin.id)))))

  pub begin_admin_totp-Stays : (admin : Admin) → Stays hash (begin_admin_totp s admin)
  unfolding begin_admin_totp upsert_totp_secret
  begin_admin_totp-Stays admin w h k =
      then-Stays hash (or_fail (generate_secret s.crypto w.next_id) (refused no_random_bytes)) _
        (or_fail-Stays hash (generate_secret s.crypto w.next_id) (refused no_random_bytes))
        (λ secret w h k.
          then-Stays hash (or_fail (encrypt s.crypto w.next_id secret) (refused no_random_bytes)) _
            (or_fail-Stays hash (encrypt s.crypto w.next_id secret) (refused no_random_bytes))
            (λ sealed.
              then-Stays hash
                (outside (λ db. (
                  tt,
                  upsert_totp_secret
                      (record {
                        admin_id = admin.id;
                        ciphertext = sealed.0;
                        nonce = sealed.1;
                        verified_at = none;
                      })
                      db,
                )))
                _ (outside-Stays hash _ (λ db h. h)) (λ _ w h k. (h, k)))
            (record w { next_id = w.next_id + 1 }) h k)
        (record w { next_id = w.next_id + 1 }) h k

  enabled-kept :
      (id now : ℕ) (db : Accounts)
      → IsRevoked hash db
      → IsRevoked hash (enable_admin_totp id now db)
  unfolding enable_admin_totp
  enabled-kept id now db h = elim (Option-cases (get secret_id_of id db.totp_secrets)) [
    | inl missing ↦ ground (arith, missing, h)
    | inr (r, found) ↦ ground (arith, found, h)
  ]

  pub enable_totp-Stays : (id : ℕ) (code : String) → Stays hash (enable_totp s id code)
  unfolding enable_totp
  enable_totp-Stays id code =
      then-Stays hash (attempt (admin_totp_secret id)) _
        (attempt-Stays hash (admin_totp_secret id)
          (find-Stays hash (λ (db : Accounts). get secret_id_of id db.totp_secrets) no_rows))
        (λ found.
          then-Stays hash (or_fail found (refused totp_invalid)) _
            (or_fail-Stays hash found (refused totp_invalid))
            (λ row.
              then-Stays hash
                (or_fail (decrypt s.crypto row.ciphertext row.nonce) (refused totp_invalid)) _
                (or_fail-Stays hash (decrypt s.crypto row.ciphertext row.nonce)
                  (refused totp_invalid))
                (λ secret w h k.
                  then-Stays hash
                    (fail_if (not (validate s.crypto secret code w.now)) (refused totp_invalid)) _
                    (fail_if-Stays (not (validate s.crypto secret code w.now))
                      (refused totp_invalid))
                    (λ _. outside-Stays hash _ (enabled-kept id w.now)) w h k)))

  pub authenticate_admin-Stays : (token : String) → Stays hash (authenticate_admin s token)
  unfolding authenticate_admin
  authenticate_admin-Stays token =
      let stored = digest s.crypto s.admin_session_secret token in
      then-Stays hash (fail_if (str_eq token "") (refused unauthenticated)) _
        (fail_if-Stays (str_eq token "") (refused unauthenticated))
        (λ _.
          then-Stays hash (attempt (admin_by_session stored)) _
            (attempt-Stays hash (admin_by_session stored) (admin_by_session-Stays hash stored))
            (λ found.
              then-Stays hash (or_fail found (refused unauthenticated)) _
                (or_fail-Stays hash found (refused unauthenticated))
                (λ p.
                  then-Stays hash
                    (fail_if (not (str_eq p.1.status "active")) (refused unauthenticated)) _
                    (fail_if-Stays (not (str_eq p.1.status "active")) (refused unauthenticated))
                    (λ _ w h k. touch_admin_session-Stays hash p.0.id w h k))))
