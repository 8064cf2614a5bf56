-- ===== src/Identity/Opened.antt =====
-- The session that LoginUser of backend/internal/identity/identity.go opens is the one that
-- AuthenticateUser finds.
use Prim.Native.String.{String}
use text.Mathlib.Text.{◌==◌ as str_eq}
use text.Mathlib.TextPositions.{eq_refl}
use vps_billing_codex.Shared.{
  ℕ, ◌+◌, ◌≡◌, ◌<◌, true, false, none, some, List, [], ◌∷◌, ◌++◌, arith, inl, inr, Bool-cases,
  Option-cases, refl, ltb,
}
use vps_billing_codex.Shared.Tx.{World, ok, IsUp}
use vps_billing_codex.Shared.Table.{get}
use vps_billing_codex.Security.{digest, verify_password, new_token}
use vps_billing_codex.Identity.{
  Service, UserRow, Accounts, User, AuthResult, user_by_email, user_id_of, user_of, user_result,
  normalize_email, login_user, new_user_session, authenticate_user, Session, find_session,
  insert_session, create_user_session, active_user_session, user_by_session, session_row,
  session_id_of,
}

find-appended :
    (row : Session) (t : List Session)
    → find_session row.token_hash t ≡ none
    → find_session row.token_hash (t ++ row ∷ []) ≡ some row
unfolding find_session
find-appended row [] h = ground (arith, eq_refl row.token_hash)
find-appended row (x ∷ t) h = elim (Bool-cases (str_eq x.token_hash row.token_hash)) [
  | inl here ↦ absurd (ground (arith, here, h))
  | inr later ↦ ground (arith, later, h, find-appended row t)
]

-- A row that was inserted is found while it is open.
inserted-active :
    (row : Session) (db : Accounts) (p : Session × Accounts) (u : UserRow) (now : ℕ)
    → get user_id_of row.account db.users ≡ some u
    → create_user_session row db ≡ some p
    → row.revoked_at ≡ none
    → ltb now row.expires_at ≡ true
    → active_user_session row.token_hash now p.1 ≡ some (row, u)
unfolding create_user_session insert_session active_user_session
inserted-active row db p u now account made open_ early =
    elim (Option-cases (find_session row.token_hash db.user_sessions)) [
      | inr (x, taken) ↦ absurd (ground (arith, account, taken, made))
      | inl fresh ↦ elim (Option-cases (get session_id_of row.id db.user_sessions)) [
        | inr (x, taken) ↦ absurd (ground (arith, account, fresh, taken, made))
        | inl free ↦
            let appended = find-appended row db.user_sessions fresh in
            ground (arith, account, fresh, free, made, appended, open_, early)
      ]
    ]

module _ (s : Service) where
  Opens : User → UserRow → ℕ → AuthResult User → Accounts → Type 0
  Opens user u start r db =
      (r ≡ user_result s user r.token)
      × ((now : ℕ)
          → now < start + s.ttl
          → (row : Session) × (active_user_session (digest s.crypto s.user_session_secret r.token)
                now db
              ≡ some (row, u)))

  new_session-Opens :
      (user : User) (u : UserRow) (w : World Accounts) {r : AuthResult User}
      → get user_id_of user.id w.store.users ≡ some u
      → (new_user_session s user w).0 ≡ ok r
      → Opens user u w.now r (new_user_session s user w).1.saved
  unfolding new_user_session Opens
  new_session-Opens user u w {r} account h = elim (Option-cases (new_token s.crypto w.next_id)) [
    | inl no_token ↦ absurd (ground (arith, no_token, h))
    | inr (token, read) ↦ elim (Bool-cases (w.broken w.calls)) [
      | inl down ↦ absurd (ground (arith, read, down, h))
      | inr alive ↦
          let row =
            session_row s (w.next_id + 1) user.id (digest s.crypto s.user_session_secret token)
              w.now in
          elim (Option-cases (create_user_session row w.store)) [
            | inl refused_ ↦ absurd (ground (arith, read, alive, refused_, h))
            | inr (p, made) ↦ (
              ground (arith, read, alive, made, h),
              λ now early. (
                row,
                ground (
                  arith,
                  read,
                  alive,
                  made,
                  h,
                  inserted-active row w.store p u now account made refl (ground (arith, early)),
                ),
              ),
            )
          ]
    ]
  ]

  -- The session of a LoginUser: where the ids of the users are unique, AuthenticateUser with the token
  -- that LoginUser returned, on what that call committed, before the session's time is over, while the
  -- database answers and the token is not empty, returns what LoginUser returned.
  pub login_then_authenticate :
      (email password : String) (w v : World Accounts) {u : UserRow} {r : AuthResult User}
      → user_by_email (normalize_email s email) w.store.users ≡ some u
      → get user_id_of u.id w.store.users ≡ some u
      → (login_user s email password w).0 ≡ ok r
      → v.store ≡ (login_user s email password w).1.saved
      → v.now < w.now + s.ttl
      → IsUp v
      → str_eq r.token "" ≡ false
      → (authenticate_user s r.token v).0 ≡ ok r
  unfolding login_user authenticate_user user_by_session Opens
  login_then_authenticate email password w v {u = u} {r = r} found own h left early up given =
      elim (Bool-cases (w.broken w.calls)) [
        | inl down ↦ absurd (ground (arith, down, h))
        | inr alive ↦ elim (Bool-cases (verify_password s.crypto u.password_hash password)) [
          | inr wrong ↦ absurd (ground (arith, alive, found, wrong, h))
          | inl right ↦ elim (Bool-cases (str_eq u.status "active")) [
            | inr idle ↦ absurd (ground (arith, alive, found, right, idle, h))
            | inl active ↦
                let w' = record w { calls = w.calls + 1 } in
                let opened =
                  new_session-Opens (user_of u) u w' {r = r} own
                    (simp (alive, found, right, active) at h) in
                let (row, met) = opened.1 v.now early in
                ground (arith, given, up v.calls, active, met, left, alive, found, right, opened.0)
          ]
        ]
      ]
