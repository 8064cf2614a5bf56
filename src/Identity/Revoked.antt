-- ===== src/Identity/Revoked.antt =====
-- A user session that was logged out never authenticates again: backend/internal/identity/identity.go
-- under any sequence of calls.
use Prim.Native.String.{String}
use text.Mathlib.Text.{◌==◌ as str_eq}
use vps_billing_codex.Shared.{
  ℕ, ◌+◌, ◌≡◌, none, some, List, [], ◌∷◌, arith, inl, inr, Bool-cases, Option-cases,
}
use vps_billing_codex.Shared.Tx.{World, ok, err, refused}
use vps_billing_codex.Security.{digest}
use vps_billing_codex.Identity.{
  Service, Session, Accounts, find_session, active_user_session, user_by_session, authenticate_user,
  logout_user, logout_admin, revoke_user_session, unauthenticated,
}
use vps_billing_codex.Identity.Rows.{IsRevoked, revoke_session-revokes}
use vps_billing_codex.Identity.Kept.{revoke_user_session-Stays, revoke_admin_session-Stays}
use vps_billing_codex.Identity.Services.{
  register-Stays, login_user-Stays, authenticate_user-Stays, login_admin-Stays,
  begin_admin_totp-Stays, enable_totp-Stays, authenticate_admin-Stays,
}
use vps_billing_codex.Identity.Calls.{
  Call, run_call, run_calls, register_call, login_user_call, authenticate_user_call,
  logout_user_call, login_admin_call, begin_admin_totp_call, enable_totp_call,
  authenticate_admin_call, logout_admin_call,
}

module _ (s : Service) where
  abbrev Gone : String → World Accounts → Type 0
  Gone hash w = IsRevoked hash w.store × IsRevoked hash w.saved

  run_call-Gone :
      (hash : String) (c : Call) (w : World Accounts) → Gone hash w → Gone hash (run_call s c w)
  unfolding run_call logout_user logout_admin
  run_call-Gone hash (register_call e p l t) w h = register-Stays hash s e p l t w h.0 h.1
  run_call-Gone hash (login_user_call e p) w h = login_user-Stays hash s e p w h.0 h.1
  run_call-Gone hash (authenticate_user_call t) w h = authenticate_user-Stays hash s t w h.0 h.1
  run_call-Gone hash (logout_user_call t) w h =
      revoke_user_session-Stays hash (digest s.crypto s.user_session_secret t) w h.0 h.1
  run_call-Gone hash (login_admin_call e p c) w h = login_admin-Stays hash s e p c w h.0 h.1
  run_call-Gone hash (begin_admin_totp_call a) w h = begin_admin_totp-Stays hash s a w h.0 h.1
  run_call-Gone hash (enable_totp_call id c) w h = enable_totp-Stays hash s id c w h.0 h.1
  run_call-Gone hash (authenticate_admin_call t) w h = authenticate_admin-Stays hash s t w h.0 h.1
  run_call-Gone hash (logout_admin_call t) w h =
      revoke_admin_session-Stays hash (digest s.crypto s.admin_session_secret t) w h.0 h.1

  run_calls-Gone :
      (hash : String) (cs : List (ℕ × Call)) (w : World Accounts)
      → Gone hash w
      → Gone hash (run_calls s cs w)
  unfolding run_calls
  run_calls-Gone hash [] w h = h
  run_calls-Gone hash ((later, c) ∷ cs) w h =
      run_calls-Gone hash cs (run_call s c (record w { now = w.now + later }))
        (run_call-Gone hash c (record w { now = w.now + later }) h)

  closed-session :
      (hash : String) (now : ℕ) (db : Accounts)
      → IsRevoked hash db
      → active_user_session hash now db ≡ none
  unfolding active_user_session
  closed-session hash now db h = elim (Option-cases (find_session hash db.user_sessions)) [
    | inl missing ↦ ground (arith, missing)
    | inr (x, found) ↦ elim (Option-cases x.revoked_at) [
      | inl open_ ↦ absurd (ground (arith, found, open_, h))
      | inr (at_, closed) ↦ ground (arith, found, closed)
    ]
  ]

  refuses :
      (token : String) (w : World Accounts)
      → IsRevoked (digest s.crypto s.user_session_secret token) w.store
      → (authenticate_user s token w).0 ≡ err (refused unauthenticated)
  unfolding authenticate_user user_by_session
  refuses token w h =
      let closed = closed-session (digest s.crypto s.user_session_secret token) w.now w.store h in
      elim (Bool-cases (str_eq token "")) [
        | inl empty ↦ ground (arith, empty)
        | inr given ↦ elim (Bool-cases (w.broken w.calls)) [
          | inl down ↦ ground (arith, given, down)
          | inr alive ↦ ground (arith, given, alive, closed)
        ]
      ]

  -- Once LogoutUser has ended without an error for the token of a session, AuthenticateUser refuses
  -- that token for ever: whatever calls of the service follow, with any arguments and pauses, and
  -- whichever statement fails.
  pub logged_out_stays :
      (token : String) (cs : List (ℕ × Call)) (w : World Accounts) {x : Session}
      → find_session (digest s.crypto s.user_session_secret token) w.store.user_sessions ≡ some x
      → (logout_user s token w).0 ≡ ok tt
      → (authenticate_user s token (run_calls s cs (logout_user s token w).1)).0
        ≡ err (refused unauthenticated)
  unfolding logout_user revoke_user_session
  logged_out_stays token cs w {x = x} found done =
      let hash = digest s.crypto s.user_session_secret token in
      let revoked = revoke_session-revokes hash w.now w.store.user_sessions {s = x} found in
      elim (Bool-cases (w.broken w.calls)) [
        | inl down ↦ absurd (ground (arith, down, done))
        | inr alive ↦
            refuses token (run_calls s cs (revoke_user_session hash w).1)
              (run_calls-Gone hash cs (revoke_user_session hash w).1
                (ground (arith, alive, revoked), ground (arith, alive, revoked))).0
      ]
