-- ===== src/Identity/Calls.antt =====
-- The calls of Service of backend/internal/identity/identity.go, in any order and with any pauses
-- between them.
use Prim.Native.String.{String}
use vps_billing_codex.Shared.{ℕ, ◌+◌, List, [], ◌∷◌}
use vps_billing_codex.Shared.Tx.{World}
use vps_billing_codex.Identity.{
  Service, Accounts, Admin, register, login_user, authenticate_user, logout_user, login_admin,
  begin_admin_totp, enable_totp, authenticate_admin, logout_admin,
}

pub data Call : Type 0 where
  register_call : (email password locale timezone : String) → Call
  login_user_call : (email password : String) → Call
  authenticate_user_call logout_user_call : String → Call
  login_admin_call : (email password code : String) → Call
  begin_admin_totp_call : Admin → Call
  enable_totp_call : ℕ → String → Call
  authenticate_admin_call logout_admin_call : String → Call

module _ (s : Service) where
  unfoldable pub run_call : Call → World Accounts → World Accounts
  run_call (register_call e p l t) w = (register s e p l t w).1
  run_call (login_user_call e p) w = (login_user s e p w).1
  run_call (authenticate_user_call token) w = (authenticate_user s token w).1
  run_call (logout_user_call token) w = (logout_user s token w).1
  run_call (login_admin_call e p c) w = (login_admin s e p c w).1
  run_call (begin_admin_totp_call a) w = (begin_admin_totp s a w).1
  run_call (enable_totp_call id c) w = (enable_totp s id c w).1
  run_call (authenticate_admin_call token) w = (authenticate_admin s token w).1
  run_call (logout_admin_call token) w = (logout_admin s token w).1

  unfoldable pub run_calls : List (ℕ × Call) → World Accounts → World Accounts
  run_calls [] w = w
  run_calls ((later, c) ∷ cs) w = run_calls cs (run_call c (record w { now = w.now + later }))
