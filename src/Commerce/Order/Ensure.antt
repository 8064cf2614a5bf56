-- ===== src/Commerce/Order/Ensure.antt =====
-- Wallets: EnsureWallet of backend/internal/commerce/repository.go.
use Prim.Native.String.{String, len}
use text.Mathlib.TextEquality.{eq_iff}
use vps_billing_codex.Shared.{
  ℕ, ◌+◌, ◌≡◌, none, some, List, [], ◌∷◌, ◌++◌, arith, ==_refl, inl, inr, Option-cases, refl,
}
use vps_billing_codex.Shared.Tx.{World, IsUp}
use vps_billing_codex.Store.{Database, Wallet}
use vps_billing_codex.Commerce.Base.{Library}
use vps_billing_codex.Commerce.Order.{find_wallet, new_wallet, ensure_wallet, ensure_wallet_row}

find_wallet-append :
    (t : List Wallet) (x : Wallet)
    → find_wallet x.user_id x.currency t ≡ none
    → find_wallet x.user_id x.currency (t ++ x ∷ []) ≡ some x
find_wallet-append [] x missing =
    ground (arith, ==_refl x.user_id, (eq_iff x.currency x.currency).1 refl)
find_wallet-append (y ∷ t) x missing = ground (arith, find_wallet-append t x)

ensure_wallet_row_again :
    (id later user : ℕ) (currency : String) (db : Database)
    → let (x, db') = ensure_wallet_row id user currency db in
      ensure_wallet_row later user currency db' ≡ (x, db')
unfolding ensure_wallet_row
ensure_wallet_row_again id later user currency db =
    elim (Option-cases (find_wallet user currency db.wallets)) [
      | inl missing ↦
          ground
            (arith, missing, find_wallet-append db.wallets (new_wallet id user currency) missing)
      | inr (x, found) ↦ ground (arith, found)
    ]

-- A user has one wallet in a currency: while the database answers, EnsureWallet with a currency of
-- three bytes returns the same wallet when it is called again, and then commits nothing.
pub ensure_wallet_twice :
    (lib : Library) (user : ℕ) (text : String) (w : World Database)
    → IsUp w
    → len (lib.to_upper text) ≡ 3
    → let first = ensure_wallet lib user text w in
      let second = ensure_wallet lib user text first.1 in
      (second.0 ≡ first.0) × (second.1.saved ≡ first.1.saved)
unfolding ensure_wallet
ensure_wallet_twice lib user text w up three =
    let again =
      ensure_wallet_row_again w.next_id (w.next_id + 1) user (lib.to_upper text) w.store in
    (
      ground (arith, up w.calls, up (w.calls + 1), again, three),
      ground (arith, up w.calls, up (w.calls + 1), again, three),
    )
