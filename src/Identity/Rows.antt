-- ===== src/Identity/Rows.antt =====
-- What the statements of backend/internal/store/sqlc/identity.sql.go leave of a revoked session.
use Prim.Native.String.{String}
use text.Mathlib.Text.{◌==◌ as str_eq}
use vps_billing_codex.Shared.{
  ℕ, ◌≡◌, ◌∙◌, Bool, true, false, none, some, List, [], ◌∷◌, ◌++◌, arith, inl, inr, refl,
  Bool-cases, Option-cases, is_some, ◌==◌,
}
use vps_billing_codex.Identity.{
  Session, Accounts, find_session, touch_session, revoke_session, touched, revoked, insert_session,
}

abbrev pub is_revoked : String → List Session → Bool
is_revoked hash t = elim (find_session hash t) [ none ↦ false | some s ↦ is_some s.revoked_at ]

abbrev pub IsRevoked : String → Accounts → Type 0
IsRevoked hash db = is_revoked hash db.user_sessions ≡ true

pub append-is_revoked :
    (hash : String) (row : Session) (t : List Session)
    → is_revoked hash t ≡ true
    → is_revoked hash (t ++ row ∷ []) ≡ true
unfolding find_session
append-is_revoked hash row [] h = absurd (ground (arith, h))
append-is_revoked hash row (s ∷ ss) h = elim (Bool-cases (str_eq s.token_hash hash)) [
  | inl here ↦ ground (arith, here, h)
  | inr later ↦ ground (arith, later, h, append-is_revoked hash row ss)
]

touched_row-is_some :
    (now : ℕ) (s : Session) → is_some (touched now s).revoked_at ≡ is_some s.revoked_at
touched_row-is_some now s = elim (Option-cases s.revoked_at) [
  | inl open_ ↦ ground (arith, open_)
  | inr (at_, closed) ↦ ground (arith, closed)
]

touched_row-token_hash : (now : ℕ) (s : Session) → (touched now s).token_hash ≡ s.token_hash
touched_row-token_hash now s = elim (Option-cases s.revoked_at) [
  | inl open_ ↦ ground (arith, open_)
  | inr (at_, closed) ↦ ground (arith, closed)
]

revoked_row-token_hash : (now : ℕ) (s : Session) → (revoked now s).token_hash ≡ s.token_hash
revoked_row-token_hash now s = elim (Option-cases s.revoked_at) [
  | inl open_ ↦ ground (arith, open_)
  | inr (at_, closed) ↦ ground (arith, closed)
]

revoked_row-is_some : (now : ℕ) (s : Session) → is_some (revoked now s).revoked_at ≡ true
revoked_row-is_some now s = elim (Option-cases s.revoked_at) [
  | inl open_ ↦ ground (arith, open_)
  | inr (at_, closed) ↦ ground (arith, closed)
]

-- A row whose hash is kept and that is not opened again.
cons-is_revoked :
    (hash : String) (s s' : Session) (t t' : List Session)
    → s'.token_hash ≡ s.token_hash
    → (is_some s.revoked_at ≡ true → is_some s'.revoked_at ≡ true)
    → (is_revoked hash t ≡ true → is_revoked hash t' ≡ true)
    → is_revoked hash (s ∷ t) ≡ true
    → is_revoked hash (s' ∷ t') ≡ true
unfolding find_session
cons-is_revoked hash s s' t t' same closed rest h = elim (Bool-cases (str_eq s.token_hash hash)) [
  | inl here ↦ let c = closed (ground (arith, here, h)) in ground (arith, here, same, c)
  | inr later ↦ let r = rest (ground (arith, later, h)) in ground (arith, later, same, r)
]

pub touch-is_revoked :
    (hash : String) (id now : ℕ) (t : List Session)
    → is_revoked hash t ≡ true
    → is_revoked hash (touch_session id now t) ≡ true
unfolding touch_session
touch-is_revoked hash id now [] h = h
touch-is_revoked hash id now (s ∷ ss) h = elim (Bool-cases (s.id == id)) [
  | inl same ↦ rw same (
      cons-is_revoked hash s (touched now s) ss (touch_session id now ss)
        (touched_row-token_hash now s) (λ c. touched_row-is_some now s ∙ c)
        (touch-is_revoked hash id now ss) h)
  | inr other ↦ rw other (
      cons-is_revoked hash s s ss (touch_session id now ss) refl (λ c. c)
        (touch-is_revoked hash id now ss) h)
]

pub revoke-is_revoked :
    (hash other : String) (now : ℕ) (t : List Session)
    → is_revoked hash t ≡ true
    → is_revoked hash (revoke_session other now t) ≡ true
unfolding revoke_session
revoke-is_revoked hash other now [] h = h
revoke-is_revoked hash other now (s ∷ ss) h = elim (Bool-cases (str_eq s.token_hash other)) [
  | inl same ↦ rw same (
      cons-is_revoked hash s (revoked now s) ss (revoke_session other now ss)
        (revoked_row-token_hash now s) (λ c. revoked_row-is_some now s)
        (revoke-is_revoked hash other now ss) h)
  | inr different ↦ rw different (
      cons-is_revoked hash s s ss (revoke_session other now ss) refl (λ c. c)
        (revoke-is_revoked hash other now ss) h)
]

-- What the logout of a session leaves.
pub revoke_session-revokes :
    (hash : String) (now : ℕ) (t : List Session) {s : Session}
    → find_session hash t ≡ some s
    → is_revoked hash (revoke_session hash now t) ≡ true
unfolding find_session revoke_session
revoke_session-revokes hash now [] found = absurd (ground (arith, found))
revoke_session-revokes hash now (s ∷ ss) {s = x} found =
    elim (Bool-cases (str_eq s.token_hash hash)) [
      | inl here ↦ ground (arith, here, revoked_row-token_hash now s, revoked_row-is_some now s)
      | inr later ↦
          let rest = revoke_session-revokes hash now ss {s = x} (ground (arith, later, found)) in
          ground (arith, later, rest)
    ]

pub insert_session-is_revoked :
    (hash : String) (row : Session) (t t' : List Session)
    → is_revoked hash t ≡ true
    → insert_session row t ≡ some t'
    → is_revoked hash t' ≡ true
unfolding insert_session
insert_session-is_revoked hash row t t' h made =
    let kept = append-is_revoked hash row t h in ground (arith, made, kept)
