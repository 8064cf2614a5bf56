-- ===== src/Identity/Kept.antt =====
-- What the methods of backend/internal/identity/repository.go leave of a revoked session.
use Prim.Native.String.{String}
use vps_billing_codex.Shared.{ℕ, ◌+◌, ◌≡◌, Option, some, arith, inl, inr, Option-cases}
use vps_billing_codex.Shared.Tx.{
  World, Error, Result, ok, err, refused, ◌>>=◌, outside, outside_row, or_fail, select,
  unique_violation, statement,
}
use vps_billing_codex.Shared.Invariant.{
  Keeps, Keeps->>=, Keeps-with_error, Keeps-or_fail, Keeps-select,
}
use vps_billing_codex.Security.{digest, new_token}
use vps_billing_codex.Identity.{
  Action, IdentityError, Service, Session, UserRow, Accounts, User, touch_session, revoke_session,
  create_user, insert_session, create_user_session, create_admin_session, active_user_session,
  active_admin_session, attempt, attempted, save_user, user_by_session, admin_by_session,
  touch_user_session, touch_admin_session, revoke_user_session, revoke_admin_session,
  new_user_session, new_admin_session, email_taken, unauthenticated, session_row,
}
use vps_billing_codex.Identity.Rows.{
  IsRevoked, insert_session-is_revoked, touch-is_revoked, revoke-is_revoked,
}

module _ (hash : String) where
  abbrev pub Stays : {A : Type 0} → Action A → Type 0
  Stays = Keeps IdentityError (IsRevoked hash)

  pub then-Stays :
      {A B : Type 0} (m : Action A) (f : A → Action B)
      → Stays m
      → ((a : A) → Stays (f a))
      → Stays (m >>= f)
  then-Stays = Keeps->>= IdentityError (IsRevoked hash)

  pub outside-Stays :
      {A : Type 0} (f : Accounts → A × Accounts)
      → ((db : Accounts) → IsRevoked hash db → IsRevoked hash (f db).1)
      → Stays (outside f)
  outside-Stays f keep =
      then-Stays statement _ (λ w h k. (h, k)) (λ _ w h k. (keep w.store h, keep w.store h))

  outside_row-Stays :
      {A : Type 0} (f : Accounts → Option (A × Accounts)) (e : Error IdentityError)
      → ((db : Accounts) (p : A × Accounts)
          → IsRevoked hash db
          → f db ≡ some p
          → IsRevoked hash p.1)
      → Stays (outside_row f e)
  outside_row-Stays f e keep =
      then-Stays statement _ (λ w h k. (h, k))
        (λ _ w h k. elim (Option-cases (f w.store)) [
          | inl missing ↦ rw missing (h, k)
          | inr (p, met) ↦ rw met (keep w.store p h met, keep w.store p h met)
        ])

  attempted-Stays :
      {A : Type 0} (p : Result IdentityError A × World Accounts)
      → IsRevoked hash p.1.store × IsRevoked hash p.1.saved
      → IsRevoked hash (attempted p).1.store × IsRevoked hash (attempted p).1.saved
  attempted-Stays (ok a, w) h = h
  attempted-Stays (err e, w) h = h

  pub attempt-Stays : {A : Type 0} (m : Action A) → Stays m → Stays (attempt m)
  attempt-Stays m keep w h k = attempted-Stays (m w) (keep w h k)

  pub or_fail-Stays : {A : Type 0} (o : Option A) (e : Error IdentityError) → Stays (or_fail o e)
  or_fail-Stays = Keeps-or_fail IdentityError (IsRevoked hash)

  select-Stays : {A : Type 0} (f : Accounts → A) → Stays (select f)
  select-Stays = Keeps-select IdentityError (IsRevoked hash)

  -- A look-up of one row
  pub find-Stays :
      {A : Type 0} (f : Accounts → Option A) (e : Error IdentityError)
      → Stays (select f >>= λ found. or_fail found e)
  find-Stays f e = then-Stays (select f) _ (select-Stays f) (λ found. or_fail-Stays found e)

  create_user_session-kept :
      (row : Session) (db : Accounts) (p : Session × Accounts)
      → IsRevoked hash db
      → create_user_session row db ≡ some p
      → IsRevoked hash p.1
  unfolding create_user_session
  create_user_session-kept row db p h made =
      elim (Option-cases (insert_session row db.user_sessions)) [
        | inl refused_ ↦ absurd (ground (arith, made, refused_))
        | inr (t, inserted) ↦
            let kept = insert_session-is_revoked hash row db.user_sessions t h inserted in
            ground (arith, made, inserted, kept)
      ]

  create_admin_session-kept :
      (row : Session) (db : Accounts) (p : Session × Accounts)
      → IsRevoked hash db
      → create_admin_session row db ≡ some p
      → IsRevoked hash p.1
  unfolding create_admin_session
  create_admin_session-kept row db p h made = ground (arith, made, h)

  create_user-kept :
      (row : UserRow) (db : Accounts) (p : UserRow × Accounts)
      → IsRevoked hash db
      → create_user row db ≡ some p
      → IsRevoked hash p.1
  unfolding create_user
  create_user-kept row db p h made = ground (arith, made, h)

  -- The methods of the repository
  pub user_by_session-Stays : (digest_ : String) → Stays (user_by_session digest_)
  unfolding user_by_session
  user_by_session-Stays digest_ w h k =
      find-Stays (active_user_session digest_ w.now) (refused unauthenticated) w h k

  pub admin_by_session-Stays : (digest_ : String) → Stays (admin_by_session digest_)
  unfolding admin_by_session
  admin_by_session-Stays digest_ w h k =
      then-Stays (select (active_admin_session digest_ w.now)) _
        (select-Stays (active_admin_session digest_ w.now))
        (λ found.
          then-Stays (or_fail found (refused unauthenticated)) _
            (or_fail-Stays found (refused unauthenticated))
            (λ p.
              then-Stays (select (λ (db : Accounts). db.permissions p.1.id)) _
                (select-Stays (λ (db : Accounts). db.permissions p.1.id))
                (λ permissions w h k. (h, k))))
        w h k

  pub touch_user_session-Stays : (id : ℕ) → Stays (touch_user_session id)
  unfolding touch_user_session
  touch_user_session-Stays id w h k =
      outside-Stays
        (λ db. (tt, record db { user_sessions = touch_session id w.now db.user_sessions }))
        (λ db. touch-is_revoked hash id w.now db.user_sessions) w h k

  pub touch_admin_session-Stays : (id : ℕ) → Stays (touch_admin_session id)
  unfolding touch_admin_session
  touch_admin_session-Stays id w h k =
      outside-Stays
        (λ db. (tt, record db { admin_sessions = touch_session id w.now db.admin_sessions }))
        (λ db h. h) w h k

  pub revoke_user_session-Stays : (other : String) → Stays (revoke_user_session other)
  unfolding revoke_user_session
  revoke_user_session-Stays other w h k =
      outside-Stays
        (λ db. (tt, record db { user_sessions = revoke_session other w.now db.user_sessions }))
        (λ db. revoke-is_revoked hash other w.now db.user_sessions) w h k

  pub revoke_admin_session-Stays : (other : String) → Stays (revoke_admin_session other)
  unfolding revoke_admin_session
  revoke_admin_session-Stays other w h k =
      outside-Stays
        (λ db. (tt, record db { admin_sessions = revoke_session other w.now db.admin_sessions }))
        (λ db h. h) w h k

  pub save_user-Stays : (row : UserRow) → Stays (save_user row)
  unfolding save_user
  save_user-Stays row =
      Keeps-with_error (IsRevoked hash) email_taken (outside_row (create_user row) unique_violation)
        (outside_row-Stays (create_user row) unique_violation (create_user-kept row))

  pub new_user_session-Stays : (s : Service) (u : User) → Stays (new_user_session s u)
  unfolding new_user_session
  new_user_session-Stays s u w h k =
      then-Stays (or_fail (new_token s.crypto w.next_id) (refused IdentityError.no_random_bytes)) _
        (or_fail-Stays (new_token s.crypto w.next_id) (refused IdentityError.no_random_bytes))
        (λ token w h k.
          let row =
            session_row s w.next_id u.id (digest s.crypto s.user_session_secret token) w.now in
          then-Stays (outside_row (create_user_session row) unique_violation) _
            (outside_row-Stays (create_user_session row) unique_violation
              (create_user_session-kept row))
            (λ made w h k. (h, k)) (record w { next_id = w.next_id + 1 }) h k)
        (record w { next_id = w.next_id + 1 }) h k

  pub new_admin_session-Stays : (s : Service) (id : ℕ) → Stays (new_admin_session s id)
  unfolding new_admin_session
  new_admin_session-Stays s id w h k =
      then-Stays (or_fail (new_token s.crypto w.next_id) (refused IdentityError.no_random_bytes)) _
        (or_fail-Stays (new_token s.crypto w.next_id) (refused IdentityError.no_random_bytes))
        (λ token w h k.
          let row =
            session_row s w.next_id id (digest s.crypto s.admin_session_secret token) w.now in
          then-Stays (outside_row (create_admin_session row) unique_violation) _
            (outside_row-Stays (create_admin_session row) unique_violation
              (create_admin_session-kept row))
            (λ made.
              then-Stays (admin_by_session (digest s.crypto s.admin_session_secret token)) _
                (admin_by_session-Stays (digest s.crypto s.admin_session_secret token))
                (λ found w h k. (h, k)))
            (record w { next_id = w.next_id + 1 }) h k)
        (record w { next_id = w.next_id + 1 }) h k
