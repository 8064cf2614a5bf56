-- ===== src/Outbox/Session.antt =====
-- A database session beside two Redis streams, as backend/internal/outbox/dispatcher.go holds them: what
-- a step of the session does to the database is rolled back with its transaction, what is sent is not.
use vps_billing_codex.Shared.{
  ℕ, ◌+◌, ◌≡◌, Bool, true, false, not, List, [], ◌∷◌, ◌++◌, if◌then◌else◌,
}
use vps_billing_codex.Shared.Tx.{World, M, Result, ok, err, Error, statement}
use vps_billing_codex.Store.{Database, OutboxEvent, EventType, Payload}

pub data Stream : Type 0 where
  domain_events operation_queue : Stream

pub record Message : Type 0 where
  pub event_id : ℕ
  pub event_type : EventType
  pub payload : Payload

abbrev pub message_of : OutboxEvent → Message
message_of e = record { event_id = e.id; event_type = e.event_type; payload = e.payload }

-- The entries of the two streams, and which XAdd Redis refuses.
pub record Redis : Type 0 where
  pub entries : Stream → List Message
  pub sends : ℕ
  pub refuses : ℕ → Bool

-- The error of the n-th event that is not sent.
pub data DispatchError : Type 0 where
  not_sent : ℕ → DispatchError

pub record Wire : Type 0 where
  pub world : World Database
  pub redis : Redis

abbrev pub Sender : Type 0 → Type 0
Sender A = Wire → Result DispatchError A × Wire

abbrev pub done : {A : Type 0} → A → Sender A
done a x = (ok a, x)

abbrev pub stop : {A : Type 0} → Error DispatchError → Sender A
stop e x = (err e, x)

abbrev pub proceed :
    {A B : Type 0} → (A → Sender B) → Result DispatchError A × Wire → Result DispatchError B × Wire
proceed f (ok a, x) = f a x
proceed f (err e, x) = (err e, x)

infixl 5 ◌>>=◌ ◌>>◌
abbrev pub ◌>>=◌ : {A B : Type 0} → Sender A → (A → Sender B) → Sender B
◌>>=◌ m f x = proceed f (m x)

abbrev pub ◌>>◌ : {B : Type 0} → Sender (Unit {0}) → Sender B → Sender B
m >> k = m >>= λ _. k

-- A step of the session
abbrev pub lift : {A : Type 0} → M Database DispatchError A → Sender A
lift m x = let (r, w) = m x.world in (r, record x { world = w })

abbrev pub same_stream : Stream → Stream → Bool
same_stream domain_events domain_events = true
same_stream operation_queue operation_queue = true
same_stream _ _ = false

abbrev pub append_to : Stream → Message → (Stream → List Message) → Stream → List Message
append_to s m entries t = if same_stream s t then entries t ++ m ∷ [] else entries t

-- XAdd; the answer says whether Redis took the entry.
abbrev pub xadd : Stream → OutboxEvent → Sender Bool
xadd s e x =
    let r = x.redis in
    let refused = r.refuses r.sends in
    (
      ok (not refused),
      record x {
        redis = record r {
          entries = if refused then r.entries else append_to s (message_of e) r.entries;
          sends = r.sends + 1;
        };
      },
    )

-- BeginTx, the body and the deferred Rollback.
abbrev pub in_transaction : {A : Type 0} → Sender A → Sender A
in_transaction body x =
    let (r, y) = (lift statement >> body) x in
    (r, record y { world = record (y.world) { store = y.world.saved } })

-- Redis refuses nothing from here on.
abbrev pub IsTaking : Redis → Type 0
IsTaking r = (n : ℕ) → r.refuses n ≡ false
