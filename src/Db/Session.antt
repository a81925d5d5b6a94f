-- ===== src/Db/Session.antt =====
-- infrastructure/db/uow.py: the unit of work over one session, and what a call reads from its
-- surroundings. A call may raise; what it wrote before stays in the session's transaction, and
-- reaches the database by `commit` alone.
use leaf_flow_chat.Prelude.{ℕ, ◌+◌, Bool, if◌then◌else◌}
use leaf_flow_chat.Domain.{Uuid, Timestamp}
use leaf_flow_chat.Errors.{Error, Result, ok, err}
use leaf_flow_chat.Db.Models.{Db}

pub record Session : Type 0 where
  pub committed : Db  -- what other transactions and later requests see
  pub working : Db  -- what this transaction sees
  pub outbox_seq : ℕ  -- the sequence behind outbox_messages.id
  pub server_now : Timestamp  -- the server's now(), fixed within a transaction
  pub locked : ℕ → Bool  -- outbox rows that other workers hold a lock on
  pub uuids : ℕ → Uuid  -- what the calls of uuid.uuid4() return, in their order
  pub drawn : ℕ
  pub clock : ℕ → Timestamp  -- what the calls of datetime.now() return, in their order
  pub ticks : ℕ

abbrev pub Action : Type 0 → Type 0
Action A = Session → Result A × Session

module _ {A : Type 0} where
  pub pure : A → Action A
  pure a s = (ok a, s)

  pub raise : Error → Action A
  raise e s = (err e, s)

  -- the value or the exception of a plain call
  pub from_result : Result A → Action A
  from_result r s = (r, s)

  -- a query, which reads the transaction's view of the database
  pub query : (Db → A) → Action A
  query f s = (ok (f s.working), s)

pub raise_if : Bool → Error → Action (Unit {0})
raise_if c e s = (if c then err e else ok tt, s)

-- a statement that writes
pub write : (Db → Db) → Action (Unit {0})
write f s = (ok tt, record s { working = f s.working })

pub uuid4 : Action Uuid
uuid4 s = (ok (s.uuids s.drawn), record s { drawn = s.drawn + 1 })

-- datetime.now(timezone.utc)
pub utc_now : Action Timestamp
utc_now s = (ok (s.clock s.ticks), record s { ticks = s.ticks + 1 })

pub server_time : Action Timestamp
server_time s = (ok s.server_now, s)

abbrev pub continue : {A B : Type 0} → Result A → (A → Action B) → Action B
continue (ok a) f s = f a s
continue (err e) f s = (err e, s)

infixl 5 ◌>>=◌ ◌>>◌
-- opening this opens all of the above
unfoldable pub ◌>>=◌ : {A B : Type 0} → Action A → (A → Action B) → Action B
unfolding pure raise from_result query raise_if write uuid4 utc_now server_time
◌>>=◌ m f s = let (r, s') = m s in continue r f s'

abbrev pub ◌>>◌ : {A B : Type 0} → Action A → Action B → Action B
m >> k = m >>= λ _. k

-- `SqlAlchemyUoW.commit`
unfoldable pub commit : Action (Unit {0})
commit s = (ok tt, record s { committed = s.working })

-- `SqlAlchemyUoW.rollback`; the end of `async with AsyncSessionLocal()` does the same to what was
-- not committed.
unfoldable pub rollback : Session → Session
rollback s = record s { working = s.committed }

-- A request: its action in a session of its own, which is closed at the end.
unfoldable pub in_session : {A : Type 0} → Action A → Action A
unfolding rollback
in_session m s = let (r, s') = m (rollback s) in (r, rollback s')
