-- ===== src/Session.antt =====
-- A SQLAlchemy session over the database: what is committed, and what the open transaction sees.
-- Ids drawn by `uuid_str` come from a stream, and `utcnow` is the session's clock.
use ai_generation_api.Prelude.{ℕ, suc, String}
use ai_generation_api.Models.{Tables}
use ai_generation_api.Exec.{Exec}

pub record Database : Type 0 where
  pub stored : Tables
  pub now : ℕ
  pub uuid : ℕ → String
  pub drawn : ℕ

pub record Session : Type 0 where
  pub database : Database
  pub open database use *
  pub current : Tables

abbrev pub put_stored : Tables → Database → Database
put_stored t d = record d { stored = t }

-- `db.commit()`
unfoldable pub commit : Session → Session
commit s = record s { database = put_stored s.current s.database }

-- `db.rollback()`
unfoldable pub rollback : Session → Session
rollback s = record s { current = s.stored }

-- A write to the open transaction.
unfoldable pub write : (Tables → Tables) → Session → Session
write f s = record s { current = f s.current }

-- app/models/base.py `uuid_str`: the id of the next row that is created.
abbrev pub next_id : Session → String
next_id s = s.uuid s.drawn

abbrev pub draw : Session → Session
draw s = record s { database = record s.database { drawn = suc s.drawn } }

abbrev pub open_session : Database → Session
open_session d = record { database = d; current = d.stored }

-- `with SessionLocal() as db: …`; closing the session drops what it has not committed.
unfoldable pub with_session : {A : Type 0} → Exec Session A → Exec Database A
with_session m d = let (r, s) = m (open_session d) in (r, s.database)
