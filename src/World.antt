-- ===== src/World.antt =====
-- What the worker acts on: the database, and the servers that it posts callbacks to. Their replies
-- are a stream, one for each post; a reply is a status code or the exception that the post raises.
pub mod Hoare
use ai_generation_api.Prelude.{ℕ, String, ◌≡◌, refl, List}
use ai_generation_api.Exec.{Result, Exec}
use ai_generation_api.Session.{Database, Session, open_session, with_session}
use ai_generation_api.Value.{Fields}

pub record Post : Type 0 where
  pub url : String
  pub payload : Fields

pub record World : Type 0 where
  pub database : Database
  pub open database use *
  pub replies : ℕ → Result ℕ
  -- The posts made, the last one first.
  pub posted : List Post

-- `with SessionLocal() as db: …`
unfoldable pub in_session : {A : Type 0} → Exec Session A → Exec World A
unfolding with_session
in_session m w = let (r, d) = with_session m w.database in (r, record w { database = d })

-- What a block does to the world, from what it does to a fresh session.
pub in_session_lem :
    {A : Type 0} (m : Exec Session A) (w : World) (r : Result A) (s : Session)
    → m (open_session w.database) ≡ (r, s)
    → in_session m w ≡ (r, record w { database = s.database })
unfolding in_session
in_session_lem m w r s e = rw e refl
