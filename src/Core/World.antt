-- ===== src/Core/World.antt =====
-- A request handler's database session and Redis connection.
use green_communuty_backend.Core.Action.{Action, Result}
use green_communuty_backend.Core.Session.{Engine}
use green_communuty_backend.Core.Redis.{Redis}
use green_communuty_backend.Models.{Tables}

pub record World (E : Engine) (R : Redis) : Type 0 where
  pub session : E.Session
  pub store : R.Store

module _ (E : Engine) (R : Redis) where
  -- A call on the session alone, and one on the store alone.
  abbrev pub on_session : {A : Type 0} → Action E.Session A → Action (World E R) A
  on_session m w = let (r, s) = m w.session in (r, record w { session = s })

  abbrev pub on_store : (R.Store → R.Store) → Action (World E R) (Unit {0})
  on_store f w = (Result.ok tt, record w { store = f w.store })

  abbrev pub tables : World E R → Tables
  tables w = E.live w.session
