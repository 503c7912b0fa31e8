-- ===== src/Core/Site.antt =====
-- The state of a request that may use the object storage too.
use green_communuty_backend.Core.Action.{Action}
use green_communuty_backend.Core.Session.{Engine}
use green_communuty_backend.Core.Redis.{Redis}
use green_communuty_backend.Core.Storage.{Storage}
use green_communuty_backend.Core.World.{World}

pub record Site (E : Engine) (R : Redis) (S : Storage) : Type 0 where
  pub world : World E R
  pub bucket : S.Bucket

module _ (E : Engine) (R : Redis) (S : Storage) where
  -- A call on the world alone, on its session alone, and one on the storage alone.
  abbrev pub on_world : {A : Type 0} → Action (World E R) A → Action (Site E R S) A
  on_world m w = let (r, v) = m w.world in (r, record w { world = v })

  abbrev pub in_session : {A : Type 0} → Action E.Session A → Action (Site E R S) A
  in_session m w =
      let (r, s) = m w.world.session in (r, record w { world = record (w.world) { session = s } })

  abbrev pub on_storage : {A : Type 0} → Action S.Bucket A → Action (Site E R S) A
  on_storage m w = let (r, b) = m w.bucket in (r, record w { bucket = b })
