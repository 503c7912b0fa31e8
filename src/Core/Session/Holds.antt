-- ===== src/Core/Session/Holds.antt =====
-- A property of the tables that holds both of what a session sees and of what is committed, and
-- the calls that keep it.
use green_communuty_backend.Core.Action.{Action}
use green_communuty_backend.Core.Session.{Engine, request}
use green_communuty_backend.Models.{Tables}

pub record Holds (E : Engine) (P : Tables → Type 0) (s : E.Session) : Type 0 where
  pub live : P (E.live s)
  pub saved : P (E.saved s)

module _ (E : Engine) (P : Tables → Type 0) where
  pub Holds-write_commit : (t : Tables) (s : E.Session) → P t → Holds E P (E.commit (E.write t s))
  Holds-write_commit t s p = record {
    live = rw (E.live-commit, E.live-write) p;
    saved = rw (E.saved-commit, E.live-write) p;
  }

  pub Holds-write : (t : Tables) (s : E.Session) → P t → Holds E P s → Holds E P (E.write t s)
  Holds-write t s p h = record { live = rw E.live-write p; saved = rw E.saved-write h.saved }

  pub Holds-commit : (s : E.Session) → Holds E P s → Holds E P (E.commit s)
  Holds-commit s h = record { live = rw E.live-commit h.live; saved = rw E.saved-commit h.live }

  pub Holds-rollback : (s : E.Session) → Holds E P s → Holds E P (E.rollback s)
  Holds-rollback s h = record {
    live = rw E.live-rollback h.saved;
    saved = rw E.saved-rollback h.saved;
  }

  -- A handler that keeps the property keeps it through the whole request.
  pub request-Holds :
      {A : Type 0} (m : Action E.Session A) (s : E.Session)
      → Holds E P (m s).1
      → Holds E P (request E m s).1
  unfolding request
  request-Holds m s h = Holds-rollback (m s).1 h
