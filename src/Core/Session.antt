-- ===== src/Core/Session.antt =====
-- A SQLAlchemy session over MySQL, which are not part of the repository: the services use it
-- through this interface. `live` is what the session's own queries see, `saved` is what is
-- committed; `accepts` says whether the database takes a change (its constraints may refuse it).
pub mod Holds
use green_communuty_backend.Prelude.{ℕ, ◌<◌, String, ◌≡◌, Bool, true, List, All, if◌then◌else◌}
use green_communuty_backend.Core.Errors.{Error}
use green_communuty_backend.Core.Action.{Action, Result, ok, err}
use green_communuty_backend.Models.{Tables}

pub record Engine : Type 1 where
  pub Session : Type 0
  pub live : Session → Tables
  pub saved : Session → Tables
  pub accepts : Tables → Session → Bool
  pub write : Tables → Session → Session
  pub commit : Session → Session
  pub rollback : Session → Session
  pub next_id : List ℕ → Session → ℕ
  -- `=` between texts, by the collation of the columns, and `LIKE '%…%'`
  pub text_equal : String → String → Bool
  pub text_contains : String → String → Bool
  pub text_equal_refl : (a : String) → text_equal a a ≡ true
  pub text_equal_symm : (a b : String) → text_equal a b ≡ text_equal b a
  pub live-write : (t : Tables) (s : Session) → live (write t s) ≡ t
  pub saved-write : (t : Tables) (s : Session) → saved (write t s) ≡ saved s
  pub live-commit : (s : Session) → live (commit s) ≡ live s
  pub saved-commit : (s : Session) → saved (commit s) ≡ live s
  pub live-rollback : (s : Session) → live (rollback s) ≡ saved s
  pub saved-rollback : (s : Session) → saved (rollback s) ≡ saved s
  pub next_id_fresh : (ids : List ℕ) (s : Session) → All (λ i. i < next_id ids s) ids

module _ (E : Engine) where
  open E use {Session, accepts, write, commit, rollback}

  -- `flush()`: the pending changes are sent, and refused by an IntegrityError or visible.
  unfoldable pub flush : Tables → Action Session (Unit {0})
  flush t s = if accepts t s then (ok tt, write t s) else (err Error.integrity_error, s)

  -- `get_db` of app/infrastructure/database/session.py: the session of one request. Whether the
  -- handler returns or raises, `close` drops what is not committed.
  unfoldable pub request : {A : Type 0} → Action Session A → Session → Result A × Session
  request handler s = let (r, s') = handler s in (r, rollback s')
