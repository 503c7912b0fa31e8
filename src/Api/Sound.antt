-- ===== src/Api/Sound.antt =====
-- What the tables are to be, and how a call that writes one table keeps it.
use green_communuty_backend.Prelude.{List}
use green_communuty_backend.Core.Action.{Action}
use green_communuty_backend.Core.Session.{Engine}
use green_communuty_backend.Core.Session.Holds.{Holds}
use green_communuty_backend.Core.Keeps.{Keeps}
use green_communuty_backend.Models.{User, Menu, Comment, Tables}
use green_communuty_backend.Menus.Keeps.{MenusValid}
use green_communuty_backend.Comments.Keeps.{Threaded}
use green_communuty_backend.Users.Unique.{EmailsUnique}

-- The menus are valid, the comments threaded and the addresses of the users apart, in what a
-- session sees and in what is committed.
pub record IsSound (E : Engine) (s : E.Session) : Type 0 where
  pub menus : Holds E (MenusValid E) s
  pub comments : Holds E (Threaded E) s
  pub users : Holds E (EmailsUnique E) s

module _ (E : Engine) where
  pub menu_call :
      {A : Type 0} (m : Action E.Session A)
      → Keeps (Holds E (MenusValid E)) m
      → ((P : Tables → Type 0)
          → ((t : Tables) (rows : List Menu) → P t → P (record t { menus = rows }))
          → Keeps (Holds E P) m)
      → Keeps (IsSound E) m
  menu_call m own others s h = record {
    menus = own s h.menus;
    comments = others (Threaded E) (λ t rows k. k) s h.comments;
    users = others (EmailsUnique E) (λ t rows k. k) s h.users;
  }

  pub comment_call :
      {A : Type 0} (m : Action E.Session A)
      → Keeps (Holds E (Threaded E)) m
      → ((P : Tables → Type 0)
          → ((t : Tables) (rows : List Comment) → P t → P (record t { comments = rows }))
          → Keeps (Holds E P) m)
      → Keeps (IsSound E) m
  comment_call m own others s h = record {
    menus = others (MenusValid E) (λ t rows k. k) s h.menus;
    comments = own s h.comments;
    users = others (EmailsUnique E) (λ t rows k. k) s h.users;
  }

  pub user_call :
      {A : Type 0} (m : Action E.Session A)
      → Keeps (Holds E (EmailsUnique E)) m
      → ((P : Tables → Type 0)
          → ((t : Tables) (rows : List User) → P t → P (record t { users = rows }))
          → Keeps (Holds E P) m)
      → Keeps (IsSound E) m
  user_call m own others s h = record {
    menus = others (MenusValid E) (λ t rows k. k) s h.menus;
    comments = others (Threaded E) (λ t rows k. k) s h.comments;
    users = own s h.users;
  }

  -- A call that keeps every property of the tables that it has a proof of stability for.
  pub other_call :
      {S A : Type 0} (session : S → E.Session) (m : Action S A)
      → Keeps (λ w. Holds E (MenusValid E) (session w)) m
      → Keeps (λ w. Holds E (Threaded E) (session w)) m
      → Keeps (λ w. Holds E (EmailsUnique E) (session w)) m
      → Keeps (λ w. IsSound E (session w)) m
  other_call session m a b c w h = record {
    menus = a w h.menus;
    comments = b w h.comments;
    users = c w h.users;
  }
