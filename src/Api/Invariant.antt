-- ===== src/Api/Invariant.antt =====
-- What the tables are, whatever requests come and in whatever order.
use green_communuty_backend.Prelude.{List}
use green_communuty_backend.Core.Session.Holds.{Holds-rollback}
use green_communuty_backend.Core.Keeps.{Keeps}
use green_communuty_backend.Core.World.{World}
use green_communuty_backend.Core.Site.{on_world}
use green_communuty_backend.Models.{PostLike, Tables}
use green_communuty_backend.Menus.Keeps.{MenusValid}
use green_communuty_backend.Comments.Keeps.{Threaded}
use green_communuty_backend.Users.Unique.{EmailsUnique, create-UniqueEmails}
use green_communuty_backend.Users.Service as UserService
use green_communuty_backend.Users.Frame as UserFrame
use green_communuty_backend.Posts.SyncJob.{post_like_sync, post_like_sync-Keeps}
use green_communuty_backend.Auth.Service as AuthService
use green_communuty_backend.Auth.Frame as AuthFrame
use green_communuty_backend.Api.Platform.{Platform, State}
use green_communuty_backend.Api.Auth.{Client, current_user}
use green_communuty_backend.Api.Application.{Request, serve}
use green_communuty_backend.Api.Sound.{IsSound, user_call, other_call}
use green_communuty_backend.Api.Composed.{AuthKeeps, Parts, serve-Keeps}
use green_communuty_backend.Api.RoutersKeep.{
  Sound, menus-Sound, comments-Sound, users-Sound, posts-Sound,
}

-- A request that is served, or a run of the job of the likes.
pub data Step (P : Platform) : State P → State P → Type 0 where
  served : (request : Request) (w : State P) → Step P w (serve P request w).1
  synced :
      (w : State P)
      → Step P w (on_world P.engine P.redis P.storage (post_like_sync P.engine P.redis) w).1

pub data Reachable (P : Platform) (start : State P) : State P → Type 0 where
  here : Reachable P start start
  after : (v w : State P) → Reachable P start v → Step P v w → Reachable P start w

module _ (P : Platform) where
  signup-Sound :
      (payload : UserService.UserCreate)
      → AuthKeeps P
          (Sound P)
          (AuthService.signup P.engine P.redis P.crypto P.settings P.lower payload)
  unfolding AuthService.signup
  signup-Sound payload w h =
      let create = UserService.create P.engine P.crypto payload in
      user_call P.engine create (create-UniqueEmails P.engine P.crypto payload)
        (λ Q stable. UserFrame.create-Keeps P.engine Q stable P.crypto payload) w.world.session h

  current_user-Sound : (c : Client) → Keeps (Sound P) (current_user P c)
  unfolding current_user
  current_user-Sound c w h =
      AuthFrame.get_current_user-Keeps P.engine P.redis P.crypto P.settings P.lower
        (IsSound P.engine) c.now c.bearer w.world h

  parts : Parts P (Sound P)
  parts = record {
    users = users-Sound P;
    posts = posts-Sound P;
    comments = comments-Sound P;
    menus = menus-Sound P;
    signup = signup-Sound;
    login = λ c email password ip w h.
        AuthFrame.login-Keeps P.engine P.redis P.crypto P.settings P.lower (IsSound P.engine) c.now
          c.ids email password ip w.world h;
    refresh = λ c token w h.
        AuthFrame.refresh_tokens-Keeps P.engine P.redis P.crypto P.settings P.lower
          (IsSound P.engine) c.now c.ids token w.world h;
    logout = λ c w h.
        AuthFrame.logout-Keeps P.engine P.redis P.crypto P.settings P.lower (IsSound P.engine) c.now
          c.refresh_cookie w.world h;
    logout_all = λ user w h.
        AuthFrame.logout_all-Keeps P.engine P.redis P.crypto P.settings P.lower (IsSound P.engine)
          user w.world h;
    current = current_user-Sound;
    close = λ w h. record {
      menus = Holds-rollback P.engine (MenusValid P.engine) w.world.session h.menus;
      comments = Holds-rollback P.engine (Threaded P.engine) w.world.session h.comments;
      users = Holds-rollback P.engine (EmailsUnique P.engine) w.world.session h.users;
    };
  }

  synced-Sound :
      Keeps (Sound P) (on_world P.engine P.redis P.storage (post_like_sync P.engine P.redis))
  synced-Sound w h =
      let keeps =
        λ (Q : Tables → Type 0)
            (stable : (t : Tables) (rows : List PostLike) → Q t → Q (record t { likes = rows })).
          post_like_sync-Keeps P.engine P.redis Q stable in
      other_call P.engine (λ (v : World P.engine P.redis). v.session)
        (post_like_sync P.engine P.redis) (keeps (MenusValid P.engine) (λ t rows k. k))
        (keeps (Threaded P.engine) (λ t rows k. k)) (keeps (EmailsUnique P.engine) (λ t rows k. k))
        w.world h

  step-Sound : (v w : State P) → Step P v w → Sound P v → Sound P w
  step-Sound v w (served request u) h = serve-Keeps P (Sound P) parts request u h
  step-Sound v w (synced u) h = synced-Sound u h

  -- Whatever requests of the API are served, and however often the job of the likes runs between
  -- them, in any order and with any outcome, if at the start the menus are valid, the comments
  -- threaded and the addresses of the users apart, in what a session sees and in what is
  -- committed, then so they are after every step.
  pub Reachable-Sound : (start w : State P) → Sound P start → Reachable P start w → Sound P w
  Reachable-Sound start w h here = h
  Reachable-Sound start w h (after v u path step) =
      step-Sound v u step (Reachable-Sound start v h path)
