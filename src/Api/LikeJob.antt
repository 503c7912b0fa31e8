-- ===== src/Api/LikeJob.antt =====
-- The job of the likes after any requests.
use green_communuty_backend.Prelude.{ℕ, ◌≡◌, true}
use green_communuty_backend.Core.Action.{ok}
use green_communuty_backend.Core.Redis.{RedisTexts, RedisApart}
use green_communuty_backend.Core.Keeps.{Keeps}
use green_communuty_backend.Users.Service as UserService
use green_communuty_backend.Auth.Service as AuthService
use green_communuty_backend.Auth.LikeValues.{
  login-Liked, refresh_tokens-Liked, logout-Liked, logout_all-Liked, get_current_user-Liked,
}
use green_communuty_backend.Posts.Likes.{written}
use green_communuty_backend.Posts.LikeValues.{post_like_sync-Liked}
use green_communuty_backend.Posts.SyncJob.{post_like_sync, Delivered, post_like_sync-delivers}
use green_communuty_backend.Api.Platform.{Platform, State}
use green_communuty_backend.Api.Auth.{Client, current_user}
use green_communuty_backend.Api.Composed.{AuthKeeps, Parts, serve-Keeps}
use green_communuty_backend.Api.LikesKeep.{
  Likes, menus-Likes, comments-Likes, users-Likes, posts-Likes,
}
use green_communuty_backend.Api.Invariant.{Reachable, served, synced, here, after}

module _ (P : Platform) (L : RedisTexts P.redis) (A : RedisApart P.redis) where
  signup-Likes :
      (payload : UserService.UserCreate)
      → AuthKeeps P
          (Likes P)
          (AuthService.signup P.engine P.redis P.crypto P.settings P.lower payload)
  unfolding AuthService.signup
  signup-Likes payload w h = h

  current_user-Likes : (c : Client) → Keeps (Likes P) (current_user P c)
  unfolding current_user
  current_user-Likes c w h =
      get_current_user-Liked P.redis L A P.engine P.crypto P.settings P.lower c.now c.bearer w.world
        h

  parts : Parts P (Likes P)
  parts = record {
    users = users-Likes P;
    posts = posts-Likes P L;
    comments = comments-Likes P;
    menus = menus-Likes P;
    signup = signup-Likes;
    login = λ c email password ip w h.
        login-Liked P.redis L A P.engine P.crypto P.settings P.lower c.now c.ids email password ip
          w.world h;
    refresh = λ c token w h.
        refresh_tokens-Liked P.redis L A P.engine P.crypto P.settings P.lower c.now c.ids token
          w.world h;
    logout = λ c w h.
        logout-Liked P.redis L A P.engine P.crypto P.settings P.lower c.now c.refresh_cookie w.world
          h;
    logout_all = λ user w h.
        logout_all-Liked P.redis L A P.engine P.crypto P.settings P.lower user w.world h;
    current = current_user-Likes;
    close = λ w h. h;
  }

  Reachable-Likes : (start w : State P) → Likes P start → Reachable P start w → Likes P w
  Reachable-Likes start w h here = h
  Reachable-Likes start w h (after v u path (served request x)) =
      serve-Keeps P (Likes P) parts request v (Reachable-Likes start v h path)
  Reachable-Likes start w h (after v u path (synced x)) =
      post_like_sync-Liked P.redis L P.engine v.world (Reachable-Likes start v h path)

  -- Whatever requests were served and however often the job of the likes ran, in any order and
  -- with any outcome, if at the start Redis held for every post and user one of the values that a
  -- like or its cancellation writes, or none, and the database takes the job's change now, then a
  -- run of `post_like_sync` returns, and for every post and user the committed likes say what
  -- `get_like` said before, nothing is left in Redis, and `get_like` still says the same.
  pub Reachable-delivers :
      (start w : State P)
      → Likes P start
      → Reachable P start w
      → P.engine.accepts (written P.engine P.redis L w.world) w.world.session ≡ true
      → (p u : ℕ)
      → ((post_like_sync P.engine P.redis w.world).0 ≡ ok tt)
        × Delivered P.engine P.redis L w.world p u (post_like_sync P.engine P.redis w.world).1
  Reachable-delivers start w h path taken p u =
      post_like_sync-delivers P.engine P.redis L w.world p u taken
        (Reachable-Likes start w h path p u)
