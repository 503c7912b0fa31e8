-- ===== src/Examples/Requests.antt =====
-- Requests to the platform at concrete inputs.
use green_communuty_backend.Prelude.{◌≡◌, refl, sym, ◌⊎◌, some, [], first}
use green_communuty_backend.Core.Errors.{unauthorized}
use green_communuty_backend.Core.Action.{ok, err}
use green_communuty_backend.Models.{User}
use green_communuty_backend.Users.Repository.{get_user_by_id, get_user_by_email}
use green_communuty_backend.Auth.Security.{
  access, create_access_token, create_refresh_token, verify_password, decode_token,
}
use green_communuty_backend.Auth.Tokens.{decode_token-create_token}
use green_communuty_backend.Posts.SyncJob.{post_like_sync, Delivered}
use green_communuty_backend.Api.Platform.{State}
use green_communuty_backend.Api.SignIn.{login-SignedIn}
use green_communuty_backend.Auth.RateLimit.{hit}
use green_communuty_backend.Auth.Service.{
  login, check_login_rate_limit, check_key, reset_login_rate_limit, issue_tokens,
}
use green_communuty_backend.Api.Auth.{
  LoginRequest, TokenResponse, AuthReply, CookieChange, auth_router, handle_login, token_response,
  set_refresh_cookie, client_ip, Client, AuthCall,
}
use green_communuty_backend.Api.Menus.{MenuCall}
use green_communuty_backend.Api.Posts.{PostCall}
use green_communuty_backend.Api.LikeJob.{Reachable-delivers}
use green_communuty_backend.Api.Application.{Call, Request, Response, api_router, serve}
use green_communuty_backend.Api.Access.{SignedIn, protected-guarded}
use green_communuty_backend.Api.Invariant.{here, after, served, Reachable-Sound}
use green_communuty_backend.Api.RoutersKeep.{Sound}
use green_communuty_backend.Examples.Database.{permissive}
use green_communuty_backend.Examples.Cache.{cache, cache-texts, cache-apart}
use green_communuty_backend.Examples.Signing.{signing, signing-laws}
use green_communuty_backend.Examples.Rows.{community, ann, nothing_cached}
use green_communuty_backend.Examples.Members.{carla, founded, founded-UniqueEmails}
use green_communuty_backend.Examples.Content.{opened-MenusValid}
use green_communuty_backend.Examples.Threads.{opened-Threaded}
use green_communuty_backend.Examples.Site.{platform, site, stranger, short_lived}

-- Nobody has signed up yet.
abbrev fresh : State platform
fresh = record { world = record { session = founded; store = nothing_cached }; bucket = [] }

fresh-Sound : Sound platform fresh
fresh-Sound = record {
  menus = record { live = opened-MenusValid.live; saved = opened-MenusValid.saved };
  comments = record { live = opened-Threaded.live; saved = opened-Threaded.saved };
  users = founded-UniqueEmails;
}

abbrev sign_up : Request
sign_up = Request.auth stranger (AuthCall.signup carla)

abbrev signed_up : State platform
signed_up = (serve platform sign_up fresh).1

abbrev again : State platform
again = (serve platform sign_up signed_up).1

Reachable-Sound_example : Sound platform again
Reachable-Sound_example = Reachable-Sound platform fresh again fresh-Sound (
    after signed_up again (after fresh signed_up here (served sign_up fresh))
      (served sign_up signed_up))

protected-guarded_example :
    ((u : User) × SignedIn platform stranger site u)
    ⊎ (api_router platform (Request.protected stranger "f" (Call.menus MenuCall.get_menu_tree)) site
        ≡ (err unauthorized, site))
protected-guarded_example =
    protected-guarded platform stranger "f" (Call.menus MenuCall.get_menu_tree) site

-- Ann's request, a few seconds after she got her token.
abbrev ann_client : Client
ann_client = record stranger {
  now = 20;
  bearer = some (create_access_token signing short_lived 10 "a" 1);
}

ann_decoded :
    decode_token signing 20 (create_access_token signing short_lived 10 "a" 1) access
    ≡ ok (record { user_id = 1; token_type = access; jti = "a"; expires_at = 70 })
unfolding create_access_token
ann_decoded = decode_token-create_token signing signing-laws 10 20 1 60 "a" access access

ann-SignedIn : SignedIn platform ann_client site ann
unfolding get_user_by_id first
ann-SignedIn = record {
  token = create_access_token signing short_lived 10 "a" 1;
  payload = record { user_id = 1; token_type = access; jti = "a"; expires_at = 70 };
  carried = refl;
  decoded = ann_decoded;
  known = refl;
  active = refl;
}

-- Ann likes a post, and then the job runs.
abbrev ann_likes : Request
ann_likes = Request.protected ann_client "f" (Call.posts (PostCall.like_post 1))

abbrev liked_site : State platform
liked_site = (serve platform ann_likes site).1

Reachable-delivers_example :
    ((post_like_sync permissive cache liked_site.world).0 ≡ ok tt)
    × Delivered permissive cache cache-texts liked_site.world 1 1
        (post_like_sync permissive cache liked_site.world).1
Reachable-delivers_example =
    Reachable-delivers platform cache-texts cache-apart site liked_site (λ p u. tt)
      (after site liked_site here (served ann_likes site)) refl 1 1

-- Ann signs in with her password.
abbrev ann_login : LoginRequest
ann_login = record { email = "ann@example.com"; password = "secret" }

abbrev ann_tokens : TokenResponse
ann_tokens = record {
  access_token = create_access_token signing short_lived 10 "a" 1;
  expires_in = 60;
}

abbrev ann_cookie : CookieChange
ann_cookie = CookieChange.set_to (create_refresh_token signing short_lived 10 "r" 1) 86400

ann_logs_in :
    (serve platform (Request.auth stranger (AuthCall.login ann_login)) site).0
    ≡ ok (Response.auth (AuthReply.tokens ann_tokens) ann_cookie)
unfolding serve api_router auth_router handle_login token_response set_refresh_cookie client_ip
    login check_login_rate_limit check_key hit reset_login_rate_limit issue_tokens get_user_by_email
    first verify_password
ann_logs_in = refl

only_ann :
    (u : User)
    → get_user_by_email permissive "ann@example.com" community.users ≡ some u
    → get_user_by_id u.user_id community.users ≡ some u
unfolding get_user_by_email get_user_by_id first
only_ann u e = let same : ann ≡ u = cc in rw (sym same) refl

login-SignedIn_example :
    (u : User) × (get_user_by_email permissive "ann@example.com" community.users ≡ some u)
    × SignedIn platform ann_client
        (serve platform (Request.auth stranger (AuthCall.login ann_login)) site).1
        u
login-SignedIn_example =
    login-SignedIn platform stranger ann_login site signing-laws ann_client ann_tokens ann_cookie
      ann_logs_in refl only_ann refl refl refl
