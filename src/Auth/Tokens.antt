-- ===== src/Auth/Tokens.antt =====
-- What a signed token says when it is read back.
use green_communuty_backend.Prelude.{
  ℕ, ◌+◌, ◌*◌, String, ◌≡◌, refl, ◌∙◌, inl, inr, Bool-cases, Bool, true, false, ◌&&◌, none, some,
  leb, ltb, ◌<◌, Option, if◌then◌else◌, arith,
}
use green_communuty_backend.Core.Errors.{unauthorized}
use green_communuty_backend.Core.Action.{ok, err}
use green_communuty_backend.Core.Session.{Engine}
use green_communuty_backend.Core.Redis.{Redis}
use green_communuty_backend.Core.World.{World, tables}
use green_communuty_backend.Auth.Security.{
  Crypto, CryptoLaws, Claims, TokenPayload, read_claims, Settings, TokenType, access, refresh,
  create_token, create_access_token, create_refresh_token, decode_token,
}
use green_communuty_backend.Users.Repository.{get_user_by_id}
use green_communuty_backend.Auth.Service.{get_current_user, active_user}

abbrev pub same_type : TokenType → TokenType → Bool
same_type access access = true
same_type refresh refresh = true
same_type access refresh = false
same_type refresh access = false

module _ (C : Crypto) (L : CryptoLaws C) where
  -- A payload comes from claims that were read, and has their expiry.
  read_claims-expiry :
      (expected : TokenType) (o : Option Claims) (p : TokenPayload)
      → read_claims C expected o ≡ ok p
      → (c : Claims) × (o ≡ some c) × (p.expires_at ≡ c.exp)
  read_claims-expiry expected none p h = absurd (ground (arith, h))
  read_claims-expiry expected (some c) p h = (c, refl, ground (arith, h))

  -- A token that decodes has not expired.
  pub decode_token-live :
      (now : ℕ) (token : String) (expected : TokenType) (p : TokenPayload)
      → decode_token C now token expected ≡ ok p
      → now < p.expires_at
  unfolding decode_token
  decode_token-live now token expected p h =
      let (c, read, expiry) = read_claims-expiry expected (C.decode now token) p h in
      ground (arith, expiry, L.decode-live now token c read)

  -- A token that was created decodes, from the time it was created until it expires and where its
  -- own type is expected, to its user, type, id and expiry; before that time, once expired, or where
  -- the other type is expected, decoding raises unauthorized.
  pub decode_token-create_token :
      (now later user lifetime : ℕ) (jti : String) (type expected : TokenType)
      → decode_token C later (create_token C now jti user type lifetime) expected ≡ (
          if leb now later && ltb later (now + lifetime)
          then if same_type type expected
            then ok (record {
              user_id = user;
              token_type = expected;
              jti = jti;
              expires_at = now + lifetime;
            })
            else err unauthorized
          else err unauthorized)
  unfolding decode_token create_token
  decode_token-create_token now later user lifetime jti access access =
      rw (decode_token, create_token, L.decode-encode)
        (elim (Bool-cases (leb now later && ltb later (now + lifetime))) [
          | inl live ↦ rw (live, L.int_of-str_of) refl
          | inr expired ↦ rw expired refl
        ])
  decode_token-create_token now later user lifetime jti access refresh =
      rw (decode_token, create_token, L.decode-encode)
        (elim (Bool-cases (leb now later && ltb later (now + lifetime))) [
          | inl live ↦ rw live refl
          | inr expired ↦ rw expired refl
        ])
  decode_token-create_token now later user lifetime jti refresh access =
      rw (decode_token, create_token, L.decode-encode)
        (elim (Bool-cases (leb now later && ltb later (now + lifetime))) [
          | inl live ↦ rw live refl
          | inr expired ↦ rw expired refl
        ])
  decode_token-create_token now later user lifetime jti refresh refresh =
      rw (decode_token, create_token, L.decode-encode)
        (elim (Bool-cases (leb now later && ltb later (now + lifetime))) [
          | inl live ↦ rw (live, L.int_of-str_of) refl
          | inr expired ↦ rw expired refl
        ])

  pub decode_refresh :
      (cfg : Settings) (now later user : ℕ) (jti : String)
      → leb now later ≡ true
      → ltb later (now + cfg.refresh_token_expire_days * 86400) ≡ true
      → decode_token C later (create_refresh_token C cfg now jti user) refresh
        ≡ ok (record {
          user_id = user;
          token_type = refresh;
          jti = jti;
          expires_at = now + cfg.refresh_token_expire_days * 86400;
        })
  unfolding create_refresh_token
  decode_refresh cfg now later user jti issued early =
      decode_token-create_token now later user (cfg.refresh_token_expire_days * 86400) jti refresh
        refresh
      ∙ rw (issued, early) refl

  module _ (E : Engine) (R : Redis) (cfg : Settings) (lower : String → String) where
    -- With an access token that was created for a user id, `get_current_user` answers, from the time
    -- it was created until it expires, the user of that id if there is one and it is active, and raises unauthorized
    -- if not; before and after that it raises unauthorized.
    pub get_current_user-access :
        (now later user : ℕ) (jti : String) (w : World E R)
        → (get_current_user E R C cfg lower later
            (some (create_access_token C cfg now jti user))
            w).0
          ≡ (if leb now later && ltb later (now + cfg.access_token_expire_minutes * 60)
              then active_user (get_user_by_id user (tables E R w).users)
              else err unauthorized)
    unfolding get_current_user create_access_token
    get_current_user-access now later user jti w =
        elim (Bool-cases
          (leb now later && ltb later (now + cfg.access_token_expire_minutes * 60))) [
            | inl live ↦ ground (
              arith,
              decode_token-create_token now later user (cfg.access_token_expire_minutes * 60) jti
                  access access,
            )
            | inr expired ↦ ground (
              arith,
              decode_token-create_token now later user (cfg.access_token_expire_minutes * 60) jti
                  access access,
            )
          ]

    -- With a refresh token in place of an access token, `get_current_user` raises unauthorized and
    -- changes nothing.
    pub get_current_user-refresh :
        (now later user : ℕ) (jti : String) (w : World E R)
        → get_current_user E R C cfg lower later (some (create_refresh_token C cfg now jti user)) w
          ≡ (err unauthorized, w)
    unfolding get_current_user create_refresh_token
    get_current_user-refresh now later user jti w = ground (
      arith,
      decode_token-create_token now later user (cfg.refresh_token_expire_days * 86400) jti refresh
          access,
    )
