-- ===== src/Users/Signup.antt =====
-- What `create` leaves behind, on every way out.
use green_communuty_backend.Prelude.{
  String, ◌≡◌, ◌≢◌, refl, sym, ◌∙◌, true, false, inl, inr, Bool-cases, [], ◌∷◌, ◌++◌, map, arith,
}
use green_communuty_backend.Core.Errors.{Error, conflict, integrity_error, value_error}
use green_communuty_backend.Core.Action.{ok_err, ok_inj, Result, ok, err, Result-cases}
use green_communuty_backend.Core.Session.{Engine, flush}
use green_communuty_backend.Models.{User, Tables}
use green_communuty_backend.Auth.Security.{Crypto, hash_password}
use green_communuty_backend.Users.Repository.{exists_by_email, add}
use green_communuty_backend.Users.Service.{UserCreate, draft, insert, create}

module _ (E : Engine) (C : Crypto) (payload : UserCreate) (s : E.Session) where
  abbrev pub signup : Result User × E.Session
  signup = create E C payload s

  abbrev new : String → User
  new hash = draft E payload hash (E.next_id (map (λ u. u.user_id) (E.live s).users) s)

  abbrev stored : String → Tables
  stored hash = record (E.live s) { users = (E.live s).users ++ new hash ∷ [] }

  -- How `create` went.
  data Course : Type 0 where
    stopped :
        (e : Error)
        → signup ≡ (err e, s)
        → ((hash : String) → hash_password C payload.user_password ≡ ok hash → e ≡ conflict)
        → Course
    full :
        (e : Error)
        → signup ≡ (err e, E.rollback s)
        → (exists_by_email E payload.user_email (E.saved s).users ≡ true → e ≡ conflict)
        → e ≢ value_error
        → Course
    made :
        (hash : String)
        → hash_password C payload.user_password ≡ ok hash
        → exists_by_email E payload.user_email (E.live s).users ≡ false
        → signup ≡ (ok (new hash), E.commit (E.write (stored hash) s))
        → Course

  course : Course
  unfolding create insert add flush
  course = elim (Bool-cases (exists_by_email E payload.user_email (E.live s).users)) [
    | inl taken ↦ stopped conflict (rw taken refl) (λ hash h. refl)
    | inr free ↦ elim (Result-cases (hash_password C payload.user_password)) [
      | inr (e, long) ↦
          stopped e (rw (free, long) refl) (λ hash h. absurd (ok_err hash e (sym h ∙ long)))
      | inl (hash, hashed) ↦ elim (Bool-cases (E.accepts (stored hash) s)) [
        | inl room ↦ made hash hashed free (rw (free, hashed, room) refl)
        | inr no_room ↦ elim (Bool-cases (exists_by_email E payload.user_email (E.saved s).users)) [
          | inl now_taken ↦
              full conflict (rw (free, hashed, no_room, E.live-rollback, now_taken) refl)
                (λ h. refl) (λ h. cc)
          | inr still_free ↦
              full integrity_error (rw (free, hashed, no_room, E.live-rollback, still_free) refl)
                (λ h. ground arith) (λ h. cc)
        ]
      ]
    ]
  ]

  -- If `create` returns a user, then no user whom the session saw had that address, the user's
  -- hash is what `hash_password` makes of the password, the user has the address that was sent and
  -- is active, and the committed users are those that the session saw and this one after them.
  pub create-ok :
      (u : User)
      → signup.0 ≡ ok u
      → (hash_password C payload.user_password ≡ ok u.user_password_hash)
        × (u.user_email ≡ payload.user_email)
        × (u.user_is_active ≡ true)
        × (exists_by_email E payload.user_email (E.live s).users ≡ false)
        × ((E.saved signup.1).users ≡ (E.live s).users ++ u ∷ [])
  create-ok u done = elim course [
    | stopped e stop _ ↦ absurd (ok_err u e (sym done ∙ rw stop refl))
    | full e stop c _ ↦ absurd (ok_err u e (sym done ∙ rw stop refl))
    | made hash hashed free go ↦
        let same : new hash ≡ u = ok_inj (new hash) u (rw go at done) in
        rw (sym same) (hashed, refl, refl, free, rw (go, E.saved-commit, E.live-write) refl)
  ]

  -- If `create` raises, whatever the step and the error, a refused INSERT included, what is
  -- committed is what was committed before.
  pub create-error : (e : Error) → signup.0 ≡ err e → E.saved signup.1 ≡ E.saved s
  create-error e failed = elim course [
    | stopped x stop _ ↦ rw stop refl
    | full x stop c _ ↦ rw stop (E.saved-rollback s)
    | made hash hashed free go ↦ absurd (ok_err (new hash) e (sym (rw go refl) ∙ failed))
  ]

  pub create-no_value_error :
      (hash : String) → hash_password C payload.user_password ≡ ok hash → signup.0 ≢ err value_error
  create-no_value_error hash hashed raised = elim course [
    | stopped e stop why ↦
        let same : ◌≡◌ {A = Result User} (err e) (err value_error) = sym (rw stop refl) ∙ raised in
        cc (why hash hashed, same)
    | full e stop c other ↦
        let same : ◌≡◌ {A = Result User} (err e) (err value_error) = sym (rw stop refl) ∙ raised in
        absurd (other (cc (same)))
    | made h g free go ↦ absurd (ok_err (new h) value_error (sym (rw go refl) ∙ raised))
  ]
