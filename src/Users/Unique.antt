-- ===== src/Users/Unique.antt =====
-- The addresses of the users, over the operations of app/modules/users/user_service.py.
use green_communuty_backend.Prelude.{
  ℕ, ◌<◌, String, ◌≡◌, refl, sym, ◌∙◌, true, false, inl, inr, Option, none, some, Option-cases,
  Bool-cases, List, [], ◌∷◌, ◌++◌, map, All, first, count-ne-zero, first-none, find-append,
  find-change, ==→eq, update, ◌==◌, is_some, if◌then◌else◌, arith,
}
use green_communuty_backend.Core.Errors.{Error}
use green_communuty_backend.Core.Action.{Result-cases}
use green_communuty_backend.Core.Session.{Engine, flush}
use green_communuty_backend.Core.Session.Holds.{Holds, Holds-write_commit, Holds-rollback}
use green_communuty_backend.Models.{User, Tables}
use green_communuty_backend.Auth.Security.{Crypto, hash_password}
use green_communuty_backend.Users.Repository.{get_user_by_id, exists_by_email, add, flush_changes}
use green_communuty_backend.Users.Service.{
  UserCreate, UserUpdate, draft, set_nickname, set_inactive, insert, refused, is_integrity, create,
  deactivate,
}
use green_communuty_backend.Users.Service.{update as update_user}

pub record HasUniqueEmails (E : Engine) (users : List User) : Type 0 where
  pub unique :
      (a b : ℕ) (u v : User)
      → get_user_by_id a users ≡ some u
      → get_user_by_id b users ≡ some v
      → E.text_equal u.user_email v.user_email ≡ true
      → a ≡ b

none_counted : (o : Option User) → is_some o ≡ false → o ≡ none
none_counted o h = ground arith

nickname_keeps :
    (name : Option String) (v : User)
    → ((set_nickname name v).user_id ≡ v.user_id)
      × ((set_nickname name v).user_email ≡ v.user_email)
nickname_keeps none v = (refl, refl)
nickname_keeps (some n) v = (refl, refl)

module _ (E : Engine) where
  abbrev pub EmailsUnique : Tables → Type 0
  EmailsUnique t = HasUniqueEmails E t.users

  get_user_by_id-append :
      (id : ℕ) (new : User) (users : List User)
      → All (λ i. i < new.user_id) (map (λ u. u.user_id) users)
      → get_user_by_id id (users ++ new ∷ [])
        ≡ (if id == new.user_id then some new else get_user_by_id id users)
  unfolding get_user_by_id
  get_user_by_id-append id new users fresh =
      find-append (λ u. u.user_id) (λ u. true) id new users fresh refl

  -- An address that is not counted is no user's.
  email_free :
      (email : String) (a : ℕ) (u : User) (users : List User)
      → exists_by_email E email users ≡ false
      → get_user_by_id a users ≡ some u
      → E.text_equal u.user_email email ≡ false
  unfolding exists_by_email get_user_by_id
  email_free email a u users free found =
      first-none (λ v. E.text_equal v.user_email email) (λ v. v.user_id == a) users u
        (none_counted (first (λ v. E.text_equal v.user_email email) users)
          (sym (count-ne-zero (λ v. E.text_equal v.user_email email) users) ∙ free))
        found

  -- With a new user of a free address, the addresses stay apart.
  created-HasUniqueEmails :
      (new : User) (users : List User)
      → All (λ i. i < new.user_id) (map (λ u. u.user_id) users)
      → exists_by_email E new.user_email users ≡ false
      → HasUniqueEmails E users
      → HasUniqueEmails E (users ++ new ∷ [])
  created-HasUniqueEmails new users fresh free h = record {
    unique = λ a b u v fa fb same. ground (
      arith,
      get_user_by_id-append a new users fresh,
      get_user_by_id-append b new users fresh,
      email_free new.user_email a u users free,
      email_free new.user_email b v users free,
      E.text_equal_symm u.user_email v.user_email,
      h.unique a b u v,
      ==→eq a new.user_id,
      ==→eq b new.user_id,
    );
  }

  -- A change of one user that keeps ids and addresses keeps them apart.
  changed_email :
      (id j : ℕ) (f : User → User) (users : List User) (u : User)
      → ((v : User) → ((f v).user_id ≡ v.user_id) × ((f v).user_email ≡ v.user_email))
      → get_user_by_id id (update (λ v. v.user_id == j) f users) ≡ some u
      → (v : User) × (get_user_by_id id users ≡ some v) × (u.user_email ≡ v.user_email)
  unfolding get_user_by_id
  changed_email id j f users u keeps found =
      let changed =
        find-change (λ v. v.user_id) (λ v. true) id j f users (λ v. (keeps v).0) (λ v. refl) in
      elim (Option-cases (first (λ v. v.user_id == id) users)) [
        | inl absent ↦ ground arith
        | inr (v, e) ↦ (v, e, ground (arith, keeps v))
      ]

  changed-HasUniqueEmails :
      (j : ℕ) (f : User → User) (users : List User)
      → ((v : User) → ((f v).user_id ≡ v.user_id) × ((f v).user_email ≡ v.user_email))
      → HasUniqueEmails E users
      → HasUniqueEmails E (update (λ v. v.user_id == j) f users)
  changed-HasUniqueEmails j f users keeps h = record {
    unique = λ a b u v fa fb same.
        let (u0, ea, su) = changed_email a j f users u keeps fa in
        let (v0, eb, sv) = changed_email b j f users v keeps fb in
        h.unique a b u0 v0 ea eb (rw (sym su, sym sv) same);
  }

  abbrev stored : User → E.Session → Tables
  stored new s = record (E.live s) { users = (E.live s).users ++ new ∷ [] }

  abbrev new_id : E.Session → ℕ
  new_id s = E.next_id (map (λ u. u.user_id) (E.live s).users) s

  refused-UniqueEmails :
      (email : String) (e : Error) (s : E.Session)
      → Holds E EmailsUnique s
      → Holds E EmailsUnique (refused E email e s).1
  refused-UniqueEmails email e s h = elim (Bool-cases (is_integrity e)) [
    | inr other ↦ rw other h
    | inl integrity ↦ elim (Bool-cases (exists_by_email E email (E.live (E.rollback s)).users)) [
      | inl taken ↦ rw (integrity, taken) (Holds-rollback E EmailsUnique s h)
      | inr free ↦ rw (integrity, free) (Holds-rollback E EmailsUnique s h)
    ]
  ]

  insert-UniqueEmails :
      (payload : UserCreate) (hash : String) (s : E.Session)
      → exists_by_email E payload.user_email (E.live s).users ≡ false
      → Holds E EmailsUnique s
      → Holds E EmailsUnique (insert E payload hash s).1
  unfolding insert add flush
  insert-UniqueEmails payload hash s free h =
      let new = draft E payload hash (new_id s) in
      elim (Bool-cases (E.accepts (stored new s) s)) [
        | inr full ↦ rw full (refused-UniqueEmails payload.user_email Error.integrity_error s h)
        | inl room ↦ rw room (
            Holds-write_commit E EmailsUnique (stored new s) s
              (created-HasUniqueEmails new (E.live s).users (E.next_id_fresh _ s) free h.live))
      ]

  -- If no two users have addresses that the database finds equal, in what the session sees and in
  -- what is committed, it is so in both after `create`, whether it returns or raises.
  pub create-UniqueEmails :
      (C : Crypto) (payload : UserCreate) (s : E.Session)
      → Holds E EmailsUnique s
      → Holds E EmailsUnique (create E C payload s).1
  unfolding create
  create-UniqueEmails C payload s h =
      elim (Bool-cases (exists_by_email E payload.user_email (E.live s).users)) [
        | inl taken ↦ rw taken h
        | inr free ↦ elim (Result-cases (hash_password C payload.user_password)) [
          | inr (e, long) ↦ rw (free, long) h
          | inl (hash, hashed) ↦ rw (free, hashed) (insert-UniqueEmails payload hash s free h)
        ]
      ]

  abbrev changed : ℕ → (User → User) → E.Session → Tables
  changed id f s = record (E.live s) { users = update (λ u. u.user_id == id) f (E.live s).users }

  -- If no two users have addresses that the database finds equal, in what the session sees and in
  -- what is committed, it is so in both after `update`, whether it returns or raises.
  pub update-UniqueEmails :
      (current : User) (payload : UserUpdate) (s : E.Session)
      → Holds E EmailsUnique s
      → Holds E EmailsUnique (update_user E current payload s).1
  unfolding update_user flush_changes flush
  update-UniqueEmails current payload s h =
      let f = set_nickname payload.user_nickname in
      elim (Bool-cases (E.accepts (changed current.user_id f s) s)) [
        | inr full ↦ rw full h
        | inl room ↦ rw room (
            Holds-write_commit E EmailsUnique (changed current.user_id f s) s (
              changed-HasUniqueEmails current.user_id f (E.live s).users
                (nickname_keeps payload.user_nickname) h.live))
      ]

  -- If no two users have addresses that the database finds equal, in what the session sees and in
  -- what is committed, it is so in both after `deactivate`, whether it returns or raises.
  pub deactivate-UniqueEmails :
      (current : User) (s : E.Session)
      → Holds E EmailsUnique s
      → Holds E EmailsUnique (deactivate E current s).1
  unfolding deactivate flush_changes flush
  deactivate-UniqueEmails current s h =
      elim (Bool-cases (E.accepts (changed current.user_id set_inactive s) s)) [
        | inr full ↦ rw full h
        | inl room ↦ rw room (
            Holds-write_commit E EmailsUnique (changed current.user_id set_inactive s) s (
              changed-HasUniqueEmails current.user_id set_inactive (E.live s).users
                (λ v. (refl, refl)) h.live))
      ]
