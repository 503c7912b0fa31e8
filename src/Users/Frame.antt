-- ===== src/Users/Frame.antt =====
-- What the calls of app/modules/users/user_service.py leave alone: every property of the tables that does not depend on
-- the users.
use green_communuty_backend.Prelude.{ℕ, String, inl, inr, Bool-cases, List}
use green_communuty_backend.Core.Action.{Result-cases, modify}
use green_communuty_backend.Core.Session.{Engine}
use green_communuty_backend.Core.Session.Holds.{Holds, Holds-commit, Holds-rollback}
use green_communuty_backend.Core.Keeps.{
  Keeps, Keeps-bind, Keeps-flush, Keeps-commit, Keeps-flush-pure, Keeps-then_commit,
}
use green_communuty_backend.Models.{User, Tables}
use green_communuty_backend.Users.Repository as Repository
use green_communuty_backend.Auth.Security.{Crypto, hash_password}
use green_communuty_backend.Users.Repository.{exists_by_email}
use green_communuty_backend.Core.Errors.{Error}
use green_communuty_backend.Users.Service.{
  UserCreate, UserUpdate, draft, refused, is_integrity, insert, set_nickname, set_inactive, create,
  update as update_user, deactivate,
}

module _ (E : Engine) (P : Tables → Type 0)
    (stable : (t : Tables) (rows : List User) → P t → P (record t { users = rows })) where
  abbrev Kept : E.Session → Type 0
  Kept = Holds E P

  add-Keeps : (draft : ℕ → User) → Keeps Kept (Repository.add E draft)
  unfolding Repository.add
  add-Keeps draft s h = Keeps-flush-pure E P _ _ (stable (E.live s) _ h.live) s h

  changes-Keeps :
      (id : ℕ) (change : User → User) → Keeps Kept (Repository.flush_changes E id change)
  unfolding Repository.flush_changes
  changes-Keeps id change s h = Keeps-flush E P _ (stable (E.live s) _ h.live) s h

  refused-Keeps : (email : String) (e : Error) → Keeps Kept (refused E email e)
  refused-Keeps email e s h = elim (Bool-cases (is_integrity e)) [
    | inr other ↦ rw other h
    | inl integrity ↦ elim (Bool-cases (exists_by_email E email (E.live (E.rollback s)).users)) [
      | inl taken ↦ rw (integrity, taken) (Holds-rollback E P s h)
      | inr free ↦ rw (integrity, free) (Holds-rollback E P s h)
    ]
  ]

  insert-Keeps : (payload : UserCreate) (hash : String) → Keeps Kept (insert E payload hash)
  unfolding insert
  insert-Keeps payload hash s h =
      let added = add-Keeps (draft E payload hash) s h in
      elim (Result-cases (Repository.add E (draft E payload hash) s).0) [
        | inl (u, returned) ↦ rw returned (Holds-commit E P _ added)
        | inr (e, raised) ↦ rw raised (refused-Keeps payload.user_email e _ added)
      ]

  pub create-Keeps : (C : Crypto) (payload : UserCreate) → Keeps Kept (create E C payload)
  unfolding create
  create-Keeps C payload s h =
      elim (Bool-cases (exists_by_email E payload.user_email (E.live s).users)) [
        | inl taken ↦ rw taken h
        | inr free ↦ elim (Result-cases (hash_password C payload.user_password)) [
          | inr (e, long) ↦ rw (free, long) h
          | inl (hash, hashed) ↦ rw (free, hashed) (insert-Keeps payload hash s h)
        ]
      ]

  pub update-Keeps :
      (current : User) (payload : UserUpdate) → Keeps Kept (update_user E current payload)
  unfolding update_user
  update-Keeps current payload =
      Keeps-then_commit E P
        (Repository.flush_changes E current.user_id (set_nickname payload.user_nickname))
        (changes-Keeps current.user_id _) (λ _. set_nickname payload.user_nickname current)

  pub deactivate-Keeps : (current : User) → Keeps Kept (deactivate E current)
  unfolding deactivate
  deactivate-Keeps current =
      Keeps-bind Kept (Repository.flush_changes E current.user_id set_inactive)
        (λ _. modify E.commit) (changes-Keeps current.user_id _) (λ _. Keeps-commit E P)
