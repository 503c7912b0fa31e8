-- ===== src/Comments/Frame.antt =====
-- What the calls of app/modules/comments/comment_service.py leave alone: every property of the tables that does not depend on
-- the comments.
use green_communuty_backend.Prelude.{ℕ, String, inl, inr, List}
use green_communuty_backend.Core.Action.{Result-cases, modify}
use green_communuty_backend.Core.Session.{Engine}
use green_communuty_backend.Core.Session.Holds.{Holds}
use green_communuty_backend.Core.Keeps.{
  Keeps, Keeps-bind, Keeps-flush, Keeps-commit, Keeps-flush-pure, Keeps-then_commit,
}
use green_communuty_backend.Models.{Comment, Tables}
use green_communuty_backend.Comments.Repository as Repository
use green_communuty_backend.Comments.Mentions.{validate_mentions}
use green_communuty_backend.Comments.Service.{
  CommentCreate, check_create, get_owned, draft, set_content, set_deleted, create, update, delete,
}
use green_communuty_backend.Models.{User}

module _ (E : Engine) (P : Tables → Type 0)
    (stable : (t : Tables) (rows : List Comment) → P t → P (record t { comments = rows })) where
  abbrev Kept : E.Session → Type 0
  Kept = Holds E P

  add-Keeps : (draft : ℕ → Comment) → Keeps Kept (Repository.add E draft)
  unfolding Repository.add
  add-Keeps draft s h = Keeps-flush-pure E P _ _ (stable (E.live s) _ h.live) s h

  changes-Keeps :
      (id : ℕ) (change : Comment → Comment) → Keeps Kept (Repository.flush_changes E id change)
  unfolding Repository.flush_changes
  changes-Keeps id change s h = Keeps-flush E P _ (stable (E.live s) _ h.live) s h

  pub create-Keeps :
      (now post : ℕ) (author : User) (payload : CommentCreate)
      → Keeps Kept (create E now post author payload)
  unfolding create
  create-Keeps now post author payload s h =
      elim (Result-cases (check_create E post payload (E.live s))) [
        | inr (e, refused) ↦ rw refused h
        | inl (done, passed) ↦ rw passed (
            Keeps-then_commit E P (Repository.add E (draft E now post author payload)) (add-Keeps _)
              (λ c. c) s h)
      ]

  pub update-Keeps :
      (id : ℕ) (current : User) (content : String) → Keeps Kept (update E id current content)
  unfolding update
  update-Keeps id current content s h =
      elim (Result-cases (get_owned id current (E.live s).comments)) [
        | inr (e, refused) ↦ rw refused h
        | inl (c, mine) ↦ elim (Result-cases (validate_mentions E c.post_id content (E.live s))) [
          | inr (e, unknown) ↦ rw (mine, unknown) h
          | inl (done, known) ↦
              rw (mine, known)
                (Keeps-then_commit E P (Repository.flush_changes E id (set_content content))
                  (changes-Keeps id _) (λ _. set_content content c) s h)
        ]
      ]

  pub delete-Keeps : (now id : ℕ) (current : User) → Keeps Kept (delete E now id current)
  unfolding delete
  delete-Keeps now id current s h = elim (Result-cases (get_owned id current (E.live s).comments)) [
    | inr (e, refused) ↦ rw refused h
    | inl (c, mine) ↦ rw mine (
        Keeps-bind Kept (Repository.flush_changes E id (set_deleted now)) (λ _. modify E.commit)
          (changes-Keeps id _) (λ _. Keeps-commit E P) s h)
  ]
