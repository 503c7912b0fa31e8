-- ===== src/Comments/Keeps.antt =====
-- The operations of app/modules/comments/comment_service.py and the threads of comments.
use green_communuty_backend.Prelude.{
  ℕ, String, ◌≡◌, refl, Bool-cases, inl, inr, [], ◌∷◌, ◌++◌, map, update, ◌==◌, arith,
}
use green_communuty_backend.Core.Action.{ok, Result-cases}
use green_communuty_backend.Core.Session.{Engine, flush}
use green_communuty_backend.Core.Session.Holds.{Holds, Holds-write_commit}
use green_communuty_backend.Models.{Comment, User, Tables}
use green_communuty_backend.Comments.Repository as Repository
use green_communuty_backend.Comments.Repository.{is_active}
use green_communuty_backend.Comments.Mentions.{validate_mentions}
use green_communuty_backend.Comments.Service.{
  CommentCreate, check_create, draft, get_owned, set_content, set_deleted, create,
  update as update_comment, delete,
}
use green_communuty_backend.Comments.Threads.{
  IsThreaded, owned_found, checked_parent, IsThreaded-append, IsThreaded-update, IsThreaded-delete,
}

module _ (E : Engine) where
  abbrev pub Threaded : Tables → Type 0
  Threaded t = IsThreaded t.comments

  abbrev new_id : E.Session → ℕ
  new_id s = E.next_id (map (λ c. c.comment_id) (E.live s).comments) s

  abbrev stored : Comment → E.Session → Tables
  stored c s = record (E.live s) { comments = (E.live s).comments ++ c ∷ [] }

  abbrev changed : ℕ → (Comment → Comment) → E.Session → Tables
  changed id f s = record (E.live s) {
    comments = update (λ c. c.comment_id == id) f (E.live s).comments;
  }

  created-IsThreaded :
      (now post : ℕ) (author : User) (payload : CommentCreate) (s : E.Session)
      → check_create E post payload (E.live s) ≡ ok tt
      → IsThreaded (E.live s).comments
      → IsThreaded ((E.live s).comments ++ draft E now post author payload (new_id s) ∷ [])
  unfolding check_create
  created-IsThreaded now post author payload s passed h =
      IsThreaded-append (draft E now post author payload (new_id s)) (E.live s).comments h
        (E.next_id_fresh _ s) refl (λ p e. checked_parent post p (E.live s).comments (ground arith))

  -- If the comments are threaded (a reply is younger than the comment it names, and an active
  -- comment that is replied to is no reply itself and stands under the same post) in what the
  -- session sees and in what is committed, they are so in both after `create`, whether it returns
  -- or raises.
  pub create-Threaded :
      (now post : ℕ) (author : User) (payload : CommentCreate) (s : E.Session)
      → Holds E Threaded s
      → Holds E Threaded (create E now post author payload s).1
  unfolding create Repository.add flush
  create-Threaded now post author payload s h =
      let new = draft E now post author payload (new_id s) in
      elim (Result-cases (check_create E post payload (E.live s))) [
        | inr (e, refused) ↦ rw refused h
        | inl (done, passed) ↦ elim (Bool-cases (E.accepts (stored new s) s)) [
          | inr rejected ↦ rw (passed, rejected) h
          | inl taken ↦
              rw (passed, taken)
                (Holds-write_commit E Threaded (stored new s) s
                  (created-IsThreaded now post author payload s passed h.live))
        ]
      ]

  -- If the comments are threaded in what the session sees and in what is committed, they are so in
  -- both after `update`, whether it returns or raises.
  pub update-Threaded :
      (id : ℕ) (current : User) (content : String) (s : E.Session)
      → Holds E Threaded s
      → Holds E Threaded (update_comment E id current content s).1
  unfolding update_comment Repository.flush_changes flush
  update-Threaded id current content s h =
      elim (Result-cases (get_owned id current (E.live s).comments)) [
        | inr (e, refused) ↦ rw refused h
        | inl (c, mine) ↦ elim (Result-cases (validate_mentions E c.post_id content (E.live s))) [
          | inr (e, refused) ↦ rw (mine, refused) h
          | inl (done, passed) ↦
              elim (Bool-cases (E.accepts (changed id (set_content content) s) s)) [
                | inr rejected ↦ rw (mine, passed, rejected) h
                | inl taken ↦
                    rw (mine, passed, taken)
                      (Holds-write_commit E Threaded (changed id (set_content content) s) s (
                        IsThreaded-update id (set_content content) (E.live s).comments (λ c. refl)
                          (λ c. refl) (λ c. (refl, refl)) (owned_found id current _ c mine) h.live))
              ]
        ]
      ]

  -- If the comments are threaded in what the session sees and in what is committed, they are so in
  -- both after `delete`, whether it returns or raises.
  pub delete-Threaded :
      (now id : ℕ) (current : User) (s : E.Session)
      → Holds E Threaded s
      → Holds E Threaded (delete E now id current s).1
  unfolding delete Repository.flush_changes flush
  delete-Threaded now id current s h =
      elim (Result-cases (get_owned id current (E.live s).comments)) [
        | inr (e, refused) ↦ rw refused h
        | inl (c, mine) ↦ elim (Bool-cases (E.accepts (changed id (set_deleted now) s) s)) [
          | inr rejected ↦ rw (mine, rejected) h
          | inl taken ↦
              rw (mine, taken)
                (Holds-write_commit E Threaded (changed id (set_deleted now) s) s (
                  IsThreaded-delete id (set_deleted now) (E.live s).comments (λ c. refl) (λ c. refl)
                    h.live))
        ]
      ]
