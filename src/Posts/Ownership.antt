-- ===== src/Posts/Ownership.antt =====
-- Who may change or delete a post, and what a deletion leaves.
use green_communuty_backend.Prelude.{
  ℕ, ◌≡◌, refl, sym, ◌∙◌, Bool, true, false, ◌||◌, inl, inr, none, some, Bool-cases, List, [], ◌∷◌,
  select, update, one_or_none, ◌==◌, arith,
}
use green_communuty_backend.Core.Errors.{forbidden, integrity_error}
use green_communuty_backend.Core.Action.{Result, ok, err, Result-cases, ok_err}
use green_communuty_backend.Core.Session.{Engine, flush}
use green_communuty_backend.Core.Redis.{Redis}
use green_communuty_backend.Core.World.{World, tables}
use green_communuty_backend.Models.{User, Post, Tables}
use green_communuty_backend.Posts.Repository.{get_by_id, flush_changes}
use green_communuty_backend.Posts.Service.{PostUpdate, is_admin, mark_deleted, get_owned, delete}
use green_communuty_backend.Posts.Service.{update as update_post}

-- The author, or an administrator.
abbrev pub may_change : User → Post → Bool
may_change current p = p.author_id == current.user_id || is_admin current.user_role

get_owned-ok :
    (id : ℕ) (current : User) (rows : List Post) (p : Post)
    → get_owned id current rows ≡ ok p
    → (get_by_id id rows ≡ some p) × (may_change current p ≡ true)
unfolding get_owned
get_owned-ok id current rows p mine = (ground arith, ground arith)

get_owned-forbidden :
    (id : ℕ) (current : User) (rows : List Post) (p : Post)
    → get_by_id id rows ≡ some p
    → may_change current p ≡ false
    → get_owned id current rows ≡ err forbidden
unfolding get_owned
get_owned-forbidden id current rows p found other = rw found (ground arith)

-- A post that is marked as deleted is not found any more.
get_by_id-deleted :
    (now id : ℕ) (rows : List Post)
    → get_by_id id (update (λ p. p.post_id == id) (mark_deleted now) rows) ≡ none
unfolding get_by_id select update one_or_none
get_by_id-deleted now id [] = refl
get_by_id-deleted now id (p ∷ rows) = ground (arith, get_by_id-deleted now id rows)

module _ (E : Engine) (R : Redis) (now id : ℕ) (current : User) (w : World E R) where
  abbrev pub deletion : Result (Unit {0}) × World E R
  deletion = delete E R now id current w

  abbrev marked : Tables
  marked = record (tables E R w) {
    posts = update (λ p. p.post_id == id) (mark_deleted now) (tables E R w).posts;
  }

  -- If the service's `delete` of a post returns, then the post was found and the user is its
  -- author or an administrator; the committed posts are those that the session saw with this one
  -- marked as deleted and no other changed; and the post is not found among them any more.
  pub delete-ok :
      deletion.0 ≡ ok tt
      → (p : Post) × (get_by_id id (tables E R w).posts ≡ some p)
        × (may_change current p ≡ true)
        × ((E.saved deletion.1.session).posts
            ≡ update (λ p. p.post_id == id) (mark_deleted now) (tables E R w).posts)
        × (get_by_id id (E.saved deletion.1.session).posts ≡ none)
  unfolding delete flush_changes flush
  delete-ok done = elim (Result-cases (get_owned id current (tables E R w).posts)) [
    | inr (e, refused) ↦ absurd (ok_err tt e (sym done ∙ rw refused refl))
    | inl (p, mine) ↦ elim (Bool-cases (E.accepts marked w.session)) [
      | inr full ↦ absurd (ok_err tt integrity_error (sym done ∙ rw (mine, full) refl))
      | inl room ↦
          let (found, allowed) = get_owned-ok id current (tables E R w).posts p mine in
          rw (mine, room)
            (
              p,
              found,
              allowed,
              rw (E.saved-commit, E.live-write) refl,
              rw (E.saved-commit, E.live-write) (get_by_id-deleted now id (tables E R w).posts),
            )
    ]
  ]

  -- For a post that is found, a user who is neither its author nor an administrator can neither
  -- delete nor update it: both calls raise forbidden and change nothing.
  pub delete-forbidden :
      (payload : PostUpdate) (p : Post)
      → get_by_id id (tables E R w).posts ≡ some p
      → may_change current p ≡ false
      → (deletion ≡ (err forbidden, w))
        × (update_post E R id current payload w ≡ (err forbidden, w))
  unfolding delete update_post
  delete-forbidden payload p found other =
      let refused = get_owned-forbidden id current (tables E R w).posts p found other in
      (rw refused refl, rw refused refl)
