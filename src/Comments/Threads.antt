-- ===== src/Comments/Threads.antt =====
-- Comments and their replies: what it means that the rows are threaded, and changes of the rows.
use green_communuty_backend.Prelude.{
  ℕ, ◌<◌, ◌≡◌, All, Bool-cases, Option-cases, true, false, inl, inr, Option, none, some, List, [],
  ◌∷◌, ◌++◌, map, update, find, find-append, find-update, find-delete, find-lt, one_or_none-select,
  ◌==◌, if◌then◌else◌, arith,
}
use green_communuty_backend.Core.Action.{ok}
use green_communuty_backend.Models.{Comment, User}
use green_communuty_backend.Comments.Repository as Repository
use green_communuty_backend.Comments.Repository.{is_active}
use green_communuty_backend.Comments.Service.{check_parent, get_owned}

abbrev pub find_comment : ℕ → List Comment → Option Comment
find_comment = find (λ c. c.comment_id) is_active

pub get_by_id-eq-find :
    (id : ℕ) (rows : List Comment) → Repository.get_by_id id rows ≡ find_comment id rows
unfolding Repository.get_by_id
get_by_id-eq-find id rows = one_or_none-select _ rows

pub get_parent_comment-eq-find :
    (id : ℕ) (rows : List Comment) → Repository.get_parent_comment id rows ≡ find_comment id rows
unfolding Repository.get_parent_comment
get_parent_comment-eq-find id rows = one_or_none-select _ rows

-- A reply was written after its parent; an active parent is no reply, and of the same post.
pub record IsThreaded (rows : List Comment) : Type 0 where
  pub older :
      (c p : ℕ) (m : Comment) → find_comment c rows ≡ some m → m.parent_comment_id ≡ some p → p < c
  pub flat :
      (c p : ℕ) (m q : Comment)
      → find_comment c rows ≡ some m
      → m.parent_comment_id ≡ some p
      → find_comment p rows ≡ some q
      → (q.parent_comment_id ≡ none) × (q.post_id ≡ m.post_id)

-- `_get_owned` returns the active comment of that id, which the user wrote.
pub owned_found :
    (id : ℕ) (current : User) (rows : List Comment) (c : Comment)
    → get_owned id current rows ≡ ok c
    → find_comment id rows ≡ some c
unfolding get_owned
owned_found id current rows c mine = ground (arith, get_by_id-eq-find id rows)

-- What the check of a reply finds.
pub checked_parent :
    (post p : ℕ) (rows : List Comment)
    → check_parent post (some p) rows ≡ ok tt
    → (q : Comment) × (find_comment p rows ≡ some q)
      × (q.parent_comment_id ≡ none)
      × (q.post_id ≡ post)
unfolding check_parent
checked_parent post p rows passed = elim (Option-cases (find_comment p rows)) [
  | inl absent ↦ ground (arith, get_parent_comment-eq-find p rows)
  | inr (q, found) ↦ (
    q,
    found,
    ground (arith, get_parent_comment-eq-find p rows),
    ground (arith, get_parent_comment-eq-find p rows),
  )
]

-- The comment that the new reply names: found, of the same post, and no reply.
abbrev Parent : List Comment → ℕ → ℕ → Type 0
Parent rows post p =
    (q : Comment) × (find_comment p rows ≡ some q)
    × (q.parent_comment_id ≡ none)
    × (q.post_id ≡ post)

module _ (new : Comment) (rows : List Comment) (h : IsThreaded rows)
    (fresh : All (λ i. i < new.comment_id) (map (λ c. c.comment_id) rows))
    (active : is_active new ≡ true)
    (parent : (p : ℕ) → new.parent_comment_id ≡ some p → Parent rows new.post_id p) where
  at :
      (x : ℕ)
      → find_comment x (rows ++ new ∷ [])
        ≡ (if x == new.comment_id then some new else find_comment x rows)
  at x = find-append (λ c. c.comment_id) is_active x new rows fresh active

  known : (x : ℕ) (c : Comment) → find_comment x rows ≡ some c → x < new.comment_id
  known x c e = find-lt (λ r. r.comment_id) is_active x new.comment_id rows c fresh e

  appended_older :
      (c p : ℕ) (m : Comment)
      → find_comment c (rows ++ new ∷ []) ≡ some m
      → m.parent_comment_id ≡ some p
      → p < c
  appended_older c p m found e = elim (Bool-cases (c == new.comment_id)) [
    | inl is_new ↦
        let (q, fq, top, same) = parent p (ground (arith, at c)) in ground (arith, known p q fq)
    | inr old ↦ ground (arith, at c, h.older c p m)
  ]

  appended_flat :
      (c p : ℕ) (m q : Comment)
      → find_comment c (rows ++ new ∷ []) ≡ some m
      → m.parent_comment_id ≡ some p
      → find_comment p (rows ++ new ∷ []) ≡ some q
      → (q.parent_comment_id ≡ none) × (q.post_id ≡ m.post_id)
  appended_flat c p m q found e fq = elim (Bool-cases (c == new.comment_id)) [
    | inl is_new ↦
        let (q', fq', top, same) = parent p (ground (arith, at c)) in
        ground (arith, at c, at p, known p q' fq')
    | inr old ↦ ground (arith, at c, at p, h.older c p m, h.flat c p m q, known c m)
  ]

  pub IsThreaded-append : IsThreaded (rows ++ new ∷ [])
  IsThreaded-append = record { older = appended_older; flat = appended_flat }

pub IsThreaded-update :
    (id : ℕ) (f : Comment → Comment) (rows : List Comment) {old : Comment}
    → ((c : Comment) → (f c).comment_id ≡ c.comment_id)
    → ((c : Comment) → is_active (f c) ≡ is_active c)
    → ((c : Comment)
        → ((f c).parent_comment_id ≡ c.parent_comment_id) × ((f c).post_id ≡ c.post_id))
    → find_comment id rows ≡ some old
    → IsThreaded rows
    → IsThreaded (update (λ c. c.comment_id == id) f rows)
IsThreaded-update id f rows {old} keeps alive same found h =
    let after =
      λ (x : ℕ). find-update (λ c. c.comment_id) is_active x id f rows keeps alive found in
    record {
      older = λ c p m fc e. ground (arith, after c, h.older c p m, h.older c p old, same old);
      flat = λ c p m q fc e fp. ground (
        arith,
        after c,
        after p,
        same old,
        h.flat c p m q,
        h.flat c p old q,
        h.flat c p m old,
        h.flat c p old old,
      );
    }

pub IsThreaded-delete :
    (id : ℕ) (f : Comment → Comment) (rows : List Comment)
    → ((c : Comment) → (f c).comment_id ≡ c.comment_id)
    → ((c : Comment) → is_active (f c) ≡ false)
    → IsThreaded rows
    → IsThreaded (update (λ c. c.comment_id == id) f rows)
IsThreaded-delete id f rows keeps dead h =
    let after = λ (x : ℕ). find-delete (λ c. c.comment_id) is_active x id f rows keeps dead in
    record {
      older = λ c p m fc e. ground (arith, after c, h.older c p m);
      flat = λ c p m q fc e fp. ground (arith, after c, after p, h.flat c p m q);
    }
