-- ===== src/Examples/Database.antt =====
-- A database that keeps two versions of its tables and takes the changes that a test admits.
use green_communuty_backend.Prelude.{
  ℕ, suc, ◌≤◌, ◌<◌, max, String, ◌≡◌, refl, Bool, true, false, ◌&&◌, not, List, [], ◌∷◌, ◌++◌, All,
  str_eq, eq_iff, arith,
}
use green_communuty_backend.Core.Session.{Engine}
use green_communuty_backend.Models.{Report, Tables}
use green_communuty_backend.Reports.Nulls.{has_null, RefusesNulls}

pub record State : Type 0 where
  pub live : Tables
  pub saved : Tables

abbrev highest : List ℕ → ℕ
highest [] = 0
highest (id ∷ ids) = max id (highest ids)

All-weaken :
    (m n : ℕ) → m ≤ n → (ids : List ℕ) → All (λ i. i < suc m) ids → All (λ i. i < suc n) ids
All-weaken m n le [] h = tt
All-weaken m n le (i ∷ ids) (here, rest) = (omega arith, All-weaken m n le ids rest)

pub highest-above : (ids : List ℕ) → All (λ i. i < suc (highest ids)) ids
highest-above [] = tt
highest-above (id ∷ ids) = (
  omega arith,
  All-weaken (highest ids) (highest (id ∷ ids)) (omega arith) ids (highest-above ids),
)

pub str_eq_self : (a : String) → str_eq a a ≡ true
str_eq_self a = (eq_iff a a).1 refl

pub str_eq_swap : (a b : String) → str_eq a b ≡ str_eq b a
str_eq_swap a b = ground (arith, eq_iff a b, eq_iff b a)

abbrev pub database : (Tables → Bool) → Engine
database admits = record {
  Session = State;
  live = λ s. s.live;
  saved = λ s. s.saved;
  accepts = λ t s. admits t;
  write = λ t s. record { live = t; saved = s.saved };
  commit = λ s. record { live = s.live; saved = s.live };
  rollback = λ s. record { live = s.saved; saved = s.saved };
  next_id = λ ids s. suc (highest ids);
  text_equal = str_eq;
  text_contains = str_eq;
  text_equal_refl = str_eq_self;
  text_equal_symm = str_eq_swap;
  live-write = λ t s. refl;
  saved-write = λ t s. refl;
  live-commit = λ s. refl;
  saved-commit = λ s. refl;
  live-rollback = λ s. refl;
  saved-rollback = λ s. refl;
  next_id_fresh = λ ids s. highest-above ids;
}

-- One that takes every change, and one that refuses nulls in the columns of the reports.
abbrev pub permissive : Engine
permissive = database (λ t. true)

abbrev all_filled : List Report → Bool
all_filled [] = true
all_filled (r ∷ rows) =
    not (has_null r.post_title r.post_content r.comment_content) && all_filled rows

abbrev pub strict : Engine
strict = database (λ t. all_filled t.reports)

all_filled-last :
    (rows : List Report) (r : Report)
    → has_null r.post_title r.post_content r.comment_content ≡ true
    → all_filled (rows ++ r ∷ []) ≡ false
all_filled-last [] r h = ground arith
all_filled-last (x ∷ rows) r h = ground (arith, all_filled-last rows r h)

pub strict-refuses : RefusesNulls strict
strict-refuses = record { refuses = λ t r rows s e h. rw e (all_filled-last rows r h) }
