-- ===== src/Core/Pagination/Bounds.antt =====
-- The pages of a list and their number, in app/common/pagination.py.
use green_communuty_backend.Prelude.{
  ℕ, zero, suc, ◌+◌, ◌-◌, ◌*◌, ◌≤◌, ◌<◌, ◌≡◌, refl, sym, ◌∙◌, ap, List, [], ◌∷◌, ◌++◌, length, take,
  drop, arith,
}
use native.Mathlib.Nat.{zero-add}
use green_communuty_backend.Core.Pagination.{PageParams, IsAccepted, offset, page_of, total_pages}

length-take-le {ℓ} : {A : Type ℓ} (n : ℕ) (xs : List A) → length (take n xs) ≤ n
unfolding take
length-take-le zero xs = omega arith
length-take-le (suc n) [] = omega arith
length-take-le (suc n) (x ∷ xs) = omega (arith, length-take-le n xs)

take_all {ℓ} : {A : Type ℓ} (n : ℕ) (xs : List A) → length xs ≤ n → take n xs ≡ xs
unfolding take
take_all zero [] h = refl
take_all zero (x ∷ xs) h = absurd (omega arith)
take_all (suc n) [] h = refl
take_all (suc n) (x ∷ xs) h = ap (◌∷◌ x) (take_all n xs (omega arith))

take-nil {ℓ} : {A : Type ℓ} (n : ℕ) → take {A = A} n [] ≡ []
unfolding take
take-nil zero = refl
take-nil (suc n) = refl

take-add {ℓ} :
    {A : Type ℓ} (n m : ℕ) (xs : List A) → take (n + m) xs ≡ take n xs ++ take m (drop n xs)
unfolding take drop
take-add zero m xs = rw zero-add
take-add {A} (suc n) m [] = take-nil {A = A} (suc n + m) ∙ sym (take-nil {A = A} m)
take-add (suc n) m (x ∷ xs) =
    let e : suc n + m ≡ suc (n + m) = omega arith in rw e (ap (◌∷◌ x) (take-add n m xs))

-- The first `n` pages, one after another.
abbrev pub first_pages {ℓ} : {A : Type ℓ} → ℕ → ℕ → List A → List A
first_pages size zero rows = []
first_pages size (suc n) rows =
    first_pages size n rows ++ page_of (record { page = suc n; size = size }) rows

first_pages-take {ℓ} :
    {A : Type ℓ} (size n : ℕ) (rows : List A) → first_pages size n rows ≡ take (n * size) rows
unfolding page_of take
first_pages-take size zero rows = let e : 0 * size ≡ 0 = omega arith in rw e refl
first_pages-take size (suc n) rows =
    let e : suc n * size ≡ n * size + size = grind arith in
    let minus : suc n - 1 ≡ n = omega arith in
    let back : (suc n - 1) * size ≡ n * size = ap (λ (t : ℕ). t * size) minus in
    rw (e, first_pages-take size n rows, back) (sym (take-add (n * size) size rows))

-- For page parameters that the query accepts, `total_pages` is the total over the page size,
-- rounded up: that many pages hold all the rows, and one page less would not.
pub total_pages_bounds :
    (total : ℕ) (p : PageParams)
    → IsAccepted p
    → (total ≤ total_pages total p * p.size) × (total_pages total p * p.size < total + p.size)
unfolding total_pages
total_pages_bounds total p ok = grind arith

-- For page parameters that the query accepts, the pages from the first to `total_pages`, one after
-- the other, are all the rows in their order, and no page has more rows than the page size.
pub first_pages-all {ℓ} :
    {A : Type ℓ} (p : PageParams) (rows : List A)
    → IsAccepted p
    → (first_pages p.size (total_pages (length rows) p) rows ≡ rows)
      × (length (page_of p rows) ≤ p.size)
unfolding page_of
first_pages-all p rows ok = (
  first_pages-take p.size (total_pages (length rows) p) rows
      ∙ take_all _ rows (total_pages_bounds (length rows) p ok).0,
  length-take-le p.size (drop (offset p) rows),
)
