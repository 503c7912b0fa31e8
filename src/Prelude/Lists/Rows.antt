-- ===== src/Prelude/Lists/Rows.antt =====
-- What a query does with the rows of a table: the rows that meet a condition, the first of them,
-- their number; and the change of the row that has a given key.
use Prim.Native.Nat.{ℕ, zero, suc}
use mathlib.Core.Path.{◌≡◌, refl}
use mathlib.Core.Bool.{Bool, true, false}
use mathlib.Core.Option.{Option, none, some}
use mathlib.Core.List.{List, [], ◌∷◌, ◌++◌}
use native.Mathlib.Omega.{arith}
use green_communuty_backend.Prelude.Tests.{ltb, if◌then◌else◌, is_some}

module _ {ℓ} {A : Type ℓ} where
  abbrev pub length : List A → ℕ
  length [] = 0
  length (x ∷ xs) = suc (length xs)

  -- `SELECT … WHERE p`
  unfoldable pub select : (A → Bool) → List A → List A
  select p [] = []
  select p (x ∷ xs) = let rest = select p xs in if p x then x ∷ rest else rest

  -- The one row of a query on a key, or none.
  unfoldable pub one_or_none : List A → Option A
  one_or_none [] = none
  one_or_none (x ∷ xs) = some x

  -- `SELECT count(*) … WHERE p`
  unfoldable pub count : (A → Bool) → List A → ℕ
  unfolding select
  count p xs = length (select p xs)

  abbrev pub All {κ} : (A → Type κ) → List A → Type κ
  All P [] = Unit
  All P (x ∷ xs) = P x × All P xs

  -- `LIMIT n`
  unfoldable pub take : ℕ → List A → List A
  take zero xs = []
  take (suc n) [] = []
  take (suc n) (x ∷ xs) = x ∷ take n xs

  -- `OFFSET n`
  unfoldable pub drop : ℕ → List A → List A
  drop zero xs = xs
  drop (suc n) [] = []
  drop (suc n) (x ∷ xs) = drop n xs

  -- The first row that meets the condition.
  unfoldable pub first : (A → Bool) → List A → Option A
  first p [] = none
  first p (x ∷ xs) = let rest = first p xs in if p x then some x else rest

  -- `UPDATE … SET f WHERE p`
  unfoldable pub update : (A → Bool) → (A → A) → List A → List A
  update p f [] = []
  update p f (x ∷ xs) = (if p x then f x else x) ∷ update p f xs

module _ {ℓ} {A : Type ℓ} where
  pub one_or_none-select : (p : A → Bool) (xs : List A) → one_or_none (select p xs) ≡ first p xs
  unfolding select one_or_none first
  one_or_none-select p [] = refl
  one_or_none-select p (x ∷ xs) = ground (arith, one_or_none-select p xs)

  pub count-ne-zero : (p : A → Bool) (xs : List A) → ltb 0 (count p xs) ≡ is_some (first p xs)
  unfolding count select first
  count-ne-zero p [] = refl
  count-ne-zero p (x ∷ xs) = ground (arith, count-ne-zero p xs)

  pub first-meets : (p : A → Bool) (xs : List A) (a : A) → first p xs ≡ some a → p a ≡ true
  unfolding first
  first-meets p [] a h = ground arith
  first-meets p (x ∷ xs) a h = ground (arith, first-meets p xs a)

  -- If no row meets `p`, the first row for `q` does not either.
  pub first-none :
      (p q : A → Bool) (xs : List A) (a : A) → first p xs ≡ none → first q xs ≡ some a → p a ≡ false
  unfolding first
  first-none p q [] a h k = ground arith
  first-none p q (x ∷ xs) a h k = ground (arith, first-none p q xs a)

  pub first-append :
      (p : A → Bool) (xs : List A) (a : A)
      → first p (xs ++ a ∷ [])
        ≡ (elim (first p xs) [ some b ↦ some b | none ↦ if p a then some a else none ])
  unfolding first
  first-append p [] a = ground arith
  first-append p (x ∷ xs) a = ground (arith, first-append p xs a)

  pub first_of_absent : (p : A → Bool) (xs : List A) → All (λ x. p x ≡ false) xs → first p xs ≡ none
  unfolding first
  first_of_absent p [] h = refl
  first_of_absent p (x ∷ xs) h = ground (arith, first_of_absent p xs h.1)

  -- An update of other rows does not change which row is first.
  pub first-update_ne :
      (p q : A → Bool) (f : A → A) (xs : List A)
      → ((x : A) → q x ≡ true → p x ≡ false)
      → ((x : A) → q x ≡ true → p (f x) ≡ false)
      → first p (update q f xs) ≡ first p xs
  unfolding first update
  first-update_ne p q f [] h k = refl
  first-update_ne p q f (x ∷ xs) h k = ground (arith, h x, k x, first-update_ne p q f xs h k)

  -- Where no row meets `p`, no first row does.
  pub select-nil :
      (p q : A → Bool) (xs : List A) (a : A) → select p xs ≡ [] → first q xs ≡ some a → p a ≡ false
  unfolding select first
  select-nil p q [] a h k = ground arith
  select-nil p q (x ∷ xs) a h k = ground (arith, select-nil p q xs a)
