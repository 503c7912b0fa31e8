-- ===== src/Prelude/Lists/Keyed.antt =====
-- Rows with a numeric primary key, of which some are in view: the lookup of a key, after each
-- change of the rows.
use Prim.Native.Nat.{ℕ, ◌<◌}
use mathlib.Core.Path.{◌≡◌, refl}
use mathlib.Core.Bool.{Bool, true, false, ◌&&◌}
use mathlib.Core.Option.{Option, none, some}
use mathlib.Core.List.{List, [], ◌∷◌, ◌++◌, map}
use native.Mathlib.Omega.{arith}
use green_communuty_backend.Prelude.Tests.{◌==◌, ==→eq, if◌then◌else◌}
use green_communuty_backend.Prelude.Lists.Rows.{All, first, first-append, first-meets, update}

module _ {ℓ} {A : Type ℓ} (key : A → ℕ) (seen : A → Bool) where
  abbrev pub find : ℕ → List A → Option A
  find id = first (λ a. seen a && key a == id)

  pub find-fresh : (id : ℕ) (rows : List A) → All (λ i. i < id) (map key rows) → find id rows ≡ none
  unfolding first
  find-fresh id [] h = refl
  find-fresh id (a ∷ rows) h = ground (arith, find-fresh id rows h.1)

  -- A row that is found has a key below every bound of the keys.
  pub find-lt :
      (id bound : ℕ) (rows : List A) (a : A)
      → All (λ i. i < bound) (map key rows)
      → find id rows ≡ some a
      → id < bound
  unfolding first
  find-lt id bound [] a h e = ground arith
  find-lt id bound (b ∷ rows) a h e = ground (arith, find-lt id bound rows a h.1)

  pub find-append :
      (id : ℕ) (a : A) (rows : List A)
      → All (λ i. i < key a) (map key rows)
      → seen a ≡ true
      → find id (rows ++ a ∷ []) ≡ (if id == key a then some a else find id rows)
  find-append id a rows fresh active = ground (
    arith,
    first-append (λ b. seen b && key b == id) rows a,
    find-fresh (key a) rows fresh,
    ==→eq id (key a),
  )

  pub find-change :
      (id j : ℕ) (f : A → A) (rows : List A)
      → ((a : A) → key (f a) ≡ key a)
      → ((a : A) → seen (f a) ≡ seen a)
      → find id (update (λ a. key a == j) f rows) ≡ (
          if id == j
          then elim (find id rows) [ none ↦ none | some a ↦ some (f a) ]
          else find id rows)
  unfolding first update
  find-change id j f [] keeps alive = ground arith
  find-change id j f (a ∷ rows) keeps alive =
      ground (arith, keeps a, alive a, find-change id j f rows keeps alive)

  -- A change of a row that is found, which keeps its key and keeps it in view.
  pub find-update :
      (id j : ℕ) (f : A → A) (rows : List A) {a : A}
      → ((b : A) → key (f b) ≡ key b)
      → ((b : A) → seen (f b) ≡ seen b)
      → find j rows ≡ some a
      → find id (update (λ b. key b == j) f rows) ≡ (if id == j then some (f a) else find id rows)
  find-update id j f rows keeps alive e =
      ground (arith, find-change id j f rows keeps alive, ==→eq id j, e)

  -- A change that takes the row out of view.
  pub find-delete :
      (id j : ℕ) (f : A → A) (rows : List A)
      → ((a : A) → key (f a) ≡ key a)
      → ((a : A) → seen (f a) ≡ false)
      → find id (update (λ a. key a == j) f rows) ≡ (if id == j then none else find id rows)
  unfolding first update
  find-delete id j f [] keeps dead = ground arith
  find-delete id j f (a ∷ rows) keeps dead =
      ground (arith, keeps a, dead a, find-delete id j f rows keeps dead)

  pub find-meets :
      (id : ℕ) (rows : List A) (a : A) → find id rows ≡ some a → (seen a ≡ true) × (key a ≡ id)
  find-meets id rows a e = ground (arith, first-meets (λ b. seen b && key b == id) rows a e)
