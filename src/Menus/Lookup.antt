-- ===== src/Menus/Lookup.antt =====
-- Lookups of a menu by its id, after each change of the rows.
use green_communuty_backend.Prelude.{
  ℕ, ◌<◌, ◌≡◌, refl, sym, ◌∙◌, Bool, true, false, ◌&&◌, Option, none, some, List, [], ◌∷◌, ◌++◌,
  All, map, first, one_or_none-select, first-append, first-none, first-meets, update, ltb, ◌==◌,
  ==→eq, is_some, count, count-ne-zero, if◌then◌else◌, arith,
}
use green_communuty_backend.Models.{Menu}
use green_communuty_backend.Menus.Repository.{get_by_id, has_id, is_active, exists_by_id}

pub get_by_id-eq-first : (id : ℕ) (rows : List Menu) → get_by_id id rows ≡ first (has_id id) rows
unfolding get_by_id
get_by_id-eq-first id rows = one_or_none-select (has_id id) rows

absent_id :
    (id : ℕ) (rows : List Menu)
    → All (λ i. i < id) (map (λ m. m.menu_id) rows)
    → first (has_id id) rows ≡ none
unfolding first
absent_id id [] h = refl
absent_id id (m ∷ rows) h = ground (arith, absent_id id rows h.1)

-- No menu is found under an id above all that are in use.
pub unused_id :
    (id : ℕ) (rows : List Menu)
    → All (λ i. i < id) (map (λ m. m.menu_id) rows)
    → get_by_id id rows ≡ none
unused_id id rows fresh = get_by_id-eq-first id rows ∙ absent_id id rows fresh

-- A new row under an id above all others: only that lookup changes.
pub get_by_id-append :
    (id : ℕ) (m : Menu) (rows : List Menu)
    → All (λ i. i < m.menu_id) (map (λ r. r.menu_id) rows)
    → is_active m ≡ true
    → get_by_id id (rows ++ m ∷ []) ≡ (if m.menu_id == id then some m else get_by_id id rows)
get_by_id-append id m rows fresh active =
    simp get_by_id-eq-first
      (ground (arith, first-append (has_id id) rows m, absent_id m.menu_id rows fresh))

abbrev pub KeepsId : (Menu → Menu) → Type 0
KeepsId f = (m : Menu) → (f m).menu_id ≡ m.menu_id

first-update :
    (id j : ℕ) (f : Menu → Menu) (rows : List Menu)
    → KeepsId f
    → ((m : Menu) → (f m).deleted_at ≡ m.deleted_at)
    → first (has_id id) (update (λ m. m.menu_id == j) f rows) ≡ (
        if id == j
        then elim (first (has_id id) rows) [ none ↦ none | some m ↦ some (f m) ]
        else first (has_id id) rows)
unfolding first update
first-update id j f [] keeps alive = ground arith
first-update id j f (m ∷ rows) keeps alive =
    ground (arith, keeps m, alive m, first-update id j f rows keeps alive)

-- A change of the loaded menu `j` that keeps it active: only that lookup changes.
pub get_by_id-update :
    (id j : ℕ) (f : Menu → Menu) (rows : List Menu) {m : Menu}
    → KeepsId f
    → ((r : Menu) → (f r).deleted_at ≡ r.deleted_at)
    → get_by_id j rows ≡ some m
    → get_by_id id (update (λ r. r.menu_id == j) f rows)
      ≡ (if id == j then some (f m) else get_by_id id rows)
get_by_id-update id j f rows keeps alive e =
    simp get_by_id-eq-first (
      ground
        (arith, first-update id j f rows keeps alive, ==→eq id j, get_by_id-eq-first j rows, e))

first-delete :
    (id j : ℕ) (f : Menu → Menu) (rows : List Menu)
    → KeepsId f
    → ((m : Menu) → is_active (f m) ≡ false)
    → first (has_id id) (update (λ m. m.menu_id == j) f rows)
      ≡ (if id == j then none else first (has_id id) rows)
unfolding first update
first-delete id j f [] keeps dead = ground arith
first-delete id j f (m ∷ rows) keeps dead =
    ground (arith, keeps m, dead m, first-delete id j f rows keeps dead)

-- A logical deletion of the menu `j`: only that lookup changes.
pub get_by_id-delete :
    (id j : ℕ) (f : Menu → Menu) (rows : List Menu)
    → KeepsId f
    → ((m : Menu) → is_active (f m) ≡ false)
    → get_by_id id (update (λ m. m.menu_id == j) f rows)
      ≡ (if id == j then none else get_by_id id rows)
get_by_id-delete id j f rows keeps dead =
    simp get_by_id-eq-first (first-delete id j f rows keeps dead)

first-swap :
    (id : ℕ) (rows : List Menu)
    → is_some (first (λ m. m.menu_id == id && is_active m) rows) ≡ is_some (first (has_id id) rows)
unfolding first
first-swap id [] = refl
first-swap id (m ∷ rows) = ground (arith, first-swap id rows)

is_some-none : (o : Option Menu) → is_some o ≡ false → o ≡ none
is_some-none none h = refl
is_some-none (some m) h = cc

-- `exists_by_id` counts the rows that `get_by_id` looks for.
pub exists_by_id-eq :
    (id : ℕ) (rows : List Menu) → exists_by_id id rows ≡ is_some (get_by_id id rows)
unfolding exists_by_id
exists_by_id-eq id rows = rw (get_by_id-eq-first, count-ne-zero) (first-swap id rows)

-- A menu that is found meets each condition that holds of no row.
pub found-not-counted :
    (id : ℕ) (p : Menu → Bool) (rows : List Menu) (m : Menu)
    → ltb 0 (count p rows) ≡ false
    → get_by_id id rows ≡ some m
    → p m ≡ false
found-not-counted id p rows m none_counted e =
    first-none p (has_id id) rows m
      (is_some-none (first p rows) (sym (count-ne-zero p rows) ∙ none_counted))
      (sym (get_by_id-eq-first id rows) ∙ e)

pub found-is_active :
    (id : ℕ) (rows : List Menu) (m : Menu)
    → get_by_id id rows ≡ some m
    → (is_active m ≡ true) × (m.menu_id ≡ id)
found-is_active id rows m e =
    ground (arith, first-meets (has_id id) rows m (sym (get_by_id-eq-first id rows) ∙ e))
