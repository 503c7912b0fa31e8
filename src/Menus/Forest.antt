-- ===== src/Menus/Forest.antt =====
-- The parent links of the active menus have no cycle, and what that means for the loop that
-- climbs them.
use green_communuty_backend.Prelude.{
  ℕ, zero, suc, ◌+◌, ◌<◌, ◌≡◌, ◌∙◌, ◌≢◌, Bool, true, false, inl, inr, Option-cases, none, some,
  List, arith,
}
use green_communuty_backend.Core.Errors.{diverged}
use green_communuty_backend.Core.Action.{ok, err}
use green_communuty_backend.Models.{Menu}
use green_communuty_backend.Menus.Repository.{get_by_id}
use green_communuty_backend.Menus.Service.{climb}

-- Every active menu has a rank above that of its active parent.
pub record IsForest (rows : List Menu) : Type 0 where
  pub rank : ℕ → ℕ
  pub edge :
      (id p : ℕ) (m q : Menu)
      → get_by_id id rows ≡ some m
      → m.menu_parent_id ≡ some p
      → get_by_id p rows ≡ some q
      → rank p < rank id

-- The rounds that the loop may need from a cursor.
abbrev pub rounds_from : {rows : List Menu} → IsForest rows → ℕ → ℕ
rounds_from {rows} forest c = elim (get_by_id c rows) [ none ↦ 0 | some m ↦ forest.rank c + 1 ]

module _ (id : ℕ) (rows : List Menu) (forest : IsForest rows) where
  rounds_fall :
      (f c q : ℕ) (m : Menu)
      → rounds_from forest c < suc f
      → get_by_id c rows ≡ some m
      → m.menu_parent_id ≡ some q
      → rounds_from forest q < f
  rounds_fall f c q m h e parent = elim (Option-cases (get_by_id q rows)) [
    | inl absent ↦ ground arith
    | inr (n, found) ↦ ground (arith, forest.edge c q m n e parent found)
  ]

  -- With fuel enough the loop ends, and more fuel changes nothing.
  pub climb_fuel :
      (f g c : ℕ)
      → rounds_from forest c < f
      → rounds_from forest c < g
      → climb f id rows (some c) ≡ climb g id rows (some c)
  unfolding climb
  climb_fuel zero g c h k = absurd (omega arith)
  climb_fuel (suc f) zero c h k = absurd (omega arith)
  climb_fuel (suc f) (suc g) c h k = elim (Option-cases (get_by_id c rows)) [
    | inl absent ↦ ground arith
    | inr (m, found) ↦ elim (Option-cases m.menu_parent_id) [
      | inl top ↦ ground arith
      | inr (q, parent) ↦ ground (
        arith,
        climb_fuel f g q (rounds_fall f c q m h found parent) (rounds_fall g c q m k found parent),
      )
    ]
  ]

  pub climb_ends : (f c : ℕ) → rounds_from forest c < f → climb f id rows (some c) ≢ err diverged
  unfolding climb
  climb_ends zero c h = absurd (omega arith)
  climb_ends (suc f) c h = elim (Option-cases (get_by_id c rows)) [
    | inl absent ↦ ground arith
    | inr (m, found) ↦ elim (Option-cases m.menu_parent_id) [
      | inl top ↦ ground arith
      | inr (q, parent) ↦ ground (arith, climb_ends f q (rounds_fall f c q m h found parent))
    ]
  ]

  -- A loop that ended with success on any fuel does so on enough fuel.
  pub climb_ok :
      (f g c : ℕ)
      → rounds_from forest c < g
      → climb f id rows (some c) ≡ ok tt
      → climb g id rows (some c) ≡ ok tt
  unfolding climb
  climb_ok zero g c k e = cc
  climb_ok (suc f) zero c k e = absurd (omega arith)
  climb_ok (suc f) (suc g) c k e = elim (Option-cases (get_by_id c rows)) [
    | inl absent ↦ ground arith
    | inr (m, found) ↦ elim (Option-cases m.menu_parent_id) [
      | inl top ↦ ground arith
      | inr (q, parent) ↦ ground (arith, climb_ok f g q (rounds_fall g c q m k found parent))
    ]
  ]

  -- The cursor is the menu `id` or stands below it.
  pub below : ℕ → Bool
  below c = elim (climb (rounds_from forest c + 1) id rows (some c)) [ ok _ ↦ false | err _ ↦ true ]

  pub below_self : below id ≡ true
  unfolding below climb
  below_self = ground arith

  climb_step :
      (f c q : ℕ) (m : Menu)
      → c ≢ id
      → get_by_id c rows ≡ some m
      → m.menu_parent_id ≡ some q
      → climb (suc f) id rows (some c) ≡ climb f id rows (some q)
  unfolding climb
  climb_step f c q m ne found parent = ground arith

  climb_to_parent :
      (c q : ℕ) (m : Menu)
      → c ≢ id
      → get_by_id c rows ≡ some m
      → m.menu_parent_id ≡ some q
      → climb (rounds_from forest c + 1) id rows (some c)
        ≡ climb (rounds_from forest q + 1) id rows (some q)
  climb_to_parent c q m ne found parent =
      climb_fuel (rounds_from forest c + 1) (suc (rounds_from forest c)) c (omega arith)
        (omega arith)
      ∙ climb_step (rounds_from forest c) c q m ne found parent
      ∙ climb_fuel (rounds_from forest c) (rounds_from forest q + 1) q
          (rounds_fall (rounds_from forest c) c q m (omega arith) found parent) (omega arith)

  -- Another menu is below exactly if its parent is.
  pub below-parent :
      (c q : ℕ) (m : Menu)
      → c ≢ id
      → get_by_id c rows ≡ some m
      → m.menu_parent_id ≡ some q
      → below c ≡ below q
  unfolding below
  below-parent c q m ne found parent = cc (climb_to_parent c q m ne found parent)

  pub below_of_ok : (f c : ℕ) → climb f id rows (some c) ≡ ok tt → below c ≡ false
  unfolding below
  below_of_ok f c e = ground (arith, climb_ok f (rounds_from forest c + 1) c (omega arith) e)
