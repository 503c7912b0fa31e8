-- ===== src/Menus/Moves.antt =====
-- `update` and `delete` of app/modules/menus/menu_service.py and what makes menus valid.
use green_communuty_backend.Prelude.{
  ℕ, ◌≡◌, ◌≢◌, refl, true, false, inl, inr, Option-cases, Bool-cases, some, List, update, ◌==◌,
  opt_eq_refl, opt_eq→eq, eq_iff, is_some, arith, select-nil,
}
use green_communuty_backend.Core.Action.{ok, Result-cases}
use green_communuty_backend.Core.Session.{Engine, flush}
use green_communuty_backend.Core.Session.Holds.{Holds, Holds-write_commit}
use green_communuty_backend.Models.{Menu, Tables}
use green_communuty_backend.Menus.Repository.{
  get_by_id, has_id, has_parent, list_children, flush_changes,
}
use green_communuty_backend.Menus.Service.{
  MenuUpdate, ensure_new_parent, check_name_change, check_update, apply_update, set_deleted,
  has_children, get_or_404, update as update_menu, delete,
}
use green_communuty_backend.Menus.Lookup.{
  get_by_id-update, get_by_id-delete, get_by_id-eq-first, found-is_active,
}
use green_communuty_backend.Menus.Forest.{IsForest, below, below_of_ok}
use green_communuty_backend.Menus.Invariant.{
  IsValid, Sets, IsRooted-set, HasUniqueNames-set, IsForest-set_kept, IsForest-set_moved,
  IsValid-remove,
}
use green_communuty_backend.Menus.Keeps.{MenusValid, parent_found, name_free}

-- A parent that was sent and accepted is active, and is not below the menu.
new_parent_outside :
    (fuel j p : ℕ) (rows : List Menu) (f : IsForest rows)
    → ensure_new_parent fuel j (some (some p)) rows ≡ ok tt
    → (is_some (get_by_id p rows) ≡ true) × (below j rows f p ≡ false)
unfolding ensure_new_parent
new_parent_outside fuel j p rows f passed =
    ground (arith, parent_found rows (some p) p, below_of_ok j rows f fuel p)

module _ (E : Engine) (fuel j : ℕ) (payload : MenuUpdate) (rows : List Menu) (old : Menu) where
  module _ (v : IsValid E rows) (found : get_by_id j rows ≡ some old)
      (passed : check_update E fuel j payload rows old ≡ ok tt) where
    updated_name :
        (a : ℕ) (m : Menu)
        → a ≢ j
        → get_by_id a rows ≡ some m
        → m.menu_parent_id ≡ (apply_update payload old).menu_parent_id
        → E.text_equal m.menu_name (apply_update payload old).menu_name ≡ false
    unfolding check_update check_name_change
    updated_name a m other fa same =
        let new = apply_update payload old in
        ground (
          arith,
          name_free E rows new.menu_parent_id new.menu_name a m,
          opt_eq→eq new.menu_parent_id old.menu_parent_id,
          eq_iff new.menu_name old.menu_name,
          v.names.unique a j m old,
        )

    updated_parent :
        (p : ℕ)
        → (apply_update payload old).menu_parent_id ≡ some p
        → is_some (get_by_id p rows) ≡ true
    unfolding check_update
    updated_parent p e = elim (Option-cases payload.menu_parent_id) [
      | inl kept ↦ ground (arith, v.rooted.parent_active j p old)
      | inr (sent, is_sent) ↦ ground (arith, new_parent_outside fuel j p rows v.forest)
    ]

    updated-Sets :
        Sets j
          (apply_update payload old)
          rows
          (update (λ m. m.menu_id == j) (apply_update payload) rows)
    updated-Sets id =
        get_by_id-update id j (apply_update payload) rows (λ m. refl) (λ m. refl) found

    updated-IsForest : IsForest (update (λ m. m.menu_id == j) (apply_update payload) rows)
    unfolding check_update
    updated-IsForest = elim (Option-cases payload.menu_parent_id) [
      | inl kept ↦
          IsForest-set_kept j (apply_update payload old) rows _ updated-Sets v.forest found
            (ground arith)
      | inr (sent, is_sent) ↦
          IsForest-set_moved j (apply_update payload old) rows _ updated-Sets v.forest found
            (λ p e. ground (arith, new_parent_outside fuel j p rows v.forest))
    ]

    updated-IsValid : IsValid E (update (λ m. m.menu_id == j) (apply_update payload) rows)
    updated-IsValid =
        let new = apply_update payload old in
        record {
          forest = updated-IsForest;
          rooted = IsRooted-set j new rows _ updated-Sets v.rooted updated_parent;
          names = HasUniqueNames-set j new rows _ updated-Sets E v.names updated_name;
        }

childless :
    (E : Engine) (j : ℕ) (rows : List Menu)
    → has_children E j rows ≡ false
    → (id : ℕ) (m : Menu) → get_by_id id rows ≡ some m
    → m.menu_parent_id ≢ some j
unfolding list_children
childless E j rows h id m found is_child = ground (
  arith,
  select-nil (has_parent (some j)) (has_id id) rows m,
  get_by_id-eq-first id rows,
  found-is_active id rows m found,
  opt_eq_refl (some j),
)

module _ (E : Engine) where
  deleted-IsValid :
      (now j : ℕ) (rows : List Menu)
      → IsValid E rows
      → has_children E j rows ≡ false
      → IsValid E (update (λ m. m.menu_id == j) (set_deleted now) rows)
  deleted-IsValid now j rows v no_children =
      IsValid-remove E j rows _
        (λ id. get_by_id-delete id j (set_deleted now) rows (λ m. refl) (λ m. refl)) v
        (childless E j rows no_children)

  abbrev changed : ℕ → (Menu → Menu) → E.Session → Tables
  changed j f s = record (E.live s) { menus = update (λ m. m.menu_id == j) f (E.live s).menus }

  -- If the menus are valid (no cycle of parents, every active menu's parent active, no two active
  -- siblings with equal names) in what the session sees and in what is committed, they are valid
  -- in both after `update`, on any fuel and any payload, whether it returns or raises.
  pub update-MenusValid :
      (fuel j : ℕ) (payload : MenuUpdate) (s : E.Session)
      → Holds E (MenusValid E) s
      → Holds E (MenusValid E) (update_menu E fuel j payload s).1
  unfolding update_menu get_or_404 flush_changes flush
  update-MenusValid fuel j payload s h = elim (Option-cases (get_by_id j (E.live s).menus)) [
    | inl absent ↦ rw absent h
    | inr (old, found) ↦ elim (Result-cases (check_update E fuel j payload (E.live s).menus old)) [
      | inr (e, refused) ↦ rw (found, refused) h
      | inl (done, passed) ↦ elim (Bool-cases (E.accepts (changed j (apply_update payload) s) s)) [
        | inr rejected ↦ rw (found, passed, rejected) h
        | inl taken ↦
            rw (found, passed, taken)
              (Holds-write_commit E (MenusValid E) (changed j (apply_update payload) s) s
                (updated-IsValid E fuel j payload (E.live s).menus old h.live found passed))
      ]
    ]
  ]

  -- If the menus are valid in what the session sees and in what is committed, they are valid in
  -- both after `delete`, whether it returns or raises.
  pub delete-MenusValid :
      (now j : ℕ) (s : E.Session)
      → Holds E (MenusValid E) s
      → Holds E (MenusValid E) (delete E now j s).1
  unfolding delete get_or_404 flush_changes flush
  delete-MenusValid now j s h = elim (Option-cases (get_by_id j (E.live s).menus)) [
    | inl absent ↦ rw absent h
    | inr (old, found) ↦ elim (Bool-cases (has_children E j (E.live s).menus)) [
      | inl parent ↦ rw (found, parent) h
      | inr no_children ↦ elim (Bool-cases (E.accepts (changed j (set_deleted now) s) s)) [
        | inr rejected ↦ rw (found, no_children, rejected) h
        | inl taken ↦
            rw (found, no_children, taken)
              (Holds-write_commit E (MenusValid E) (changed j (set_deleted now) s) s
                (deleted-IsValid now j (E.live s).menus h.live no_children))
      ]
    ]
  ]
