-- ===== src/Menus/Frame.antt =====
-- What the calls of app/modules/menus/menu_service.py leave alone: every property of the tables that does not depend on
-- the menus.
use green_communuty_backend.Prelude.{ℕ, inl, inr, Bool-cases, List}
use green_communuty_backend.Core.Action.{Result-cases, modify}
use green_communuty_backend.Core.Session.{Engine}
use green_communuty_backend.Core.Session.Holds.{Holds}
use green_communuty_backend.Core.Keeps.{
  Keeps, Keeps-bind, Keeps-flush, Keeps-commit, Keeps-flush-pure, Keeps-then_commit,
}
use green_communuty_backend.Models.{Menu, Tables}
use green_communuty_backend.Menus.Repository as Repository
use green_communuty_backend.Menus.Service.{
  MenuCreate, MenuUpdate, check_create, check_update, get_or_404, has_children, apply_update,
  set_deleted, create, update, delete,
}

module _ (E : Engine) (P : Tables → Type 0)
    (stable : (t : Tables) (rows : List Menu) → P t → P (record t { menus = rows })) where
  abbrev Kept : E.Session → Type 0
  Kept = Holds E P

  add-Keeps : (draft : ℕ → Menu) → Keeps Kept (Repository.add E draft)
  unfolding Repository.add
  add-Keeps draft s h = Keeps-flush-pure E P _ _ (stable (E.live s) _ h.live) s h

  changes-Keeps :
      (id : ℕ) (change : Menu → Menu) → Keeps Kept (Repository.flush_changes E id change)
  unfolding Repository.flush_changes
  changes-Keeps id change s h = Keeps-flush E P _ (stable (E.live s) _ h.live) s h

  pub create-Keeps : (payload : MenuCreate) → Keeps Kept (create E payload)
  unfolding create
  create-Keeps payload s h = elim (Result-cases (check_create E payload (E.live s).menus)) [
    | inr (e, refused) ↦ rw refused h
    | inl (done, passed) ↦
        rw passed (Keeps-then_commit E P (Repository.add E _) (add-Keeps _) (λ m. m) s h)
  ]

  pub update-Keeps : (fuel id : ℕ) (payload : MenuUpdate) → Keeps Kept (update E fuel id payload)
  unfolding update
  update-Keeps fuel id payload s h = elim (Result-cases (get_or_404 id (E.live s).menus)) [
    | inr (e, lost) ↦ rw lost h
    | inl (m, found) ↦ elim (Result-cases (check_update E fuel id payload (E.live s).menus m)) [
      | inr (e, refused) ↦ rw (found, refused) h
      | inl (done, passed) ↦
          rw (found, passed)
            (Keeps-then_commit E P (Repository.flush_changes E id (apply_update payload))
              (changes-Keeps id _) (λ _. apply_update payload m) s h)
    ]
  ]

  pub delete-Keeps : (now id : ℕ) → Keeps Kept (delete E now id)
  unfolding delete
  delete-Keeps now id s h = elim (Result-cases (get_or_404 id (E.live s).menus)) [
    | inr (e, lost) ↦ rw lost h
    | inl (m, found) ↦ elim (Bool-cases (has_children E id (E.live s).menus)) [
      | inl parent ↦ rw (found, parent) h
      | inr leaf ↦
          rw (found, leaf)
            (Keeps-bind Kept (Repository.flush_changes E id (set_deleted now))
              (λ _. modify E.commit) (changes-Keeps id _) (λ _. Keeps-commit E P) s h)
    ]
  ]
