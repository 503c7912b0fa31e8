-- ===== src/Menus/Service.antt =====
-- app/modules/menus/menu_service.py
use green_communuty_backend.Prelude.{
  ℕ, zero, suc, String, Bool, true, false, ◌||◌, not, Option, none, some, List, [], ◌∷◌, ◌==◌,
  opt_eq, str_eq, if◌then◌else◌,
}
use green_communuty_backend.Core.Errors.{bad_request, not_found, conflict, diverged}
use green_communuty_backend.Core.Action.{
  Action, Result, ok, err, ◌>>=◌, ◌>>◌, gets, pure, lift, modify, raise_if, ◌and_then◌,
}
use green_communuty_backend.Core.Session.{Engine}
use green_communuty_backend.Models.{Menu}
use green_communuty_backend.Menus.Repository.{
  get_by_id, list_children, exists_by_id, exists_by_parent_and_name, add, flush_changes,
}

-- app/modules/menus/menu_schemas.py
pub record MenuCreate : Type 0 where
  pub menu_name : String
  pub menu_parent_id : Option ℕ

-- The outer `none` of a field is a field that was not sent. A name that is sent as null is not
-- modelled: the column refuses it.
pub record MenuUpdate : Type 0 where
  pub menu_name : Option String
  pub menu_parent_id : Option (Option ℕ)

abbrev pub found_menu : Option Menu → Result Menu
found_menu none = err not_found
found_menu (some m) = ok m

-- `_get_or_404`
unfoldable pub get_or_404 : ℕ → List Menu → Result Menu
get_or_404 id rows = found_menu (get_by_id id rows)

-- `_ensure_parent_exists`
unfoldable pub ensure_parent_exists : Option ℕ → List Menu → Result (Unit {0})
ensure_parent_exists none rows = ok tt
ensure_parent_exists (some p) rows = raise_if (not (exists_by_id p rows)) not_found

-- The `while` loop of `_ensure_not_own_descendant`, from the cursor upwards.
unfoldable pub climb : ℕ → ℕ → List Menu → Option ℕ → Result (Unit {0})
climb fuel id rows none = ok tt
climb zero id rows (some cursor) = err diverged
climb (suc fuel) id rows (some cursor) = elim (cursor == id) [
  | true ↦ err bad_request
  | false ↦ elim (get_by_id cursor rows) [
    | none ↦ ok tt
    | some parent ↦ climb fuel id rows parent.menu_parent_id
  ]
]

-- `_ensure_not_own_descendant`
unfoldable pub ensure_not_own_descendant : ℕ → ℕ → ℕ → List Menu → Result (Unit {0})
unfolding climb
ensure_not_own_descendant fuel id parent rows =
    raise_if (id == parent) bad_request and_then climb fuel id rows (some parent)

-- The checks of a parent that was sent: none for null.
unfoldable pub ensure_new_parent : ℕ → ℕ → Option (Option ℕ) → List Menu → Result (Unit {0})
unfolding ensure_parent_exists ensure_not_own_descendant
ensure_new_parent fuel id none rows = ok tt
ensure_new_parent fuel id (some none) rows = ok tt
ensure_new_parent fuel id (some (some p)) rows =
    ensure_parent_exists (some p) rows and_then ensure_not_own_descendant fuel id p rows

-- `data.get(field, old)`
abbrev pub sent_or {ℓ} : {A : Type ℓ} → Option A → A → A
sent_or none old = old
sent_or (some new) old = new

-- `setattr` for each field that was sent
abbrev pub apply_update : MenuUpdate → Menu → Menu
apply_update payload m = record m {
  menu_name = sent_or payload.menu_name m.menu_name;
  menu_parent_id = sent_or payload.menu_parent_id m.menu_parent_id;
}

abbrev pub set_deleted : ℕ → Menu → Menu
set_deleted now m = record m { deleted_at = some now }

module _ (E : Engine) where
  open E use {Session, live, commit}

  -- `_ensure_name_available`
  unfoldable pub ensure_name_available : Option ℕ → String → List Menu → Result (Unit {0})
  ensure_name_available parent name rows =
      raise_if (exists_by_parent_and_name E parent name rows) conflict

  -- The two checks of `create`, in its order.
  unfoldable pub check_create : MenuCreate → List Menu → Result (Unit {0})
  unfolding ensure_parent_exists ensure_name_available
  check_create payload rows =
      ensure_parent_exists payload.menu_parent_id rows
      and_then ensure_name_available payload.menu_parent_id payload.menu_name rows

  unfoldable pub create : MenuCreate → Action Session Menu
  create payload = do
    t ← gets live
    lift (check_create payload t.menus)
    menu ← add E (λ id. record {
      menu_id = id;
      menu_name = payload.menu_name;
      menu_parent_id = payload.menu_parent_id;
      deleted_at = none;
    })
    modify commit
    pure menu

  -- The name is checked only if the place or the name changes.
  unfoldable pub check_name_change : Menu → Menu → List Menu → Result (Unit {0})
  unfolding ensure_name_available
  check_name_change old new rows =
      if not (opt_eq new.menu_parent_id old.menu_parent_id)
        || not (str_eq new.menu_name old.menu_name)
      then ensure_name_available new.menu_parent_id new.menu_name rows
      else ok tt

  -- The checks of `update` on the loaded menu, in its order.
  unfoldable pub check_update : ℕ → ℕ → MenuUpdate → List Menu → Menu → Result (Unit {0})
  unfolding ensure_new_parent check_name_change
  check_update fuel id payload rows menu =
      ensure_new_parent fuel id payload.menu_parent_id rows
      and_then check_name_change menu (apply_update payload menu) rows

  unfoldable pub update : ℕ → ℕ → MenuUpdate → Action Session Menu
  update fuel id payload = do
    t ← gets live
    menu ← lift (get_or_404 id t.menus)
    lift (check_update fuel id payload t.menus menu)
    flush_changes E id (apply_update payload)
    modify commit
    pure (apply_update payload menu)

  abbrev pub has_children : ℕ → List Menu → Bool
  has_children id rows = elim (list_children (some id) rows) [ [] ↦ false | _ ∷ _ ↦ true ]

  unfoldable pub delete : ℕ → ℕ → Action Session (Unit {0})
  delete now id = do
    t ← gets live
    lift (get_or_404 id t.menus)
    lift (raise_if (has_children id t.menus) bad_request)
    flush_changes E id (set_deleted now)
    modify commit
