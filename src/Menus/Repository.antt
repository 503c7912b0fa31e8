-- ===== src/Menus/Repository.antt =====
-- app/modules/menus/menu_repository.py: the queries, over the rows that the session sees.
use green_communuty_backend.Prelude.{
  ℕ, zero, String, Bool, false, ◌&&◌, ◌||◌, not, Option, none, some, List, ◌++◌, [], ◌∷◌, map,
  select, one_or_none, count, sort_by, update, ltb, ◌==◌, opt_eq, is_none,
}
use green_communuty_backend.Core.Action.{Action, ◌>>=◌, ◌>>◌, gets, pure}
use green_communuty_backend.Core.Session.{Engine, flush}
use green_communuty_backend.Models.{Menu}

-- `_active`
abbrev pub is_active : Menu → Bool
is_active m = is_none m.deleted_at

abbrev pub has_id : ℕ → Menu → Bool
has_id id m = is_active m && m.menu_id == id

abbrev pub has_parent : Option ℕ → Menu → Bool
has_parent parent m = is_active m && opt_eq m.menu_parent_id parent

unfoldable pub get_by_id : ℕ → List Menu → Option Menu
get_by_id id rows = one_or_none (select (has_id id) rows)

-- MySQL sorts NULL before every number.
unfoldable pub parent_before : Menu → Menu → Bool
parent_before a b = elim a.menu_parent_id [
  | none ↦ not (is_none b.menu_parent_id) || ltb a.menu_id b.menu_id
  | some p ↦ elim b.menu_parent_id [
    | none ↦ false
    | some q ↦ ltb p q || (p == q && ltb a.menu_id b.menu_id)
  ]
]

unfoldable pub list_all : List Menu → List Menu
unfolding parent_before
list_all rows = sort_by parent_before (select is_active rows)

unfoldable pub list_children : Option ℕ → List Menu → List Menu
list_children parent rows = select (has_parent parent) rows

unfoldable pub exists_by_id : ℕ → List Menu → Bool
exists_by_id id rows = ltb zero (count (λ m. m.menu_id == id && is_active m) rows)

module _ (E : Engine) where
  open E use {Session, live, write, next_id, text_equal}

  abbrev pub has_name : Option ℕ → String → Menu → Bool
  has_name parent name m =
      opt_eq m.menu_parent_id parent && text_equal m.menu_name name && is_active m

  unfoldable pub exists_by_parent_and_name : Option ℕ → String → List Menu → Bool
  exists_by_parent_and_name parent name rows = ltb zero (count (has_name parent name) rows)

  -- `add` and the `flush` after it: the INSERT, with the id that the database gives.
  unfoldable pub add : (ℕ → Menu) → Action Session Menu
  add draft = do
    t ← gets live
    id ← gets (next_id (map (λ m. m.menu_id) t.menus))
    flush E (record t { menus = t.menus ++ draft id ∷ [] })
    pure (draft id)

  -- `flush` after the fields of one loaded menu were set.
  unfoldable pub flush_changes : ℕ → (Menu → Menu) → Action Session (Unit {0})
  flush_changes id change = do
    t ← gets live
    flush E (record t { menus = update (λ m. m.menu_id == id) change t.menus })
