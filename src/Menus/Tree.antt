-- ===== src/Menus/Tree.antt =====
-- `get_tree` of app/modules/menus/menu_service.py. The response objects are shared and filled in
-- place: a node is named by its menu's id, as in the dictionary `nodes`.
use green_communuty_backend.Prelude.{
  ℕ, ◌≡◌, sym, Bool, true, not, ◌&&◌, none, some, List, [], ◌∷◌, ◌++◌, map, select, first, ◌==◌,
  opt_eq, is_some, if◌then◌else◌, arith,
}
use mathlib.Core.List.{append-nil, append_assoc}
use green_communuty_backend.Models.{Menu}
use green_communuty_backend.Menus.Repository.{list_all}

pub record Nodes : Type 0 where
  pub children : ℕ → List ℕ
  pub roots : List ℕ

-- `parent_id in nodes`
abbrev pub in_nodes : List Menu → ℕ → Bool
in_nodes menus id = is_some (first (λ m. m.menu_id == id) menus)

abbrev add_child : ℕ → ℕ → Nodes → Nodes
add_child p id nodes = record nodes {
  children = λ q. if q == p then nodes.children q ++ id ∷ [] else nodes.children q;
}

abbrev add_root : ℕ → Nodes → Nodes
add_root id nodes = record nodes { roots = nodes.roots ++ id ∷ [] }

-- One round of the loop.
unfoldable pub place : List Menu → Nodes → Menu → Nodes
place menus nodes m = elim m.menu_parent_id [
  | none ↦ add_root m.menu_id nodes
  | some p ↦ if in_nodes menus p then add_child p m.menu_id nodes else add_root m.menu_id nodes
]

unfoldable pub place_all : List Menu → Nodes → List Menu → Nodes
unfolding place
place_all menus nodes [] = nodes
place_all menus nodes (m ∷ rest) = place_all menus (place menus nodes m) rest

unfoldable pub get_tree : List Menu → Nodes
unfolding place_all list_all
get_tree rows =
    let menus = list_all rows in place_all menus (record { children = λ _. []; roots = [] }) menus

abbrev pub ids : List Menu → List ℕ
ids menus = map (λ m. m.menu_id) menus

-- The menu's parent is none of the listed menus.
abbrev pub has_no_node : List Menu → Menu → Bool
has_no_node menus m = elim m.menu_parent_id [ none ↦ true | some p ↦ not (in_nodes menus p) ]

abbrev pub hangs_from : List Menu → ℕ → Menu → Bool
hangs_from menus p m = opt_eq m.menu_parent_id (some p) && in_nodes menus p

-- What one menu adds to a list of ids.
abbrev one_if : Bool → Menu → List ℕ
one_if b m = if b then m.menu_id ∷ [] else []

ids-select :
    (p : Menu → Bool) (m : Menu) (rest : List Menu)
    → ids (select p (m ∷ rest)) ≡ one_if (p m) m ++ ids (select p rest)
unfolding select
ids-select p m rest = ground arith

place-roots :
    (menus : List Menu) (nodes : Nodes) (m : Menu)
    → (place menus nodes m).roots ≡ nodes.roots ++ one_if (has_no_node menus m) m
unfolding place
place-roots menus nodes m = ground (arith, append-nil nodes.roots)

place-children :
    (menus : List Menu) (nodes : Nodes) (m : Menu) (q : ℕ)
    → (place menus nodes m).children q ≡ nodes.children q ++ one_if (hangs_from menus q m) m
unfolding place
place-children menus nodes m q = ground (arith, append-nil (nodes.children q))

place_all-roots :
    (menus rest : List Menu) (nodes : Nodes)
    → (place_all menus nodes rest).roots ≡ nodes.roots ++ ids (select (has_no_node menus) rest)
unfolding place_all select
place_all-roots menus [] nodes = sym (append-nil _)
place_all-roots menus (m ∷ rest) nodes =
    simp (place_all-roots menus rest, place-roots, ids-select, append_assoc)

place_all-children :
    (menus rest : List Menu) (nodes : Nodes) (q : ℕ)
    → (place_all menus nodes rest).children q
      ≡ nodes.children q ++ ids (select (hangs_from menus q) rest)
unfolding place_all select
place_all-children menus [] nodes q = sym (append-nil _)
place_all-children menus (m ∷ rest) nodes q =
    simp (place_all-children menus rest, place-children, ids-select, append_assoc)

-- The roots that `get_tree` builds are the active menus whose parent is none of the active menus,
-- and the children of each node are the active menus that name it as their parent and find it
-- among the active menus, both in the order of `list_all`.
pub get_tree-lists :
    (rows : List Menu)
    → let menus = list_all rows in
      ((get_tree rows).roots ≡ ids (select (has_no_node menus) menus))
      × ((q : ℕ) → (get_tree rows).children q ≡ ids (select (hangs_from menus q) menus))
unfolding get_tree
get_tree-lists rows =
    let menus = list_all rows in
    (place_all-roots menus menus _, λ q. place_all-children menus menus _ q)
