-- ===== src/Examples/Content.antt =====
-- Menus, posts, comments, reports and pages at concrete inputs.
use green_communuty_backend.Prelude.{
  ℕ, suc, ◌+◌, ◌*◌, ◌≤◌, ◌<◌, ◌≡◌, ◌≢◌, ◌↔◌, none, some, List, [], ◌∷◌, one_or_none, select, arith,
}
use green_communuty_backend.Core.Errors.{bad_request, diverged}
use green_communuty_backend.Core.Action.{err}
use green_communuty_backend.Core.Session.Holds.{Holds}
use green_communuty_backend.Core.Pagination.{PageParams, IsAccepted, total_pages}
use green_communuty_backend.Core.Pagination.Bounds.{total_pages_bounds}
use green_communuty_backend.Models.{Menu}
use green_communuty_backend.Menus.Repository as MenuRepository
use green_communuty_backend.Menus.Service as MenuService
use green_communuty_backend.Menus.Service.{MenuCreate, MenuUpdate}
use green_communuty_backend.Menus.Keeps.{MenusValid, create-MenusValid}
use green_communuty_backend.Menus.Moves.{update-MenusValid}
use green_communuty_backend.Menus.Descent.{Below, ensure_not_own_descendant_iff, update-ends}
use green_communuty_backend.Menus.Tree as MenuTree
use green_communuty_backend.Menus.Tree.{get_tree-lists, has_no_node, hangs_from, ids}
use green_communuty_backend.Menus.Forest.{IsForest, rounds_from}
use green_communuty_backend.Examples.Database.{State, permissive}
use green_communuty_backend.Examples.Rows.{opened, community}

pub opened-MenusValid : Holds permissive (MenusValid permissive) opened
unfolding MenuRepository.get_by_id select one_or_none
opened-MenusValid =
    let valid : MenusValid permissive community = record {
      forest = record { rank = λ id. 0; edge = λ id p m q h. ground arith };
      rooted = record { parent_active = λ id p m h. ground arith };
      names = record { unique = λ a b m n h. ground arith };
    } in
    record { live = valid; saved = valid }

abbrev news : MenuCreate
news = record { menu_name = "News"; menu_parent_id = none }

abbrev local_news : MenuCreate
local_news = record { menu_name = "Local"; menu_parent_id = some 1 }

-- The menus 1 and, below it, 2.
abbrev two_menus : State
two_menus =
    (MenuService.create permissive local_news (MenuService.create permissive news opened).1).1

two_menus-MenusValid : Holds permissive (MenusValid permissive) two_menus
two_menus-MenusValid =
    create-MenusValid permissive local_news (MenuService.create permissive news opened).1
      (create-MenusValid permissive news opened opened-MenusValid)

abbrev to_top : MenuUpdate
to_top = record { menu_name = none; menu_parent_id = some none }

update-MenusValid_example :
    Holds permissive (MenusValid permissive) (MenuService.update permissive 5 2 to_top two_menus).1
update-MenusValid_example = update-MenusValid permissive 5 2 to_top two_menus two_menus-MenusValid

update-ends_example : (MenuService.update permissive 1 2 to_top two_menus).0 ≢ err diverged
update-ends_example = update-ends permissive 1 2 to_top two_menus two_menus-MenusValid (omega arith)

abbrev menu_rows : List Menu
menu_rows = (permissive.live two_menus).menus

get_tree-lists_example :
    let menus = MenuRepository.list_all menu_rows in
    ((MenuTree.get_tree menu_rows).roots ≡ ids (select (has_no_node menus) menus))
    × ((q : ℕ) → (MenuTree.get_tree menu_rows).children q ≡ ids (select (hangs_from menus q) menus))
get_tree-lists_example = get_tree-lists menu_rows

-- 1 above 2: the new parent 2 of 1 stands below 1.
two_menus-IsForest : IsForest menu_rows
two_menus-IsForest = two_menus-MenusValid.live.forest

ensure_not_own_descendant_iff_example :
    (MenuService.ensure_not_own_descendant (suc (rounds_from two_menus-IsForest 2)) 1 2 menu_rows
      ≡ err bad_request)
    ↔ Below 1 menu_rows 2
ensure_not_own_descendant_iff_example =
    ensure_not_own_descendant_iff 1 menu_rows (suc (rounds_from two_menus-IsForest 2)) 2
      two_menus-IsForest (omega arith)

abbrev pages_of_two : PageParams
pages_of_two = record { page = 1; size = 2 }

pages_of_two-IsAccepted : IsAccepted pages_of_two
pages_of_two-IsAccepted = record {
  first_page = omega arith;
  some_rows = omega arith;
  bounded = omega arith;
}

total_pages_bounds_example :
    (5 ≤ total_pages 5 pages_of_two * 2) × (total_pages 5 pages_of_two * 2 < 5 + 2)
total_pages_bounds_example = total_pages_bounds 5 pages_of_two pages_of_two-IsAccepted

abbrev three : List ℕ
three = 1 ∷ 2 ∷ 3 ∷ []
