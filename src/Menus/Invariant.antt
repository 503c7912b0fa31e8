-- ===== src/Menus/Invariant.antt =====
-- What makes a set of menus valid, and changes of the rows.
use green_communuty_backend.Prelude.{
  ℕ, ◌+◌, ◌≡◌, ◌≢◌, true, false, Option, none, some, List, ◌==◌, is_some, if◌then◌else◌, arith,
}
use green_communuty_backend.Core.Session.{Engine}
use green_communuty_backend.Models.{Menu}
use green_communuty_backend.Menus.Repository.{get_by_id}
use green_communuty_backend.Menus.Forest.{IsForest, below, below_self, below-parent}

-- Every active menu's parent is active.
pub record IsRooted (rows : List Menu) : Type 0 where
  pub parent_active :
      (id p : ℕ) (m : Menu)
      → get_by_id id rows ≡ some m
      → m.menu_parent_id ≡ some p
      → is_some (get_by_id p rows) ≡ true

-- No two active menus under one parent have names that the database finds equal.
pub record HasUniqueNames (E : Engine) (rows : List Menu) : Type 0 where
  pub unique :
      (a b : ℕ) (m n : Menu)
      → get_by_id a rows ≡ some m
      → get_by_id b rows ≡ some n
      → m.menu_parent_id ≡ n.menu_parent_id
      → E.text_equal m.menu_name n.menu_name ≡ true
      → a ≡ b

pub record IsValid (E : Engine) (rows : List Menu) : Type 0 where
  pub forest : IsForest rows
  pub rooted : IsRooted rows
  pub names : HasUniqueNames E rows

-- `rows'` has `new` as the menu `j`, and else the menus of `rows`.
abbrev pub Sets : ℕ → Menu → List Menu → List Menu → Type 0
Sets j new rows rows' =
    (id : ℕ) → get_by_id id rows' ≡ (if id == j then some new else get_by_id id rows)

-- `rows'` has the menus of `rows` without `j`.
abbrev pub Removes : ℕ → List Menu → List Menu → Type 0
Removes j rows rows' = (id : ℕ) → get_by_id id rows' ≡ (if id == j then none else get_by_id id rows)

module _ (j : ℕ) (new : Menu) (rows rows' : List Menu) (set : Sets j new rows rows') where
  pub IsRooted-set :
      IsRooted rows
      → ((p : ℕ) → new.menu_parent_id ≡ some p → is_some (get_by_id p rows) ≡ true)
      → IsRooted rows'
  IsRooted-set r ok_parent = record {
    parent_active =
        λ id p m found parent. ground (arith, set id, set p, r.parent_active id p m, ok_parent p);
  }

  pub HasUniqueNames-set :
      (E : Engine)
      → HasUniqueNames E rows
      → ((a : ℕ) (m : Menu)
          → a ≢ j
          → get_by_id a rows ≡ some m
          → m.menu_parent_id ≡ new.menu_parent_id
          → E.text_equal m.menu_name new.menu_name ≡ false)
      → HasUniqueNames E rows'
  HasUniqueNames-set E u free = record {
    unique = λ a b m n fa fb parents names. ground (
      arith,
      set a,
      set b,
      u.unique a b m n,
      free a m,
      free b n,
      E.text_equal_symm m.menu_name n.menu_name,
    );
  }

  -- A menu that nothing hangs from may stand under any active menu.
  pub IsForest-set_new :
      (f : IsForest rows)
      → IsRooted rows
      → get_by_id j rows ≡ none
      → ((p : ℕ) → new.menu_parent_id ≡ some p → is_some (get_by_id p rows) ≡ true)
      → IsForest rows'
  IsForest-set_new f r fresh ok_parent = record {
    rank = λ x. if x == j then rank_of new.menu_parent_id else f.rank x;
    edge = λ id p m q fm parent fq.
        ground (arith, set id, set p, f.edge id p m q, r.parent_active id p m, ok_parent p);
  }
    where
      rank_of : Option ℕ → ℕ
      rank_of none = 0
      rank_of (some p) = f.rank p + 1

  -- A menu that stays under its parent.
  pub IsForest-set_kept :
      (f : IsForest rows) {old : Menu}
      → get_by_id j rows ≡ some old
      → new.menu_parent_id ≡ old.menu_parent_id
      → IsForest rows'
  IsForest-set_kept f {old} found kept = record {
    rank = f.rank;
    edge = λ id p m q fm parent fq. ground (
      arith,
      set id,
      set p,
      f.edge id p m q,
      f.edge id p m old,
      f.edge id p old q,
      f.edge id p old old,
    );
  }

  -- A menu may be moved below any menu that is not below it.
  pub IsForest-set_moved :
      (f : IsForest rows) {old : Menu}
      → get_by_id j rows ≡ some old
      → ((p : ℕ) → new.menu_parent_id ≡ some p → below j rows f p ≡ false)
      → IsForest rows'
  IsForest-set_moved f {old} found outside = record {
    rank = λ x. if below j rows f x then f.rank x + lift_of new.menu_parent_id else f.rank x;
    edge = λ id p m q fm parent fq. ground (
      arith,
      set id,
      set p,
      f.edge id p m q,
      f.edge id p m old,
      outside p,
      below_self j rows f,
      below-parent j rows f id p m,
    );
  }
    where
      lift_of : Option ℕ → ℕ
      lift_of none = 0
      lift_of (some p) = f.rank p + 1

module _ (E : Engine) (j : ℕ) (rows rows' : List Menu) (removed : Removes j rows rows') where
  -- A menu without children may be removed.
  pub IsValid-remove :
      IsValid E rows
      → ((id : ℕ) (m : Menu) → get_by_id id rows ≡ some m → m.menu_parent_id ≢ some j)
      → IsValid E rows'
  IsValid-remove v childless = record {
    forest = record {
      rank = v.forest.rank;
      edge = λ id p m q fm parent fq. ground (arith, removed id, removed p, v.forest.edge id p m q);
    };
    rooted = record {
      parent_active = λ id p m fm parent.
          ground (arith, removed id, removed p, v.rooted.parent_active id p m, childless id m);
    };
    names = record {
      unique = λ a b m n fa fb parents names.
          ground (arith, removed a, removed b, v.names.unique a b m n);
    };
  }
