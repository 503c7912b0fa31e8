-- ===== src/Menus/Keeps.antt =====
-- `create` of app/modules/menus/menu_service.py and what makes menus valid.
use green_communuty_backend.Prelude.{
  ℕ, String, ◌<◌, All, ◌≡◌, refl, ◌∙◌, true, false, inl, inr, Option, Bool-cases, none, some, List,
  [], ◌∷◌, ◌++◌, map, ◌==◌, opt_eq_refl, is_some, if◌then◌else◌, arith,
}
use green_communuty_backend.Core.Action.{ok, Result-cases}
use green_communuty_backend.Core.Session.{Engine, flush}
use green_communuty_backend.Core.Session.Holds.{Holds, Holds-write_commit}
use green_communuty_backend.Models.{Menu, Tables}
use green_communuty_backend.Menus.Repository.{get_by_id, has_name, exists_by_parent_and_name, add}
use green_communuty_backend.Menus.Service.{
  MenuCreate, ensure_parent_exists, ensure_name_available, check_create, create,
}
use green_communuty_backend.Menus.Lookup.{
  get_by_id-append, unused_id, exists_by_id-eq, found-not-counted, found-is_active,
}
use green_communuty_backend.Menus.Invariant.{
  IsValid, Sets, IsRooted-set, HasUniqueNames-set, IsForest-set_new,
}

pub parent_found :
    (rows : List Menu) (parent : Option ℕ) (p : ℕ)
    → ensure_parent_exists parent rows ≡ ok tt
    → parent ≡ some p
    → is_some (get_by_id p rows) ≡ true
unfolding ensure_parent_exists
parent_found rows parent p passed e = ground (arith, exists_by_id-eq p rows)

if_swap : (a b : ℕ) (m n : Option Menu) → (if a == b then m else n) ≡ (if b == a then m else n)
if_swap a b m n = ground arith

module _ (E : Engine) where
  pub name_free :
      (rows : List Menu) (parent : Option ℕ) (name : String) (a : ℕ) (m : Menu)
      → ensure_name_available E parent name rows ≡ ok tt
      → get_by_id a rows ≡ some m
      → m.menu_parent_id ≡ parent
      → E.text_equal m.menu_name name ≡ false
  unfolding ensure_name_available exists_by_parent_and_name
  name_free rows parent name a m passed found same = ground (
    arith,
    found-not-counted a (has_name E parent name) rows m,
    found-is_active a rows m found,
    opt_eq_refl parent,
  )

  module _ (payload : MenuCreate) (rows : List Menu)
      (passed : check_create E payload rows ≡ ok tt) where
    create_parent : (p : ℕ) → payload.menu_parent_id ≡ some p → is_some (get_by_id p rows) ≡ true
    unfolding check_create
    create_parent p e = ground (arith, parent_found rows payload.menu_parent_id p)

    create_name :
        (a : ℕ) (m : Menu)
        → get_by_id a rows ≡ some m
        → m.menu_parent_id ≡ payload.menu_parent_id
        → E.text_equal m.menu_name payload.menu_name ≡ false
    unfolding check_create
    create_name a m found same =
        ground (arith, name_free rows payload.menu_parent_id payload.menu_name a m)

  abbrev draft : MenuCreate → ℕ → Menu
  draft payload id = record {
    menu_id = id;
    menu_name = payload.menu_name;
    menu_parent_id = payload.menu_parent_id;
    deleted_at = none;
  }

  created-Sets :
      (payload : MenuCreate) (rows : List Menu) (id : ℕ)
      → All (λ i. i < id) (map (λ m. m.menu_id) rows)
      → Sets id (draft payload id) rows (rows ++ draft payload id ∷ [])
  created-Sets payload rows id fresh x =
      get_by_id-append x (draft payload id) rows fresh refl ∙ if_swap id x _ _

  created-IsValid :
      (payload : MenuCreate) (rows : List Menu) (id : ℕ)
      → All (λ i. i < id) (map (λ m. m.menu_id) rows)
      → check_create E payload rows ≡ ok tt
      → IsValid E rows
      → IsValid E (rows ++ draft payload id ∷ [])
  created-IsValid payload rows id fresh passed v =
      let new = draft payload id in
      let set = created-Sets payload rows id fresh in
      let parent = create_parent payload rows passed in
      record {
        forest =
            IsForest-set_new id new rows _ set v.forest v.rooted (unused_id id rows fresh) parent;
        rooted = IsRooted-set id new rows _ set v.rooted parent;
        names =
            HasUniqueNames-set id new rows _ set E v.names
              (λ a m _. create_name payload rows passed a m);
      }

  abbrev new_id : E.Session → ℕ
  new_id s = E.next_id (map (λ m. m.menu_id) (E.live s).menus) s

  abbrev stored : MenuCreate → E.Session → Tables
  stored payload s = record (E.live s) { menus = (E.live s).menus ++ draft payload (new_id s) ∷ [] }

  abbrev pub MenusValid : Tables → Type 0
  MenusValid t = IsValid E t.menus

  -- If the menus are valid in what the session sees and in what is committed, they are valid in
  -- both after `create`, whether it returns or raises.
  pub create-MenusValid :
      (payload : MenuCreate) (s : E.Session)
      → Holds E MenusValid s
      → Holds E MenusValid (create E payload s).1
  unfolding create add flush
  create-MenusValid payload s h = elim (Result-cases (check_create E payload (E.live s).menus)) [
    | inr (e, refused) ↦ rw refused h
    | inl (done, passed) ↦ elim (Bool-cases (E.accepts (stored payload s) s)) [
      | inr rejected ↦ rw (passed, rejected) h
      | inl taken ↦
          rw (passed, taken)
            (Holds-write_commit E MenusValid (stored payload s) s (
              created-IsValid payload (E.live s).menus (new_id s) (E.next_id_fresh _ s) passed
                h.live))
    ]
  ]
