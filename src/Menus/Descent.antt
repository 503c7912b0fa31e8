-- ===== src/Menus/Descent.antt =====
-- `_ensure_not_own_descendant` of app/modules/menus/menu_service.py and the relation "stands
-- below".
use green_communuty_backend.Prelude.{
  ℕ, zero, suc, ◌<◌, ◌≡◌, refl, ◌≢◌, ◌↔◌, inl, inr, Option, Option-cases, Bool-cases, none, some,
  List, ◌==◌, ==→eq, arith,
}
use green_communuty_backend.Core.Errors.{bad_request, diverged}
use green_communuty_backend.Core.Action.{err}
use green_communuty_backend.Core.Session.{Engine, flush}
use green_communuty_backend.Core.Session.Holds.{Holds}
use green_communuty_backend.Models.{Menu}
use green_communuty_backend.Menus.Repository.{get_by_id, flush_changes}
use green_communuty_backend.Menus.Service.{
  MenuUpdate, climb, ensure_not_own_descendant, ensure_new_parent, check_name_change, check_update,
  get_or_404, update,
}
use green_communuty_backend.Menus.Forest.{IsForest, rounds_from, climb_ends}
use green_communuty_backend.Menus.Keeps.{MenusValid}

-- `c` is the menu `id`, or its parent stands below `id`.
pub data Below (id : ℕ) (rows : List Menu) : ℕ → Type 0 where
  self : (c : ℕ) → c ≡ id → Below id rows c
  under :
      (c q : ℕ) (m : Menu)
      → get_by_id c rows ≡ some m
      → m.menu_parent_id ≡ some q
      → Below id rows q
      → Below id rows c

module _ (id : ℕ) (rows : List Menu) where
  climb_sound : (fuel c : ℕ) → climb fuel id rows (some c) ≡ err bad_request → Below id rows c
  unfolding climb
  climb_sound zero c h = cc
  climb_sound (suc fuel) c h = elim (Bool-cases (c == id)) [
    | inl e ↦ self c (==→eq c id e)
    | inr other ↦ elim (Option-cases (get_by_id c rows)) [
      | inl absent ↦ ground arith
      | inr (m, found) ↦ elim (Option-cases m.menu_parent_id) [
        | inl top ↦ ground arith
        | inr (q, parent) ↦ under c q m found parent (climb_sound fuel q (ground arith))
      ]
    ]
  ]

  climb_complete :
      (fuel c : ℕ)
      → Below id rows c
      → climb fuel id rows (some c) ≢ err diverged
      → climb fuel id rows (some c) ≡ err bad_request
  unfolding climb
  climb_complete zero c b h = absurd (h refl)
  climb_complete (suc fuel) c (self c' e) h = ground arith
  climb_complete (suc fuel) c (under c' q m found parent b) h =
      ground (arith, climb_complete fuel q b)

  -- Over menus without a cycle, with fuel above the depth of the new parent,
  -- `_ensure_not_own_descendant` raises a bad request exactly if the new parent is the menu itself
  -- or stands below it.
  pub ensure_not_own_descendant_iff :
      (fuel p : ℕ) (forest : IsForest rows)
      → rounds_from forest p < fuel
      → (ensure_not_own_descendant fuel id p rows ≡ err bad_request) ↔ Below id rows p
  unfolding ensure_not_own_descendant
  ensure_not_own_descendant_iff fuel p forest enough = (
    λ h. elim (Bool-cases (id == p)) [
      | inl e ↦ self p (ground arith)
      | inr other ↦ climb_sound fuel p (ground arith)
    ],
    λ b. ground (arith, climb_complete fuel p b (climb_ends id rows forest fuel p enough)),
  )

-- The rounds that the check of an update may need.
abbrev pub rounds_needed : {rows : List Menu} → IsForest rows → MenuUpdate → ℕ
rounds_needed forest payload = elim payload.menu_parent_id [
  | none ↦ 0
  | some sent ↦ elim sent [ none ↦ 0 | some p ↦ rounds_from forest p ]
]

ensure_new_parent_ends :
    (fuel id : ℕ) (rows : List Menu) (sent : Option (Option ℕ)) (forest : IsForest rows)
    → ((p : ℕ) → sent ≡ some (some p) → rounds_from forest p < fuel)
    → ensure_new_parent fuel id sent rows ≢ err diverged
unfolding ensure_new_parent
ensure_new_parent_ends fuel id rows none forest h = ground arith
ensure_new_parent_ends fuel id rows (some none) forest h = ground arith
ensure_new_parent_ends fuel id rows (some (some p)) forest h =
    ground (arith, climb_ends id rows forest fuel p, h p)

-- If the menus are valid and the fuel is above the depth of the new parent, `update` does not run
-- out of fuel: it returns or raises an error of its own.
pub update-ends :
    (E : Engine) (fuel id : ℕ) (payload : MenuUpdate) (s : E.Session)
    → (v : Holds E (MenusValid E) s) → rounds_needed v.live.forest payload < fuel
    → (update E fuel id payload s).0 ≢ err diverged
unfolding update check_update check_name_change get_or_404 flush_changes flush
update-ends E fuel id payload s v enough = ground (
  arith,
  ensure_new_parent_ends fuel id (E.live s).menus payload.menu_parent_id v.live.forest
      (λ p e. ground arith),
)
