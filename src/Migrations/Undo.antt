-- ===== src/Migrations/Undo.antt =====
-- What a downgrade right after a migration does, tested in every order.
use mathlib.Core.Path.{subst}
use green_communuty_backend.Prelude.{
  String, Bool, true, false, not, ◌&&◌, ◌||◌, Option, none, some, List, ◌∷◌, ◌++◌, ◌≡◌, ◌≢◌, refl,
  inl, inr, arith, is_some, is_none, str_eq, Option-cases, eq_iff,
}
use green_communuty_backend.Migrations.Catalog.{update_all, ColumnInfo, TableInfo, Catalog}
use green_communuty_backend.Migrations.Operations.{Revision}
use green_communuty_backend.Migrations.Ddl.{ddl_all}
use green_communuty_backend.Migrations.Same.{same_catalog, same_catalog→eq}
use green_communuty_backend.Migrations.Versions.Initial.{create_initial_schema}
use green_communuty_backend.Migrations.Versions.PostNames.{add_post_view_count}
use green_communuty_backend.Migrations.Revisions.{versions, ready}
use green_communuty_backend.Migrations.Orders.{after, each, passes}

-- A schema without the defaults, comments and counters of its columns.
outline_column : ColumnInfo → ColumnInfo
outline_column c = record c { default = none; comment = none; autoincrement = false }

outline_table : TableInfo → TableInfo
unfolding outline_column update_all
outline_table t = record t { columns = update_all outline_column t.columns }

unfoldable pub outline : Catalog → Catalog
unfolding outline_table update_all
outline = update_all outline_table

-- The two migrations whose `downgrade` does not undo them.
unfoldable pub exempt : String → Bool
exempt id = str_eq id create_initial_schema.revision || str_eq id add_post_view_count.revision

unfoldable pub undoes : Revision → Option Catalog → Option Catalog → Bool
unfolding outline same_catalog ddl_all
undoes r none after_it = false
undoes r (some c) none = false
undoes r (some c) (some c') = elim (ddl_all r.downgrade c') [
  | none ↦ false
  | some d ↦ same_catalog (outline d) (outline c) && is_some (ddl_all r.upgrade d)
]

stuck_again : Revision → Option Catalog → Bool
unfolding ddl_all
stuck_again r none = true
stuck_again r (some c') = is_none (ddl_all (r.downgrade ++ r.upgrade) c')

unfoldable pub test_undo : List Revision → Revision → Bool
unfolding ready after undoes exempt create_initial_schema add_post_view_count
test_undo applied r =
    not (ready applied r) || (exempt r.revision || undoes r (after applied) (after (r ∷ applied)))

unfoldable pub goes_back : List Revision → Bool
unfolding each versions test_undo
goes_back applied = each (test_undo applied) versions

pub goes_back_always : passes 11 goes_back ≡ true
unfolding passes goes_back
goes_back_always = refl

unfoldable pub test_redo : List Revision → Revision → Bool
unfolding ready after stuck_again exempt create_initial_schema add_post_view_count
test_redo applied r =
    not (ready applied r) || (not (exempt r.revision) || stuck_again r (after (r ∷ applied)))

unfoldable pub gets_stuck : List Revision → Bool
unfolding each versions test_redo
gets_stuck applied = each (test_redo applied) versions

pub gets_stuck_always : passes 11 gets_stuck ≡ true
unfolding passes gets_stuck
gets_stuck_always = refl

stuck_again→ :
    (r : Revision) (c : Catalog)
    → stuck_again r (some c) ≡ true
    → ddl_all (r.downgrade ++ r.upgrade) c ≡ none
unfolding stuck_again
stuck_again→ r c h = elim (Option-cases (ddl_all (r.downgrade ++ r.upgrade) c)) [
  | inl e ↦ e
  | inr (d, e) ↦ absurd (ground arith)
]

pub undoes→ :
    (r : Revision) (c c' : Catalog)
    → undoes r (some c) (some c') ≡ true
    → (d : Catalog) × (ddl_all r.downgrade c' ≡ some d)
      × (outline d ≡ outline c)
      × (is_some (ddl_all r.upgrade d) ≡ true)
unfolding undoes
undoes→ r c c' h = elim (Option-cases (ddl_all r.downgrade c')) [
  | inl e ↦ absurd (ground arith)
  | inr (d, e) ↦ (d, e, same_catalog→eq (outline d) (outline c) (ground arith), ground arith)
]

pub exempt_others :
    (id : String)
    → id ≢ create_initial_schema.revision
    → id ≢ add_post_view_count.revision
    → exempt id ≡ false
unfolding exempt
exempt_others id not_initial not_count =
    ground (arith, eq_iff id create_initial_schema.revision, eq_iff id add_post_view_count.revision)

pub undone :
    (applied : List Revision) (r : Revision)
    → test_undo applied r ≡ true
    → ready applied r ≡ true
    → exempt r.revision ≡ false
    → undoes r (after applied) (after (r ∷ applied)) ≡ true
unfolding test_undo
undone applied r h is_ready other = ground arith

redo_stuck :
    (applied : List Revision) (r : Revision)
    → test_redo applied r ≡ true
    → ready applied r ≡ true
    → exempt r.revision ≡ true
    → stuck_again r (after (r ∷ applied)) ≡ true
unfolding test_redo
redo_stuck applied r h is_ready is_exempt = ground arith

pub refused_again :
    (applied : List Revision) (r : Revision) (c : Catalog)
    → test_redo applied r ≡ true
    → ready applied r ≡ true
    → exempt r.revision ≡ true
    → after (r ∷ applied) ≡ some c
    → ddl_all (r.downgrade ++ r.upgrade) c ≡ none
refused_again applied r c h is_ready is_exempt at =
    stuck_again→ r c
      (subst (λ o. stuck_again r o ≡ true) at (redo_stuck applied r h is_ready is_exempt))
