-- ===== src/Migrations/Upgrade.antt =====
-- `alembic upgrade head` on an empty database.
use mathlib.Core.List.{Memᴰ}
use green_communuty_backend.Prelude.{
  Bool, true, false, not, ◌||◌, Option, none, some, List, [], ◌∷◌, ◌≡◌, refl, inl, inr, arith,
  is_some, sym, ◌∙◌, ap, Option-cases,
}
use green_communuty_backend.Core.Action.{ok}
use green_communuty_backend.Migrations.Catalog.{Catalog}
use green_communuty_backend.Migrations.Operations.{Revision}
use green_communuty_backend.Migrations.Tables.{has}
use green_communuty_backend.Migrations.Ddl.{ddl_all}
use green_communuty_backend.Migrations.Metadata.{Model, create_all}
use green_communuty_backend.Migrations.Declared.{
  comment_model, menu_model, post_model, post_image_model, post_like_model, report_model,
  user_model, user_sanction_model, registered,
}
use green_communuty_backend.Migrations.Same.{same_catalog, same_catalog→eq}
use green_communuty_backend.Migrations.Versions.Later.{add_post_is_notice}
use green_communuty_backend.Migrations.Revisions.{
  versions, ids, ready, Database, IsMysql, invoke_all, Upgrading,
}
use green_communuty_backend.Migrations.Orders.{
  after, each, each-mem, passes, or_true, Upgrading-passes,
}
use green_communuty_backend.Migrations.Carried.{invoke_all-carries, Upgrading-after}

goes_on : List Revision → Bool
unfolding each after ready versions
goes_on applied =
    each (λ (r : Revision). not (ready applied r) || is_some (after (r ∷ applied))) versions

goes_on_always : passes 11 goes_on ≡ true
unfolding passes goes_on
goes_on_always = refl

-- The models that have a migration, and those that have none.
unfoldable pub migrated : List Model
unfolding comment_model menu_model post_model post_image_model post_like_model user_model
migrated =
    comment_model ∷ menu_model ∷ post_model ∷ post_image_model ∷ post_like_model ∷ user_model ∷ []

unfoldable pub unmigrated : List Model
unfolding report_model user_sanction_model
unmigrated = report_model ∷ user_sanction_model ∷ []

matches : Option Catalog → Option Catalog → Bool
unfolding same_catalog
matches none d = false
matches (some c) none = false
matches (some c) (some d) = same_catalog c d

at_head : List Revision → Bool
unfolding has ids after ddl_all create_all migrated matches add_post_is_notice
at_head applied =
    not (has add_post_is_notice.revision (ids applied))
    || matches (after applied) (ddl_all (create_all migrated) [])

at_head_always : passes 11 at_head ≡ true
unfolding passes at_head
at_head_always = refl

completed : Option Catalog → Option Catalog
completed none = none
completed (some c) = ddl_all (create_all unmigrated) c

complete :
    (is_some (completed (ddl_all (create_all migrated) [])) ≡ true)
    × (completed (ddl_all (create_all migrated) []) ≡ ddl_all (create_all registered) [])
unfolding completed ddl_all create_all migrated unmigrated registered
complete = (refl, refl)

matches→eq : (o p : Option Catalog) → matches o p ≡ true → o ≡ p
unfolding matches
matches→eq none p h = cc
matches→eq (some c) none h = cc
matches→eq (some c) (some d) h = ap some (same_catalog→eq c d h)

module _ (D : Database) (mysql : IsMysql D) {start : D.Connection} (empty : D.reads start ≡ [])
    {applied : List Revision} {s : D.Connection} (u : Upgrading D start applied s) where
  after_next : (r : Revision) → after (r ∷ applied) ≡ ddl_all r.upgrade (D.reads s)
  unfolding after ddl_all
  after_next r = rw (Upgrading-after D mysql empty u, after) refl

  -- The schema after the next migration.
  pub next_catalog :
      (r : Revision)
      → Memᴰ r versions
      → ready applied r ≡ true
      → (c : Catalog) × (after (r ∷ applied) ≡ some c) × (ddl_all r.upgrade (D.reads s) ≡ some c)
  unfolding goes_on
  next_catalog r m is_ready =
      let further = Upgrading-passes D goes_on applied goes_on_always u in
      let carried =
        or_true (ready applied r) (is_some (after (r ∷ applied)))
          (each-mem (λ (q : Revision). not (ready applied q) || is_some (after (q ∷ applied))) r
            versions further m)
          is_ready in
      elim (Option-cases (after (r ∷ applied))) [
        | inl refused ↦ absurd (ground arith)
        | inr (c, e) ↦ (c, e, sym (after_next r) ∙ e)
      ]

  -- On a MySQL without tables at first (one that drops the index it made for a foreign key once
  -- another serves), in every order that the migrations' `down_revision` allows, MySQL refuses no statement of the migration that comes next: its `upgrade` returns.
  pub upgrade-proceeds :
      (r : Revision)
      → Memᴰ r versions
      → ready applied r ≡ true
      → (invoke_all D r.upgrade s).0 ≡ ok tt
  upgrade-proceeds r m is_ready =
      let (c, _, e) = next_catalog r m is_ready in (invoke_all-carries D mysql r.upgrade s c e).0

  head-reads :
      has add_post_is_notice.revision (ids applied) ≡ true
      → ddl_all (create_all migrated) [] ≡ some (D.reads s)
  unfolding at_head
  head-reads head =
      sym (
        matches→eq (after applied) (ddl_all (create_all migrated) []) (
          or_true (has add_post_is_notice.revision (ids applied))
            (matches (after applied) (ddl_all (create_all migrated) []))
            (Upgrading-passes D at_head applied at_head_always u) head))
      ∙ Upgrading-after D mysql empty u

  -- On a MySQL without tables at first (one that drops the index it made for a foreign key once
  -- another serves), in every order that the migrations' `down_revision` allows, once the last migration is applied the schema is the one that creating the tables of all models but
  -- Report and UserSanction would give, columns, types, defaults, comments, keys and indexes
  -- included; and creating the tables of these two on top gives what creating those of all
  -- registered models gives.
  pub upgrade_head-create_all :
      has add_post_is_notice.revision (ids applied) ≡ true
      → (ddl_all (create_all migrated) [] ≡ some (D.reads s))
        × (is_some (ddl_all (create_all unmigrated) (D.reads s)) ≡ true)
        × (ddl_all (create_all unmigrated) (D.reads s) ≡ ddl_all (create_all registered) [])
  unfolding completed
  upgrade_head-create_all head =
      let e = head-reads head in
      let (there, whole) = complete in
      (e, ap (λ o. is_some (completed o)) (sym e) ∙ there, ap completed (sym e) ∙ whole)
