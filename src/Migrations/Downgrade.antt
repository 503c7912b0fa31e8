-- ===== src/Migrations/Downgrade.antt =====
-- `alembic downgrade -1`, right after a migration.
use mathlib.Core.List.{Memᴰ}
use green_communuty_backend.Prelude.{
  true, List, [], ◌++◌, ◌≡◌, ◌≢◌, inl, inr, arith, ◌∙◌, ap, Option-cases,
}
use green_communuty_backend.Core.Errors.{Error}
use green_communuty_backend.Core.Action.{ok, err}
use green_communuty_backend.Migrations.Operations.{Op, Revision}
use green_communuty_backend.Migrations.Ddl.{ddl_all}
use green_communuty_backend.Migrations.Versions.Initial.{create_initial_schema}
use green_communuty_backend.Migrations.Versions.PostNames.{add_post_view_count}
use green_communuty_backend.Migrations.Revisions.{
  versions, ready, Database, IsMysql, invoke_all, Upgrading,
}
use green_communuty_backend.Migrations.Orders.{each-mem, Upgrading-passes}
use green_communuty_backend.Migrations.Upgrade.{next_catalog}
use green_communuty_backend.Migrations.Carried.{
  invoke_all-carries, invoke_all-refuses, Upgrading-after,
}
use green_communuty_backend.Migrations.Undo.{
  outline, exempt, goes_back, goes_back_always, gets_stuck, gets_stuck_always, test_undo, test_redo,
  undoes→, exempt_others, undone, refused_again,
}

module _ (D : Database) (mysql : IsMysql D) {start : D.Connection} (empty : D.reads start ≡ [])
    {applied : List Revision} {s : D.Connection} (u : Upgrading D start applied s) where
  open D use {Connection, reads}

  abbrev pub migrate : List Op → Connection → Connection
  migrate ops t = (invoke_all D ops t).1

  -- On a MySQL without tables at first (one that drops the index it made for a foreign key once
  -- another serves), in every order that the migrations' `down_revision` allows, for every migration but the first and add_post_view_count: its `downgrade` right after
  -- its `upgrade` is carried out, leaves the tables with their columns, types, keys, indexes and
  -- foreign keys as they were before it (defaults, comments and auto increment aside), and its
  -- `upgrade` can then be carried out again.
  pub downgrade-restores :
      (r : Revision)
      → Memᴰ r versions
      → ready applied r ≡ true
      → r.revision ≢ create_initial_schema.revision
      → r.revision ≢ add_post_view_count.revision
      → ((invoke_all D r.downgrade (migrate r.upgrade s)).0 ≡ ok tt)
        × (outline (reads (migrate r.downgrade (migrate r.upgrade s))) ≡ outline (reads s))
        × ((invoke_all D r.upgrade (migrate r.downgrade (migrate r.upgrade s))).0 ≡ ok tt)
  unfolding goes_back
  downgrade-restores r m is_ready not_initial not_count =
      let (c, at, e) = next_catalog D mysql empty u r m is_ready in
      let (_, then_reads) = invoke_all-carries D mysql r.upgrade s c e in
      let test =
        each-mem (test_undo applied) r versions
          (Upgrading-passes D goes_back applied goes_back_always u) m in
      let back = undone applied r test is_ready (exempt_others r.revision not_initial not_count) in
      let (d, down, same, again) =
        undoes→ r (reads s) c (cc (back, at, Upgrading-after D mysql empty u)) in
      let (done, reads_back) =
        invoke_all-carries D mysql r.downgrade (migrate r.upgrade s) d
          (ap (ddl_all r.downgrade) then_reads ∙ down) in
      elim (Option-cases (ddl_all r.upgrade d)) [
        | inl e ↦ absurd (ground arith)
        | inr (d', e) ↦ (
          done,
          ap outline reads_back ∙ same,
          (invoke_all-carries D mysql r.upgrade (migrate r.downgrade (migrate r.upgrade s)) d'
              (ap (ddl_all r.upgrade) reads_back ∙ e)).0,
        )
      ]

  -- On a MySQL without tables at first (one that drops the index it made for a foreign key once
  -- another serves), in every order that the migrations' `down_revision` allows, the first migration and add_post_view_count cannot be undone and applied again: right
  -- after the `upgrade`, the `downgrade` followed by the `upgrade` raises.
  pub redo-raises :
      (r : Revision)
      → Memᴰ r versions
      → ready applied r ≡ true
      → exempt r.revision ≡ true
      → (e : Error) × ((invoke_all D (r.downgrade ++ r.upgrade) (migrate r.upgrade s)).0 ≡ err e)
  unfolding gets_stuck
  redo-raises r m is_ready is_exempt =
      let (c, at, e) = next_catalog D mysql empty u r m is_ready in
      let (_, then_reads) = invoke_all-carries D mysql r.upgrade s c e in
      let test =
        each-mem (test_redo applied) r versions
          (Upgrading-passes D gets_stuck applied gets_stuck_always u) m in
      let refused = refused_again applied r c test is_ready is_exempt at in
      invoke_all-refuses D mysql (r.downgrade ++ r.upgrade) (migrate r.upgrade s)
        (ap (ddl_all (r.downgrade ++ r.upgrade)) then_reads ∙ refused)
