-- ===== src/Migrations/Revisions.antt =====
-- alembic/env.py and the order of the migrations. `upgrade head` applies each migration after those
-- that its `down_revision` names; which of two branches comes first is Alembic's choice. Alembic and
-- the database are a parameter.
use mathlib.Core.List.{Memᴰ}
use green_communuty_backend.Prelude.{String, Bool, true, not, ◌&&◌, none, some, List, [], ◌∷◌, ◌≡◌}
use green_communuty_backend.Core.Errors.{Error}
use green_communuty_backend.Core.Action.{Action, ok, err, ◌>>◌}
use green_communuty_backend.Migrations.Catalog.{Catalog}
use green_communuty_backend.Migrations.Operations.{Op, Revision}
use green_communuty_backend.Migrations.Tables.{has}
use green_communuty_backend.Migrations.Ddl.{ddl}
use green_communuty_backend.Migrations.Versions.Initial.{create_initial_schema}
use green_communuty_backend.Migrations.Versions.Menus.{add_menus_table}
use green_communuty_backend.Migrations.Versions.PostNames.{
  add_post_view_count, rename_user_id_to_user_id,
}
use green_communuty_backend.Migrations.Versions.Likes.{add_posts_like}
use green_communuty_backend.Migrations.Versions.Images.{
  add_posts_image, merge_migration_heads, add_user_is_active,
}
use green_communuty_backend.Migrations.Versions.Later.{
  add_auto_increment_to_posts_post_id, update_post_image_model, add_post_is_notice,
}

-- The files of alembic/versions, in the order of their names.
unfoldable pub versions : List Revision
unfolding create_initial_schema add_menus_table add_post_view_count rename_user_id_to_user_id
    add_posts_like add_posts_image merge_migration_heads add_user_is_active
    add_auto_increment_to_posts_post_id update_post_image_model add_post_is_notice
versions =
    create_initial_schema ∷ add_menus_table ∷ add_post_view_count ∷ rename_user_id_to_user_id
    ∷ add_posts_like ∷ add_posts_image ∷ merge_migration_heads ∷ add_user_is_active
    ∷ add_auto_increment_to_posts_post_id ∷ update_post_image_model ∷ add_post_is_notice ∷ []

unfoldable pub ids : List Revision → List String
ids [] = []
ids (r ∷ rs) = r.revision ∷ ids rs

has_all : List String → List String → Bool
unfolding has
has_all [] applied = true
has_all (n ∷ ns) applied = has n applied && has_all ns applied

-- Not applied yet, and every migration that it names is.
unfoldable pub ready : List Revision → Revision → Bool
unfolding has ids has_all
ready applied r = not (has r.revision (ids applied)) && has_all r.down_revision (ids applied)

-- A connection to MySQL through Alembic.
pub record Database : Type 1 where
  pub Connection : Type 0
  pub invoke : Op → Action Connection (Unit {0})
  pub reads : Connection → Catalog

-- MySQL carries a statement out, or refuses it, as `ddl` says. Where the manual leaves the server a
-- choice, that an index which it made for a foreign key "might be silently dropped" once another
-- index serves, this is a server that drops it.
pub record IsMysql (D : Database) : Type 0 where
  pub carries :
      (op : Op) (s : D.Connection) (c : Catalog)
      → ddl op (D.reads s) ≡ some c
      → ((D.invoke op s).0 ≡ ok tt) × (D.reads (D.invoke op s).1 ≡ c)
  pub refuses :
      (op : Op) (s : D.Connection)
      → ddl op (D.reads s) ≡ none
      → (e : Error) × ((D.invoke op s).0 ≡ err e)

module _ (D : Database) where
  open D use {Connection, invoke}

  -- `upgrade()` or `downgrade()`: a statement that was carried out stays when a later one raises.
  unfoldable pub invoke_all : List Op → Action Connection (Unit {0})
  invoke_all [] s = (ok tt, s)
  invoke_all (op ∷ ops) s = (invoke op >> invoke_all ops) s

  -- The connections on the way from one without migrations, with what is applied, latest first.
  pub data Upgrading (start : Connection) : List Revision → Connection → Type 0 where
    fresh : Upgrading start [] start
    next :
        {applied : List Revision} {s : Connection} (r : Revision)
        → Upgrading start applied s
        → Memᴰ r versions
        → ready applied r ≡ true
        → (invoke_all r.upgrade s).0 ≡ ok tt
        → Upgrading start (r ∷ applied) (invoke_all r.upgrade s).1
