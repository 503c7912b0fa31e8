-- ===== src/Migrations/Versions/Menus.antt =====
-- alembic/versions: The table of the menus, on a branch of its own.
use green_communuty_backend.Prelude.{true, false, [], ◌∷◌, List}
use green_communuty_backend.Migrations.Catalog.{integer, string}
use green_communuty_backend.Migrations.Operations.{
  Op, primary_key, unique, create_table, drop_table, create_index, drop_index, Revision,
}
use green_communuty_backend.Migrations.Columns.{
  required, optional, created_at, updated_at, deleted_at,
}

unfoldable pub add_menus_table_upgrade : List Op
unfolding required optional created_at updated_at deleted_at
add_menus_table_upgrade =
    (create_table "menus"
      ((record (required "menu_id" integer) { autoincrement = true })
        ∷ (required "menu_name" (string 50))
        ∷ (optional "menu_parent_id" integer)
        ∷ created_at
        ∷ updated_at
        ∷ deleted_at
        ∷ [])
      ((primary_key ("menu_id" ∷ []))
        ∷ (unique "uq_menus_parent_name" ("menu_parent_id" ∷ "menu_name" ∷ "deleted_at" ∷ []))
        ∷ []))
    ∷ (create_index "ix_menus_deleted_at" "menus" ("deleted_at" ∷ []) false)
    ∷ (create_index "ix_menus_menu_parent_id" "menus" ("menu_parent_id" ∷ []) false)
    ∷ []

unfoldable pub add_menus_table_downgrade : List Op
add_menus_table_downgrade =
    (drop_index "ix_menus_menu_parent_id" "menus")
    ∷ (drop_index "ix_menus_deleted_at" "menus")
    ∷ (drop_table "menus")
    ∷ []

unfoldable pub add_menus_table : Revision
unfolding add_menus_table_upgrade add_menus_table_downgrade
add_menus_table = record {
  revision = "b686b1a38ef2";
  down_revision = "3eb81cd3f427" ∷ [];
  upgrade = add_menus_table_upgrade;
  downgrade = add_menus_table_downgrade;
}
