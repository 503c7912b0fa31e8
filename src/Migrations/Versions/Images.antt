-- ===== src/Migrations/Versions/Images.antt =====
-- alembic/versions: The table of the images, the merge of the two branches, and
-- users.user_is_active.
use green_communuty_backend.Prelude.{true, false, none, some, [], ◌∷◌, List}
use green_communuty_backend.Migrations.Catalog.{integer, boolean, string, mysql_varchar}
use green_communuty_backend.Migrations.Operations.{
  Op, primary_key, create_table, drop_table, alter_column, create_index, drop_index, Revision,
}
use green_communuty_backend.Migrations.Columns.{required, existing_required, created_at, updated_at}

unfoldable pub add_posts_image_upgrade : List Op
unfolding required existing_required created_at updated_at
add_posts_image_upgrade =
    (create_table "posts_image"
      ((record (required "image_id" integer) { autoincrement = true })
        ∷ (required "post_id" integer)
        ∷ (required "image_path" (string 500))
        ∷ created_at
        ∷ updated_at
        ∷ [])
      ((primary_key ("image_id" ∷ [])) ∷ []))
    ∷ (create_index "ix_posts_image_post_id" "posts_image" ("post_id" ∷ []) false)
    ∷ (alter_column "users" "user_email" (record (existing_required (mysql_varchar 255)) {
      comment = some (some "로그인 ID 로 사용하는 이메일");
    }))
    ∷ (alter_column "users" "user_nickname"
        (record (existing_required (mysql_varchar 50)) { comment = some (some "표시 이름") }))
    ∷ []

unfoldable pub add_posts_image_downgrade : List Op
unfolding existing_required
add_posts_image_downgrade =
    (alter_column "users" "user_nickname" (record (existing_required (mysql_varchar 50)) {
      comment = some none;
      existing_comment = some "표시 이름";
    }))
    ∷ (alter_column "users" "user_email" (record (existing_required (mysql_varchar 255)) {
      comment = some none;
      existing_comment = some "로그인 ID 로 사용하는 이메일";
    }))
    ∷ (drop_index "ix_posts_image_post_id" "posts_image")
    ∷ (drop_table "posts_image")
    ∷ []

unfoldable pub add_posts_image : Revision
unfolding add_posts_image_upgrade add_posts_image_downgrade
add_posts_image = record {
  revision = "d439f5babf47";
  down_revision = "d4394054ec4a" ∷ [];
  upgrade = add_posts_image_upgrade;
  downgrade = add_posts_image_downgrade;
}

unfoldable pub merge_migration_heads_upgrade : List Op
merge_migration_heads_upgrade = []

unfoldable pub merge_migration_heads_downgrade : List Op
merge_migration_heads_downgrade = []

unfoldable pub merge_migration_heads : Revision
unfolding merge_migration_heads_upgrade merge_migration_heads_downgrade
merge_migration_heads = record {
  revision = "6c1f3338a488";
  down_revision = "b686b1a38ef2" ∷ "d439f5babf47" ∷ [];
  upgrade = merge_migration_heads_upgrade;
  downgrade = merge_migration_heads_downgrade;
}

unfoldable pub add_user_is_active_upgrade : List Op
unfolding existing_required
add_user_is_active_upgrade =
    (alter_column "users" "is_active"
      (record (existing_required boolean) { new_column_name = some "user_is_active" }))
    ∷ []

unfoldable pub add_user_is_active_downgrade : List Op
unfolding existing_required
add_user_is_active_downgrade =
    (alter_column "users" "user_is_active"
      (record (existing_required boolean) { new_column_name = some "is_active" }))
    ∷ []

unfoldable pub add_user_is_active : Revision
unfolding add_user_is_active_upgrade add_user_is_active_downgrade
add_user_is_active = record {
  revision = "e8547669b5ed";
  down_revision = "6c1f3338a488" ∷ [];
  upgrade = add_user_is_active_upgrade;
  downgrade = add_user_is_active_downgrade;
}
