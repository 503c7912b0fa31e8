-- ===== src/Migrations/Versions/PostNames.antt =====
-- alembic/versions: The new names of the columns of posts, the view count, and users.user_id.
use green_communuty_backend.Prelude.{true, some, [], ◌∷◌, List}
use green_communuty_backend.Migrations.Catalog.{integer, text, string, literal}
use green_communuty_backend.Migrations.Operations.{
  Op, foreignkey, add_column, drop_column, alter_column, drop_constraint, Revision,
}
use green_communuty_backend.Migrations.Columns.{required, existing_required}

unfoldable pub add_post_view_count_upgrade : List Op
unfolding required existing_required
add_post_view_count_upgrade =
    (drop_constraint "fk_comments_post_id_posts" "comments" foreignkey)
    ∷ (alter_column "posts" "id"
        (record (existing_required integer) { new_column_name = some "post_id" }))
    ∷ (alter_column "posts" "title"
        (record (existing_required (string 200)) { new_column_name = some "post_title" }))
    ∷ (alter_column "posts" "content"
        (record (existing_required text) { new_column_name = some "post_content" }))
    ∷ (add_column "posts"
        (record (required "post_view_count" integer) { server_default = some (literal "0") }))
    ∷ []

unfoldable pub add_post_view_count_downgrade : List Op
unfolding existing_required
add_post_view_count_downgrade =
    (drop_column "posts" "post_view_count")
    ∷ (alter_column "posts" "post_content"
        (record (existing_required text) { new_column_name = some "content" }))
    ∷ (alter_column "posts" "post_title"
        (record (existing_required (string 200)) { new_column_name = some "title" }))
    ∷ (alter_column "posts" "post_id"
        (record (existing_required integer) { new_column_name = some "id" }))
    ∷ []

unfoldable pub add_post_view_count : Revision
unfolding add_post_view_count_upgrade add_post_view_count_downgrade
add_post_view_count = record {
  revision = "6e316f4b3ead";
  down_revision = "3eb81cd3f427" ∷ [];
  upgrade = add_post_view_count_upgrade;
  downgrade = add_post_view_count_downgrade;
}

unfoldable pub rename_user_id_to_user_id_upgrade : List Op
unfolding existing_required
rename_user_id_to_user_id_upgrade =
    (alter_column "users" "id" (record (existing_required integer) {
      new_column_name = some "user_id";
      autoincrement = some true;
    }))
    ∷ []

unfoldable pub rename_user_id_to_user_id_downgrade : List Op
unfolding existing_required
rename_user_id_to_user_id_downgrade =
    (alter_column "users" "user_id" (record (existing_required integer) {
      new_column_name = some "id";
      autoincrement = some true;
    }))
    ∷ []

unfoldable pub rename_user_id_to_user_id : Revision
unfolding rename_user_id_to_user_id_upgrade rename_user_id_to_user_id_downgrade
rename_user_id_to_user_id = record {
  revision = "70998f3f80d7";
  down_revision = "6e316f4b3ead" ∷ [];
  upgrade = rename_user_id_to_user_id_upgrade;
  downgrade = rename_user_id_to_user_id_downgrade;
}
