-- ===== src/Migrations/Versions/Likes.antt =====
-- alembic/versions: The table of the likes, and new names in users and comments.
use green_communuty_backend.Prelude.{true, false, none, some, [], ◌∷◌, List}
use green_communuty_backend.Migrations.Catalog.{integer, text, string, literal, expression}
use green_communuty_backend.Migrations.Operations.{
  Op, primary_key, unique, foreignkey, unique_key, create_table, drop_table, alter_column,
  create_index, drop_index, create_unique_constraint, create_foreign_key, drop_constraint, Revision,
}
use green_communuty_backend.Migrations.Columns.{required, existing_required, created_at, updated_at}

unfoldable pub add_posts_like_upgrade : List Op
unfolding required existing_required created_at updated_at
add_posts_like_upgrade =
    (create_table "posts_like"
      ((record (required "like_id" integer) { autoincrement = true })
        ∷ (required "post_id" integer)
        ∷ (required "user_id" integer)
        ∷ created_at
        ∷ updated_at
        ∷ [])
      ((primary_key ("like_id" ∷ []))
        ∷ (unique "uq_posts_like_post_id_user_id" ("post_id" ∷ "user_id" ∷ []))
        ∷ []))
    ∷ (create_index "ix_posts_like_post_id" "posts_like" ("post_id" ∷ []) false)
    ∷ (create_index "ix_posts_like_user_id" "posts_like" ("user_id" ∷ []) false)
    ∷ (alter_column "comments" "id" (record (existing_required integer) {
      new_column_name = some "comment_id";
      autoincrement = some true;
    }))
    ∷ (alter_column "comments" "content"
        (record (existing_required text) { new_column_name = some "comment_content" }))
    ∷ (create_foreign_key "fk_comments_post_id_posts" "comments" "posts" ("post_id" ∷ [])
        ("post_id" ∷ []) (some "CASCADE"))
    ∷ (alter_column "posts" "post_view_count"
        (record (existing_required integer) { server_default = some none }))
    ∷ (drop_constraint "fk_posts_author_id_users" "posts" foreignkey)
    ∷ (drop_index "uq_users_email" "users")
    ∷ (alter_column "users" "email"
        (record (existing_required (string 255)) { new_column_name = some "user_email" }))
    ∷ (alter_column "users" "password_hash"
        (record (existing_required (string 255)) { new_column_name = some "user_password_hash" }))
    ∷ (alter_column "users" "nickname"
        (record (existing_required (string 50)) { new_column_name = some "user_nickname" }))
    ∷ (alter_column "users" "role" (record (existing_required (string 20)) {
      new_column_name = some "user_role";
      existing_server_default = some (literal "USER");
    }))
    ∷ (create_unique_constraint "uq_users_user_email" "users" ("user_email" ∷ []))
    ∷ []

unfoldable pub add_posts_like_downgrade : List Op
unfolding existing_required
add_posts_like_downgrade =
    (drop_constraint "uq_users_user_email" "users" unique_key)
    ∷ (alter_column "users" "user_role" (record (existing_required (string 20)) {
      new_column_name = some "role";
      existing_server_default = some (literal "USER");
    }))
    ∷ (alter_column "users" "user_nickname"
        (record (existing_required (string 50)) { new_column_name = some "nickname" }))
    ∷ (alter_column "users" "user_password_hash"
        (record (existing_required (string 255)) { new_column_name = some "password_hash" }))
    ∷ (alter_column "users" "user_email"
        (record (existing_required (string 255)) { new_column_name = some "email" }))
    ∷ (create_index "uq_users_email" "users" ("email" ∷ []) true)
    ∷ (create_foreign_key "fk_posts_author_id_users" "posts" "users" ("author_id" ∷ [])
        ("user_id" ∷ []) none)
    ∷ (alter_column "posts" "post_view_count"
        (record (existing_required integer) { server_default = some (some (expression "'0'")) }))
    ∷ (drop_constraint "fk_comments_post_id_posts" "comments" foreignkey)
    ∷ (alter_column "comments" "comment_content"
        (record (existing_required text) { new_column_name = some "content" }))
    ∷ (alter_column "comments" "comment_id" (record (existing_required integer) {
      new_column_name = some "id";
      autoincrement = some true;
    }))
    ∷ (drop_index "ix_posts_like_user_id" "posts_like")
    ∷ (drop_index "ix_posts_like_post_id" "posts_like")
    ∷ (drop_table "posts_like")
    ∷ []

unfoldable pub add_posts_like : Revision
unfolding add_posts_like_upgrade add_posts_like_downgrade
add_posts_like = record {
  revision = "d4394054ec4a";
  down_revision = "70998f3f80d7" ∷ [];
  upgrade = add_posts_like_upgrade;
  downgrade = add_posts_like_downgrade;
}
