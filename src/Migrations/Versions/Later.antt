-- ===== src/Migrations/Versions/Later.antt =====
-- alembic/versions: The key of posts, replies and image paths, the status and the notice flag of a
-- post.
use green_communuty_backend.Prelude.{true, false, none, some, [], ◌∷◌, List}
use green_communuty_backend.Migrations.Catalog.{
  integer, boolean, string, mysql_varchar, mysql_tinyint, native_enum, literal, expression,
}
use green_communuty_backend.Migrations.Operations.{
  Op, foreignkey, add_column, drop_column, alter_column, create_index, drop_index,
  create_foreign_key, drop_constraint, Revision,
}
use green_communuty_backend.Migrations.Columns.{required, optional, existing_required}

unfoldable pub add_auto_increment_to_posts_post_id_upgrade : List Op
unfolding existing_required
add_auto_increment_to_posts_post_id_upgrade =
    (drop_constraint "fk_comments_post_id_posts" "comments" foreignkey)
    ∷ (alter_column "posts" "post_id"
        (record (existing_required integer) { autoincrement = some true }))
    ∷ (create_foreign_key "fk_comments_post_id_posts" "comments" "posts" ("post_id" ∷ [])
        ("post_id" ∷ []) (some "CASCADE"))
    ∷ []

unfoldable pub add_auto_increment_to_posts_post_id_downgrade : List Op
unfolding existing_required
add_auto_increment_to_posts_post_id_downgrade =
    (drop_constraint "fk_comments_post_id_posts" "comments" foreignkey)
    ∷ (alter_column "posts" "post_id"
        (record (existing_required integer) { autoincrement = some false }))
    ∷ (create_foreign_key "fk_comments_post_id_posts" "comments" "posts" ("post_id" ∷ [])
        ("post_id" ∷ []) (some "CASCADE"))
    ∷ []

unfoldable pub add_auto_increment_to_posts_post_id : Revision
unfolding add_auto_increment_to_posts_post_id_upgrade add_auto_increment_to_posts_post_id_downgrade
add_auto_increment_to_posts_post_id = record {
  revision = "8c26dc833443";
  down_revision = "e8547669b5ed" ∷ [];
  upgrade = add_auto_increment_to_posts_post_id_upgrade;
  downgrade = add_auto_increment_to_posts_post_id_downgrade;
}

unfoldable pub update_post_image_model_upgrade : List Op
unfolding required optional existing_required
update_post_image_model_upgrade =
    (add_column "comments" (optional "parent_comment_id" integer))
    ∷ (create_index "ix_comments_parent_comment_id" "comments" ("parent_comment_id" ∷ []) false)
    ∷ (drop_constraint "fk_comments_post_id_posts" "comments" foreignkey)
    ∷ (drop_constraint "fk_comments_author_id_users" "comments" foreignkey)
    ∷ (add_column "posts_image" (required "image_original_path" (string 500)))
    ∷ (add_column "posts_image" (required "image_content_path" (string 500)))
    ∷ (add_column "posts_image" (required "image_thumbnail_path" (string 500)))
    ∷ (drop_column "posts_image" "image_path")
    ∷ (alter_column "users" "user_is_active" (record (existing_required (mysql_tinyint 1)) {
      server_default = some (some (literal "1"));
      comment = some (some "False 면 로그인 및 인증이 거부된다");
    }))
    ∷ []

unfoldable pub update_post_image_model_downgrade : List Op
unfolding required existing_required
update_post_image_model_downgrade =
    (alter_column "users" "user_is_active" (record (existing_required (mysql_tinyint 1)) {
      server_default = some none;
      comment = some none;
      existing_comment = some "False 면 로그인 및 인증이 거부된다";
    }))
    ∷ (add_column "posts_image" (required "image_path" (mysql_varchar 500)))
    ∷ (drop_column "posts_image" "image_thumbnail_path")
    ∷ (drop_column "posts_image" "image_content_path")
    ∷ (drop_column "posts_image" "image_original_path")
    ∷ (create_foreign_key "fk_comments_author_id_users" "comments" "users" ("author_id" ∷ [])
        ("user_id" ∷ []) none)
    ∷ (create_foreign_key "fk_comments_post_id_posts" "comments" "posts" ("post_id" ∷ [])
        ("post_id" ∷ []) (some "CASCADE"))
    ∷ (drop_index "ix_comments_parent_comment_id" "comments")
    ∷ (drop_column "comments" "parent_comment_id")
    ∷ []

unfoldable pub update_post_image_model : Revision
unfolding update_post_image_model_upgrade update_post_image_model_downgrade
update_post_image_model = record {
  revision = "1829bc9d8c4a";
  down_revision = "8c26dc833443" ∷ [];
  upgrade = update_post_image_model_upgrade;
  downgrade = update_post_image_model_downgrade;
}

unfoldable pub add_post_is_notice_upgrade : List Op
unfolding required
add_post_is_notice_upgrade =
    (add_column "posts"
      (record (required "post_status" (native_enum ("PUBLISHED" ∷ "HIDDEN" ∷ "DELETED" ∷ []))) {
        server_default = some (literal "PUBLISHED");
      }))
    ∷ (add_column "posts"
        (record (required "post_is_notice" boolean) { server_default = some (expression "false") }))
    ∷ (create_index "ix_posts_post_status" "posts" ("post_status" ∷ []) false)
    ∷ []

unfoldable pub add_post_is_notice_downgrade : List Op
add_post_is_notice_downgrade =
    (drop_index "ix_posts_post_status" "posts")
    ∷ (drop_column "posts" "post_is_notice")
    ∷ (drop_column "posts" "post_status")
    ∷ []

unfoldable pub add_post_is_notice : Revision
unfolding add_post_is_notice_upgrade add_post_is_notice_downgrade
add_post_is_notice = record {
  revision = "0c55fdbb6962";
  down_revision = "1829bc9d8c4a" ∷ [];
  upgrade = add_post_is_notice_upgrade;
  downgrade = add_post_is_notice_downgrade;
}
