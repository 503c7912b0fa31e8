-- ===== src/Migrations/Versions/Initial.antt =====
-- alembic/versions: The first migration.
use green_communuty_backend.Prelude.{true, false, none, some, [], ◌∷◌, List}
use green_communuty_backend.Migrations.Catalog.{integer, text, boolean, string, text_enum, literal}
use green_communuty_backend.Migrations.Operations.{
  Op, primary_key, unique, foreign_key, create_table, drop_table, create_index, drop_index,
  Revision,
}
use green_communuty_backend.Migrations.Columns.{required, created_at, updated_at, deleted_at}

unfoldable pub create_initial_schema_upgrade : List Op
unfolding required created_at updated_at deleted_at
create_initial_schema_upgrade =
    (create_table "users"
      ((record (required "id" integer) { autoincrement = true })
        ∷ (record (required "email" (string 255)) { comment = some "로그인 ID 로 사용하는 이메일" })
        ∷ (required "password_hash" (string 255))
        ∷ (record (required "nickname" (string 50)) { comment = some "표시 이름" })
        ∷ (record (required "role" (text_enum ("USER" ∷ "ADMIN" ∷ []) 20)) {
          server_default = some (literal "USER");
        })
        ∷ (record (required "is_active" boolean) {
          server_default = some (literal "1");
          comment = some "False 면 로그인 및 인증이 거부된다";
        })
        ∷ created_at
        ∷ updated_at
        ∷ [])
      ((primary_key ("id" ∷ [])) ∷ (unique "uq_users_email" ("email" ∷ [])) ∷ []))
    ∷ (create_table "posts"
        ((record (required "id" integer) { autoincrement = true })
          ∷ (required "title" (string 200))
          ∷ (required "content" text)
          ∷ (required "author_id" integer)
          ∷ created_at
          ∷ updated_at
          ∷ deleted_at
          ∷ [])
        ((foreign_key "fk_posts_author_id_users" (record {
          columns = "author_id" ∷ [];
          referent = "users";
          referred = "id" ∷ [];
          ondelete = none;
        }))
          ∷ (primary_key ("id" ∷ []))
          ∷ []))
    ∷ (create_index "ix_posts_author_id" "posts" ("author_id" ∷ []) false)
    ∷ (create_index "ix_posts_deleted_at" "posts" ("deleted_at" ∷ []) false)
    ∷ (create_table "comments"
        ((record (required "id" integer) { autoincrement = true })
          ∷ (required "content" text)
          ∷ (required "post_id" integer)
          ∷ (required "author_id" integer)
          ∷ created_at
          ∷ updated_at
          ∷ deleted_at
          ∷ [])
        ((foreign_key "fk_comments_author_id_users" (record {
          columns = "author_id" ∷ [];
          referent = "users";
          referred = "id" ∷ [];
          ondelete = none;
        }))
          ∷ (foreign_key "fk_comments_post_id_posts" (record {
            columns = "post_id" ∷ [];
            referent = "posts";
            referred = "id" ∷ [];
            ondelete = some "CASCADE";
          }))
          ∷ (primary_key ("id" ∷ []))
          ∷ []))
    ∷ (create_index "ix_comments_author_id" "comments" ("author_id" ∷ []) false)
    ∷ (create_index "ix_comments_deleted_at" "comments" ("deleted_at" ∷ []) false)
    ∷ (create_index "ix_comments_post_id" "comments" ("post_id" ∷ []) false)
    ∷ []

unfoldable pub create_initial_schema_downgrade : List Op
create_initial_schema_downgrade =
    (drop_index "ix_comments_post_id" "comments")
    ∷ (drop_index "ix_comments_deleted_at" "comments")
    ∷ (drop_index "ix_comments_author_id" "comments")
    ∷ (drop_table "comments")
    ∷ (drop_index "ix_posts_deleted_at" "posts")
    ∷ (drop_index "ix_posts_author_id" "posts")
    ∷ (drop_table "posts")
    ∷ (drop_table "users")
    ∷ []

unfoldable pub create_initial_schema : Revision
unfolding create_initial_schema_upgrade create_initial_schema_downgrade
create_initial_schema = record {
  revision = "3eb81cd3f427";
  down_revision = [];
  upgrade = create_initial_schema_upgrade;
  downgrade = create_initial_schema_downgrade;
}
