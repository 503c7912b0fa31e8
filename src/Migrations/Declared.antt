-- ===== src/Migrations/Declared.antt =====
-- The tables that the models declare: the *_model.py files of app/modules, the columns of
-- app/infrastructure/database/mixins.py, and the list of app/infrastructure/database/model_registry.py.
use green_communuty_backend.Prelude.{String, List, [], ◌∷◌, ◌++◌, true, false, some}
use green_communuty_backend.Migrations.Catalog.{
  Column, integer, text, date_time, boolean, string, native_enum, text_enum, literal,
}
use green_communuty_backend.Migrations.Operations.{unique}
use green_communuty_backend.Migrations.Columns.{
  required, optional, created_at, updated_at, deleted_at,
}
use green_communuty_backend.Migrations.Metadata.{MappedColumn, Model}

unfoldable pub plain : Column → MappedColumn
plain c = record { column = c; primary_key = false; index = false; unique = false }

-- `index=True`
unfoldable pub indexed : Column → MappedColumn
unfolding plain
indexed c = record (plain c) { index = true }

-- `primary_key=True, autoincrement=True`
unfoldable pub key_column : String → MappedColumn
unfolding plain required
key_column name = record (plain (record (required name integer) { autoincrement = true })) {
  primary_key = true;
}

unfoldable pub timestamp_mixin : List MappedColumn
unfolding plain created_at updated_at
timestamp_mixin = plain created_at ∷ plain updated_at ∷ []

unfoldable pub soft_delete_mixin : List MappedColumn
unfolding indexed deleted_at
soft_delete_mixin = indexed deleted_at ∷ []

unfoldable pub comment_model : Model
unfolding plain indexed key_column timestamp_mixin soft_delete_mixin required optional
comment_model = record {
  tablename = "comments";
  columns =
      key_column "comment_id"
      ∷ plain (required "comment_content" text)
      ∷ indexed (required "post_id" integer)
      ∷ indexed (required "author_id" integer)
      ∷ indexed (optional "parent_comment_id" integer)
      ∷ (timestamp_mixin ++ soft_delete_mixin);
  constraints = [];
  indexes = [];
}

unfoldable pub menu_model : Model
unfolding plain indexed key_column timestamp_mixin soft_delete_mixin required optional
menu_model = record {
  tablename = "menus";
  columns =
      key_column "menu_id"
      ∷ plain (required "menu_name" (string 50))
      ∷ indexed (optional "menu_parent_id" integer)
      ∷ (timestamp_mixin ++ soft_delete_mixin);
  constraints =
      unique "uq_menus_parent_name" ("menu_parent_id" ∷ "menu_name" ∷ "deleted_at" ∷ []) ∷ [];
  indexes = [];
}

unfoldable pub post_model : Model
unfolding plain indexed key_column timestamp_mixin soft_delete_mixin required optional
post_model = record {
  tablename = "posts";
  columns =
      key_column "post_id"
      ∷ plain (required "post_title" (string 200))
      ∷ plain (required "post_content" text)
      ∷ indexed (required "author_id" integer)
      ∷ plain (required "post_view_count" integer)
      ∷ indexed
          (record (required "post_status" (native_enum ("PUBLISHED" ∷ "HIDDEN" ∷ "DELETED" ∷ []))) {
            server_default = some (literal "PUBLISHED");
          })
      ∷ plain (record (required "post_is_notice" boolean) { server_default = some (literal "0") })
      ∷ (timestamp_mixin ++ soft_delete_mixin);
  constraints = [];
  indexes = [];
}

unfoldable pub post_image_model : Model
unfolding plain indexed key_column timestamp_mixin required
post_image_model = record {
  tablename = "posts_image";
  columns =
      key_column "image_id"
      ∷ indexed (required "post_id" integer)
      ∷ plain (required "image_original_path" (string 500))
      ∷ plain (required "image_content_path" (string 500))
      ∷ plain (required "image_thumbnail_path" (string 500))
      ∷ timestamp_mixin;
  constraints = [];
  indexes = [];
}

unfoldable pub post_like_model : Model
unfolding plain indexed key_column timestamp_mixin required
post_like_model = record {
  tablename = "posts_like";
  columns =
      key_column "like_id"
      ∷ indexed (required "post_id" integer)
      ∷ indexed (required "user_id" integer)
      ∷ timestamp_mixin;
  constraints = unique "uq_posts_like_post_id_user_id" ("post_id" ∷ "user_id" ∷ []) ∷ [];
  indexes = [];
}

unfoldable pub report_model : Model
unfolding plain indexed key_column timestamp_mixin required optional
report_model = record {
  tablename = "reports";
  columns =
      key_column "report_id"
      ∷ indexed (optional "reporter_user_id" integer)
      ∷ indexed (required "report_content_type" (native_enum ("POST" ∷ "COMMENT" ∷ "USER" ∷ [])))
      ∷ indexed (optional "post_id" integer)
      ∷ plain (required "post_title" (string 200))
      ∷ plain (required "post_content" text)
      ∷ indexed (optional "comment_id" integer)
      ∷ plain (required "comment_content" text)
      ∷ indexed (required "reported_user_id" integer)
      ∷ plain (required "report_category" (string 50))
      ∷ plain (optional "report_reason" text)
      ∷ indexed
          (record (required "report_status"
            (native_enum ("PENDING" ∷ "ACCEPTED" ∷ "REJECTED" ∷ []))) {
              server_default = some (literal "PENDING");
            })
      ∷ indexed
          (optional "user_sanction_type" (native_enum ("WARNING" ∷ "SUSPENDED" ∷ "BANNED" ∷ [])))
      ∷ indexed (optional "reviewer_user_id" integer)
      ∷ plain (optional "processed_at" date_time)
      ∷ timestamp_mixin;
  constraints = [];
  indexes = ("ix_reports_status_created_at", "report_status" ∷ "created_at" ∷ []) ∷ [];
}

unfoldable pub user_model : Model
unfolding plain key_column timestamp_mixin required
user_model = record {
  tablename = "users";
  columns =
      key_column "user_id"
      ∷ record (plain
          (record (required "user_email" (string 255)) { comment = some "로그인 ID 로 사용하는 이메일" })) {
            unique = true;
          }
      ∷ plain (required "user_password_hash" (string 255))
      ∷ plain (record (required "user_nickname" (string 50)) { comment = some "표시 이름" })
      ∷ plain (record (required "user_role" (text_enum ("USER" ∷ "ADMIN" ∷ []) 20)) {
        server_default = some (literal "USER");
      })
      ∷ plain (record (required "user_is_active" boolean) {
        server_default = some (literal "1");
        comment = some "False 면 로그인 및 인증이 거부된다";
      })
      ∷ timestamp_mixin;
  constraints = [];
  indexes = [];
}

unfoldable pub user_sanction_model : Model
unfolding plain indexed key_column timestamp_mixin required optional
user_sanction_model = record {
  tablename = "user_sanctions";
  columns =
      key_column "user_sanction_id"
      ∷ indexed (required "reported_user_id" integer)
      ∷ indexed
          (required "user_sanction_type" (native_enum ("WARNING" ∷ "SUSPENDED" ∷ "BANNED" ∷ [])))
      ∷ plain (required "user_sanction_reason" text)
      ∷ indexed (required "report_id" integer)
      ∷ plain (optional "expires_at" date_time)
      ∷ timestamp_mixin;
  constraints = [];
  indexes = [];
}

-- The models of the registry.
unfoldable pub registered : List Model
unfolding comment_model menu_model post_model post_image_model post_like_model report_model
    user_model user_sanction_model
registered =
    comment_model ∷ menu_model ∷ post_model ∷ post_image_model ∷ post_like_model ∷ report_model
    ∷ user_model ∷ user_sanction_model ∷ []
