-- ===== src/Migrations/Columns.antt =====
-- The columns and alterations that the migrations write.
use green_communuty_backend.Prelude.{String, true, false, none, some}
use green_communuty_backend.Migrations.Catalog.{SqlType, date_time, expression, Column}
use green_communuty_backend.Migrations.Operations.{Alteration}

unfoldable pub required : String → SqlType → Column
required name type = record {
  name = name;
  type = type;
  nullable = false;
  server_default = none;
  comment = none;
  autoincrement = false;
}

unfoldable pub optional : String → SqlType → Column
unfolding required
optional name type = record (required name type) { nullable = true }

-- The columns of app/infrastructure/database/mixins.py, which the migrations write out.
unfoldable pub created_at : Column
unfolding required
created_at = record (required "created_at" date_time) {
  server_default = some (expression "CURRENT_TIMESTAMP");
  comment = some "생성 시각 (UTC)";
}

unfoldable pub updated_at : Column
unfolding required
updated_at = record (required "updated_at" date_time) {
  server_default = some (expression "CURRENT_TIMESTAMP");
  comment = some "수정 시각 (UTC)";
}

unfoldable pub deleted_at : Column
unfolding optional
deleted_at = record (optional "deleted_at" date_time) {
  comment = some "논리 삭제 시각 (UTC). NULL 이면 미삭제";
}

-- `existing_type=type, existing_nullable=False`
unfoldable pub existing_required : SqlType → Alteration
existing_required type = record {
  new_column_name = none;
  existing_type = type;
  existing_nullable = false;
  autoincrement = none;
  server_default = none;
  existing_server_default = none;
  comment = none;
  existing_comment = none;
}
