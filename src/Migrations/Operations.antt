-- ===== src/Migrations/Operations.antt =====
-- The operations of Alembic that the migrations call, with the arguments in the source's order.
use green_communuty_backend.Prelude.{String, Bool, Option, List}
use green_communuty_backend.Migrations.Catalog.{SqlType, ServerDefault, ForeignKeyInfo, Column}

-- `sa.PrimaryKeyConstraint(…)` and the other two that stand in a `create_table`
pub data Constraint : Type 0 where
  primary_key : List String → Constraint
  unique : String → List String → Constraint
  foreign_key : String → ForeignKeyInfo → Constraint

-- The keyword arguments of `alter_column`; an outer `none` is one that is not given.
pub record Alteration : Type 0 where
  pub new_column_name : Option String
  pub existing_type : SqlType
  pub existing_nullable : Bool
  pub autoincrement : Option Bool
  pub server_default : Option (Option ServerDefault)
  pub existing_server_default : Option ServerDefault
  pub comment : Option (Option String)
  pub existing_comment : Option String

pub data ConstraintKind : Type 0 where
  foreignkey unique_key : ConstraintKind

-- `op.create_table(…)` and so on, with the arguments in the source's order
pub data Op : Type 0 where
  create_table : String → List Column → List Constraint → Op
  drop_table : String → Op
  add_column : String → Column → Op
  drop_column : String → String → Op
  alter_column : String → String → Alteration → Op
  create_index : String → String → List String → Bool → Op
  drop_index : String → String → Op
  create_unique_constraint : String → String → List String → Op
  create_foreign_key : String → String → String → List String → List String → Option String → Op
  drop_constraint : String → String → ConstraintKind → Op

-- The variables and the two functions of a file of alembic/versions.
pub record Revision : Type 0 where
  pub revision : String
  pub down_revision : List String
  pub upgrade : List Op
  pub downgrade : List Op
