-- ===== src/Migrations/Alter.antt =====
-- A column after `alter_column`, and what follows its new name.
use green_communuty_backend.Prelude.{
  String, Bool, true, false, not, ◌&&◌, ◌||◌, Option, none, some, str_eq, is_some, if◌then◌else◌,
}
use green_communuty_backend.Migrations.Catalog.{
  put, erase, update_all, same_type, compiled, ServerDefault, stored, ColumnInfo, IndexInfo,
  ForeignKeyInfo, TableInfo,
}
use green_communuty_backend.Migrations.Operations.{Alteration}
use green_communuty_backend.Migrations.Tables.{renamed}

unfoldable pub rendered : Option ServerDefault → Option String
unfolding stored
rendered none = none
rendered (some d) = some (stored d)

unfoldable pub given_or {ℓ} : {A : Type ℓ} → Option A → A → A
given_or none a = a
given_or (some b) a = b

unfoldable pub new_default : Option (Option ServerDefault) → Option String → Option String
unfolding rendered
new_default none old = old
new_default (some d) old = rendered d

-- `ALTER COLUMN … SET DEFAULT` serves where nothing but the default is given; else Alembic writes
-- `CHANGE` or `MODIFY`, which state the whole column anew, out of the arguments alone.
unfoldable pub altered : Alteration → ColumnInfo → ColumnInfo
unfolding rendered given_or new_default compiled
altered a old =
    if is_some a.new_column_name || (is_some a.autoincrement || is_some a.comment)
    then record {
      type = compiled a.existing_type;
      nullable = a.existing_nullable;
      default = rendered (given_or a.server_default a.existing_server_default);
      comment = given_or a.comment a.existing_comment;
      autoincrement = given_or a.autoincrement false;
    }
    else record old { default = new_default a.server_default old.default }

unfoldable pub same_bool : Bool → Bool → Bool
same_bool true b = b
same_bool false b = not b

-- What MySQL lets nobody change in a column of a foreign key (errors 1832 and 1833).
unfoldable pub keeps_values : ColumnInfo → ColumnInfo → Bool
unfolding same_type same_bool
keeps_values a b = same_type a.type b.type && same_bool a.autoincrement b.autoincrement

unfoldable pub rename_in : String → String → ColumnInfo → TableInfo → TableInfo
unfolding put erase update_all renamed
rename_in from to column t = record {
  columns = put to column (erase from t.columns);
  primary_key = renamed from to t.primary_key;
  indexes =
      update_all (λ (i : IndexInfo). record i { columns = renamed from to i.columns }) t.indexes;
  foreign_keys =
      update_all (λ (k : ForeignKeyInfo). record k { columns = renamed from to k.columns })
        t.foreign_keys;
}

-- MySQL follows a renamed column in the foreign keys that refer to it.
unfoldable pub follow : String → String → String → TableInfo → TableInfo
unfolding update_all renamed
follow table from to t = record t {
  foreign_keys =
      update_all
        (λ (k : ForeignKeyInfo).
          if str_eq k.referent table then record k { referred = renamed from to k.referred } else k)
        t.foreign_keys;
}
