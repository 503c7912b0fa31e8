-- ===== src/Migrations/Ddl.antt =====
-- What MySQL makes of each operation: the schema after it, or none where it is refused.
use green_communuty_backend.Prelude.{
  String, true, not, ◌&&◌, ◌||◌, Option, some, List, [], ◌∷◌, str_eq, is_some,
}
use green_communuty_backend.Migrations.Catalog.{
  find, put, erase, update_all, ForeignKeyInfo, Catalog,
}
use green_communuty_backend.Migrations.Operations.{
  Alteration, foreignkey, unique_key, Op, create_table, drop_table, add_column, drop_column,
  alter_column, create_index, drop_index, create_unique_constraint, create_foreign_key,
  drop_constraint,
}
use green_communuty_backend.Migrations.Tables.{
  ◌>>=◌, allowed, in_table, add_index, remove_index, refers, add_foreign_key, remove_foreign_key,
  constrain_all, put_column, put_columns, referred_from_elsewhere, in_foreign_key, remove_column,
  index_foreign_keys, referred_keyed,
}
use green_communuty_backend.Migrations.Alter.{given_or, altered, keeps_values, rename_in, follow}

alter : String → String → Alteration → Catalog → Option Catalog
unfolding find put update_all given_or altered keeps_values in_foreign_key rename_in follow
alter table column a c = do
  t ← find table c
  old ← find column t.columns
  let new = altered a old
  let name = given_or a.new_column_name column
  allowed
      ((str_eq name column || not (is_some (find name t.columns)))
        && (keeps_values old new || not (in_foreign_key table column t c)))
      (some (update_all (follow table column name) (put table (rename_in column name new t) c)))

-- `DROP INDEX`
drop_key : String → String → Catalog → Option Catalog
unfolding find put in_table remove_index referred_keyed
drop_key name table c =
    in_table table (λ t. do t' ← remove_index name t; allowed (referred_keyed table t' c) (some t'))
      c

-- A statement that is carried out, or refused.
unfoldable pub ddl : Op → Catalog → Option Catalog
unfolding find put erase in_table add_index remove_index refers add_foreign_key remove_foreign_key
    constrain_all put_columns put_column referred_from_elsewhere in_foreign_key remove_column alter
    drop_key index_foreign_keys
ddl (create_table name columns constraints) c = allowed (not (is_some (find name c))) (do
  t ←
      put_columns columns
        (record { columns = []; primary_key = []; indexes = []; foreign_keys = [] })
  t' ← constrain_all constraints c t
  t'' ← index_foreign_keys t'.foreign_keys t'
  some (put name t'' c))
ddl (drop_table name) c =
    allowed (is_some (find name c) && not (referred_from_elsewhere name c)) (some (erase name c))
ddl (add_column table column) c = in_table table (put_column column) c
ddl (drop_column table column) c =
    in_table table (λ t. allowed (not (in_foreign_key table column t c)) (remove_column column t)) c
ddl (alter_column table column a) c = alter table column a c
ddl (create_index name table columns distinct) c =
    in_table table (add_index name columns distinct) c
ddl (drop_index name table) c = drop_key name table c
ddl (create_unique_constraint name table columns) c = in_table table (add_index name columns true) c
ddl (create_foreign_key name source referent local remote ondelete) c =
    let k : ForeignKeyInfo = record {
      columns = local;
      referent = referent;
      referred = remote;
      ondelete = ondelete;
    } in
    in_table source
      (λ t.
        allowed (refers k t c)
          (do t' ← add_foreign_key name k t; index_foreign_keys t'.foreign_keys t'))
      c
ddl (drop_constraint name table foreignkey) c = in_table table (remove_foreign_key name) c
ddl (drop_constraint name table unique_key) c = drop_key name table c

unfoldable pub ddl_all : List Op → Catalog → Option Catalog
unfolding ddl
ddl_all [] c = some c
ddl_all (op ∷ ops) c = do c' ← ddl op c; ddl_all ops c'
