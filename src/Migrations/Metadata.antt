-- ===== src/Migrations/Metadata.antt =====
-- app/infrastructure/database/base.py: the tables that a model declares, as the operations that
-- would create them.
use Prim.Native.String.{◌++◌ as ◌&◌}
use green_communuty_backend.Prelude.{String, Bool, List, [], ◌∷◌, ◌++◌, true, false}
use green_communuty_backend.Migrations.Catalog.{Column}
use green_communuty_backend.Migrations.Operations.{
  Op, Constraint, primary_key, unique, create_table, create_index,
}

-- `mapped_column(…)`: the column, and its three flags
pub record MappedColumn : Type 0 where
  pub column : Column
  pub primary_key : Bool
  pub index : Bool
  pub unique : Bool

-- A class that inherits from Base, with the arguments of `__table_args__`.
pub record Model : Type 0 where
  pub tablename : String
  pub columns : List MappedColumn
  pub constraints : List Constraint
  pub indexes : List (String × List String)

joined : List String → String
joined [] = ""
joined (n ∷ ns) = "_" & (n & joined ns)

-- NAMING_CONVENTION
unfoldable pub index_name : String → List String → String
unfolding joined
index_name table names = "ix_" & (table & joined names)

unfoldable pub unique_name : String → List String → String
unfolding joined
unique_name table names = "uq_" & (table & joined names)

columns_of : List MappedColumn → List Column
columns_of [] = []
columns_of (m ∷ ms) = m.column ∷ columns_of ms

key_of : List MappedColumn → List String
key_of [] = []
key_of (m ∷ ms) =
    let rest = key_of ms in elim m.primary_key [ true ↦ m.column.name ∷ rest | false ↦ rest ]

uniques_of : String → List MappedColumn → List Constraint
unfolding unique_name
uniques_of table [] = []
uniques_of table (m ∷ ms) =
    let rest = uniques_of table ms in
    elim m.unique [
      | true ↦ unique (unique_name table (m.column.name ∷ [])) (m.column.name ∷ []) ∷ rest
      | false ↦ rest
    ]

indexes_of : String → List MappedColumn → List Op
unfolding index_name
indexes_of table [] = []
indexes_of table (m ∷ ms) =
    let rest = indexes_of table ms in
    elim m.index [
      | true ↦
          create_index (index_name table (m.column.name ∷ [])) table (m.column.name ∷ []) false
          ∷ rest
      | false ↦ rest
    ]

more_indexes : String → List (String × List String) → List Op
more_indexes table [] = []
more_indexes table ((name, names) ∷ rest) =
    create_index name table names false ∷ more_indexes table rest

-- The operations that create the table of a model.
unfoldable pub creates : Model → List Op
unfolding columns_of key_of uniques_of indexes_of more_indexes
creates m =
    create_table m.tablename (columns_of m.columns)
      (primary_key (key_of m.columns) ∷ (uniques_of m.tablename m.columns ++ m.constraints))
    ∷ (indexes_of m.tablename m.columns ++ more_indexes m.tablename m.indexes)

unfoldable pub create_all : List Model → List Op
unfolding creates
create_all [] = []
create_all (m ∷ ms) = creates m ++ create_all ms
