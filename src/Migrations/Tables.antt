-- ===== src/Migrations/Tables.antt =====
-- What MySQL makes of a change in one table: the table after it, or none where the statement is
-- refused.
use green_communuty_backend.Prelude.{
  String, Bool, true, false, not, ◌&&◌, ◌||◌, Option, none, some, List, [], ◌∷◌, str_eq, is_some,
  if◌then◌else◌,
}
use green_communuty_backend.Migrations.Catalog.{
  Dict, find, put, erase, any, similar_type, ColumnInfo, IndexInfo, ForeignKeyInfo, TableInfo,
  Catalog, Column, column_info,
}
use green_communuty_backend.Migrations.Operations.{Constraint, primary_key, unique, foreign_key}

infixl 5 ◌>>=◌
abbrev pub ◌>>=◌ : {A B : Type 0} → Option A → (A → Option B) → Option B
none >>= f = none
(some a) >>= f = f a

-- `none` unless the test holds
abbrev pub allowed : {A : Type 0} → Bool → Option A → Option A
allowed true r = r
allowed false r = none

unfoldable pub has : String → List String → Bool
has name [] = false
has name (n ∷ ns) = str_eq n name || has name ns

unfoldable pub all_in : {A : Type 0} → List String → Dict A → Bool
unfolding find
all_in [] d = true
all_in (n ∷ ns) d = is_some (find n d) && all_in ns d

-- Every column of the first list begins the second, in the order.
unfoldable pub leads : List String → List String → Bool
leads [] ns = true
leads (m ∷ ms) [] = false
leads (m ∷ ms) (n ∷ ns) = str_eq m n && leads ms ns

unfoldable pub renamed : String → String → List String → List String
renamed from to [] = []
renamed from to (n ∷ ns) = (if str_eq n from then to else n) ∷ renamed from to ns

unfoldable pub without : String → List String → List String
without name [] = []
without name (n ∷ ns) = if str_eq n name then ns else n ∷ without name ns

unfoldable pub in_table : String → (TableInfo → Option TableInfo) → Catalog → Option Catalog
unfolding find put
in_table table f c = do t ← find table c; t' ← f t; some (put table t' c)

-- MySQL drops an index that it made for a foreign key once another index serves. (Its manual says
-- that it might; this is the server that does.)
unfoldable pub without_generated : List String → Dict IndexInfo → Dict IndexInfo
unfolding leads
without_generated columns [] = []
without_generated columns ((n, i) ∷ rest) =
    let later = without_generated columns rest in
    if i.generated && leads i.columns columns then later else (n, i) ∷ later

unfoldable pub add_index : String → List String → Bool → TableInfo → Option TableInfo
unfolding find put all_in without_generated
add_index name columns distinct t =
    allowed (all_in columns t.columns && not (is_some (find name t.indexes))) (
      some (record t {
        indexes =
            put name (record { columns = columns; unique = distinct; generated = false })
              (without_generated columns t.indexes);
      }))

-- MySQL needs an index that begins with the columns of a foreign key (error 1553).
unfoldable pub index_needed : String → TableInfo → Bool
unfolding any erase leads
index_needed name t =
    any
      (λ (k : ForeignKeyInfo).
        not (leads k.columns t.primary_key)
        && not (any (λ (i : IndexInfo). leads k.columns i.columns) (erase name t.indexes)))
      t.foreign_keys

unfoldable pub remove_index : String → TableInfo → Option TableInfo
unfolding find erase index_needed
remove_index name t =
    allowed (is_some (find name t.indexes) && not (index_needed name t))
      (some (record t { indexes = erase name t.indexes }))

-- The primary key or an index begins with the columns.
unfoldable pub keyed : List String → TableInfo → Bool
unfolding any leads
keyed columns t =
    leads columns t.primary_key || any (λ (i : IndexInfo). leads columns i.columns) t.indexes

-- No foreign key refers to columns of the table that have lost their index (error 1553).
unfoldable pub referred_keyed : String → TableInfo → Catalog → Bool
unfolding any keyed
referred_keyed name t c = not (
    any
      (λ (u : TableInfo).
        any (λ (k : ForeignKeyInfo). str_eq k.referent name && not (keyed k.referred t))
          u.foreign_keys)
      c)

both_similar : Option ColumnInfo → Option ColumnInfo → Bool
unfolding similar_type
both_similar none b = false
both_similar (some a) none = false
both_similar (some a) (some b) = similar_type a.type b.type

-- As many columns as the other list names, of similar types, in the order (error 3780).
unfoldable pub similar : List String → List String → TableInfo → TableInfo → Bool
unfolding find both_similar
similar [] [] t u = true
similar [] (n ∷ ns) t u = false
similar (m ∷ ms) [] t u = false
similar (m ∷ ms) (n ∷ ns) t u =
    both_similar (find m t.columns) (find n u.columns) && similar ms ns t u

-- The referent, its columns and an index that begins with them have to exist, and the columns to be
-- similar to those of the table that refers.
unfoldable pub refers : ForeignKeyInfo → TableInfo → Catalog → Bool
unfolding find all_in keyed similar
refers k t c = elim (find k.referent c) [
  | none ↦ false
  | some u ↦ all_in k.referred u.columns && (keyed k.referred u && similar k.columns k.referred t u)
]

-- MySQL makes an index, of the constraint's name, for each foreign key whose columns have none.
unfoldable pub index_foreign_keys : Dict ForeignKeyInfo → TableInfo → Option TableInfo
unfolding find put keyed
index_foreign_keys [] t = some t
index_foreign_keys ((name, k) ∷ rest) t = do
  t' ←
      (if keyed k.columns t
        then some t
        else allowed (not (is_some (find name t.indexes))) (
            some (record t {
              indexes =
                  put name (record { columns = k.columns; unique = false; generated = true })
                    t.indexes;
            })))
  index_foreign_keys rest t'

unfoldable pub add_foreign_key : String → ForeignKeyInfo → TableInfo → Option TableInfo
unfolding find put all_in
add_foreign_key name k t =
    allowed (all_in k.columns t.columns && not (is_some (find name t.foreign_keys)))
      (some (record t { foreign_keys = put name k t.foreign_keys }))

unfoldable pub remove_foreign_key : String → TableInfo → Option TableInfo
unfolding find erase
remove_foreign_key name t =
    allowed (is_some (find name t.foreign_keys))
      (some (record t { foreign_keys = erase name t.foreign_keys }))

unfoldable pub constrain : Constraint → Catalog → TableInfo → Option TableInfo
unfolding all_in add_index refers add_foreign_key
constrain (primary_key columns) c t =
    allowed (all_in columns t.columns) (some (record t { primary_key = columns }))
constrain (unique name columns) c t = add_index name columns true t
constrain (foreign_key name k) c t = allowed (refers k t c) (add_foreign_key name k t)

unfoldable pub constrain_all : List Constraint → Catalog → TableInfo → Option TableInfo
unfolding constrain
constrain_all [] c t = some t
constrain_all (k ∷ ks) c t = do t' ← constrain k c t; constrain_all ks c t'

unfoldable pub put_column : Column → TableInfo → Option TableInfo
unfolding find put column_info
put_column column t =
    allowed (not (is_some (find column.name t.columns)))
      (some (record t { columns = put column.name (column_info column) t.columns }))

unfoldable pub put_columns : List Column → TableInfo → Option TableInfo
unfolding put_column
put_columns [] t = some t
put_columns (c ∷ cs) t = do t' ← put_column c t; put_columns cs t'

-- A foreign key of another table refers to the table.
unfoldable pub referred_from_elsewhere : String → Catalog → Bool
unfolding any erase
referred_from_elsewhere table c =
    any (λ (t : TableInfo). any (λ (k : ForeignKeyInfo). str_eq k.referent table) t.foreign_keys)
      (erase table c)

-- A foreign key stands on the column or refers to it.
unfoldable pub in_foreign_key : String → String → TableInfo → Catalog → Bool
unfolding any has
in_foreign_key table column t c =
    any (λ (k : ForeignKeyInfo). has column k.columns) t.foreign_keys
    || any
        (λ (u : TableInfo).
          any (λ (k : ForeignKeyInfo). str_eq k.referent table && has column k.referred)
            u.foreign_keys)
        c

-- An index goes with its last column.
unfoldable pub without_column : String → Dict IndexInfo → Dict IndexInfo
unfolding without
without_column column [] = []
without_column column ((n, i) ∷ rest) =
    let left = without column i.columns in
    let later = without_column column rest in
    elim left [ [] ↦ later | k ∷ ks ↦ (n, record i { columns = k ∷ ks }) ∷ later ]

unfoldable pub remove_column : String → TableInfo → Option TableInfo
unfolding find erase without_column
remove_column column t = allowed (is_some (find column t.columns)) (
    some (record t { columns = erase column t.columns; indexes = without_column column t.indexes }))
