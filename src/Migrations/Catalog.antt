-- ===== src/Migrations/Catalog.antt =====
-- What MySQL keeps of a schema. The entries of a kind stand in the order of their names, so that
-- two schemas with the same entries are equal. The version table of Alembic is left out.
use Prim.Native.Nat.{Ordering}
use Prim.Native.String.{◌++◌, compare}
use green_communuty_backend.Prelude.{
  ℕ, String, Bool, true, false, ◌||◌, ◌&&◌, ◌==◌, Option, none, some, List, [], ◌∷◌, str_eq,
  if◌then◌else◌,
}

abbrev pub Dict {ℓ} : Type ℓ → Type ℓ
Dict A = List (String × A)

module _ {ℓ} {A : Type ℓ} where
  unfoldable pub find : String → Dict A → Option A
  find name [] = none
  find name ((n, a) ∷ rest) = if str_eq n name then some a else find name rest

  unfoldable pub put : String → A → Dict A → Dict A
  put name a [] = (name, a) ∷ []
  put name a ((n, b) ∷ rest) =
      let later = put name a rest in
      elim (compare name n) [
        | Ordering.lt ↦ (name, a) ∷ (n, b) ∷ rest
        | Ordering.eq ↦ (name, a) ∷ rest
        | Ordering.gt ↦ (n, b) ∷ later
      ]

  unfoldable pub erase : String → Dict A → Dict A
  erase name [] = []
  erase name ((n, b) ∷ rest) = if str_eq n name then rest else (n, b) ∷ erase name rest

  unfoldable pub any : (A → Bool) → Dict A → Bool
  any test [] = false
  any test ((n, a) ∷ rest) = test a || any test rest

  unfoldable pub update_all : (A → A) → Dict A → Dict A
  update_all f [] = []
  update_all f ((n, a) ∷ rest) = (n, f a) ∷ update_all f rest

-- The types of MySQL.
pub data ColumnType : Type 0 where
  int mysql_text datetime : ColumnType
  varchar : ℕ → ColumnType
  tinyint : ℕ → ColumnType
  enum_of : List String → ColumnType

unfoldable pub same_texts : List String → List String → Bool
same_texts [] [] = true
same_texts (s ∷ ss) (t ∷ ts) = str_eq s t && same_texts ss ts
same_texts [] (t ∷ ts) = false
same_texts (s ∷ ss) [] = false

unfoldable pub same_type : ColumnType → ColumnType → Bool
unfolding same_texts
same_type int int = true
same_type mysql_text mysql_text = true
same_type datetime datetime = true
same_type (varchar m) (varchar n) = m == n
same_type (tinyint m) (tinyint n) = m == n
same_type (enum_of vs) (enum_of ws) = same_texts vs ws
same_type _ _ = false

-- The types that the columns of a foreign key and of its referent may have: the same, or texts of
-- any two lengths.
unfoldable pub similar_type : ColumnType → ColumnType → Bool
unfolding same_type
similar_type (varchar m) (varchar n) = true
similar_type a b = same_type a b

-- `sa.Integer()` and the like, and the two types of the MySQL dialect.
pub data SqlType : Type 0 where
  integer text date_time boolean : SqlType
  string mysql_varchar mysql_tinyint : ℕ → SqlType
  native_enum : List String → SqlType
  text_enum : List String → ℕ → SqlType

-- The MySQL type for a type of SQLAlchemy.
unfoldable pub compiled : SqlType → ColumnType
compiled integer = int
compiled text = mysql_text
compiled date_time = datetime
compiled boolean = tinyint 1
compiled (string n) = varchar n
compiled (mysql_varchar n) = varchar n
compiled (mysql_tinyint n) = tinyint n
compiled (native_enum values) = enum_of values
compiled (text_enum values n) = varchar n

-- `server_default="0"`, and `server_default=sa.text("CURRENT_TIMESTAMP")`
pub data ServerDefault : Type 0 where
  literal : String → ServerDefault
  expression : String → ServerDefault

-- MySQL reports the default of a BOOLEAN as '0' also where it was written as false.
unfoldable pub stored : ServerDefault → String
stored (literal s) = "'" ++ (s ++ "'")
stored (expression s) = if str_eq s "false" then "'0'" else s

pub record ColumnInfo : Type 0 where
  pub type : ColumnType
  pub nullable : Bool
  pub default : Option String
  pub comment : Option String
  pub autoincrement : Bool

pub record IndexInfo : Type 0 where
  pub columns : List String
  pub unique : Bool
  -- made by MySQL for a foreign key
  pub generated : Bool

pub record ForeignKeyInfo : Type 0 where
  pub columns : List String
  pub referent : String
  pub referred : List String
  pub ondelete : Option String

pub record TableInfo : Type 0 where
  pub columns : Dict ColumnInfo
  pub primary_key : List String
  pub indexes : Dict IndexInfo
  pub foreign_keys : Dict ForeignKeyInfo

abbrev pub Catalog : Type 0
Catalog = Dict TableInfo

-- `sa.Column(…)`
pub record Column : Type 0 where
  pub name : String
  pub type : SqlType
  pub nullable : Bool
  pub server_default : Option ServerDefault
  pub comment : Option String
  pub autoincrement : Bool

unfoldable pub column_info : Column → ColumnInfo
unfolding compiled stored
column_info c = record {
  type = compiled c.type;
  nullable = c.nullable;
  default = elim c.server_default [ none ↦ none | some d ↦ some (stored d) ];
  comment = c.comment;
  autoincrement = c.autoincrement;
}
