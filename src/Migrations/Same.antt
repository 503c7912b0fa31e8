-- ===== src/Migrations/Same.antt =====
-- Equality of schemas as a test.
use green_communuty_backend.Prelude.{
  String, Bool, true, false, ◌&&◌, Option, none, some, List, [], ◌∷◌, ◌≡◌, refl, str_eq, arith,
  eq_iff,
}
use green_communuty_backend.Migrations.Catalog.{
  Dict, ColumnType, enum_of, same_texts, same_type, ColumnInfo, IndexInfo, ForeignKeyInfo,
  TableInfo, Catalog,
}
use green_communuty_backend.Migrations.Alter.{same_bool}

and_true : (a b : Bool) → (a && b) ≡ true → (a ≡ true) × (b ≡ true)
and_true a b h = ground arith

same_optional : Option String → Option String → Bool
same_optional none none = true
same_optional none (some t) = false
same_optional (some s) none = false
same_optional (some s) (some t) = str_eq s t

same_dict {ℓ} : {A : Type ℓ} → (A → A → Bool) → Dict A → Dict A → Bool
same_dict same [] [] = true
same_dict same [] (e ∷ es) = false
same_dict same (d ∷ ds) [] = false
same_dict same ((m, a) ∷ ds) ((n, b) ∷ es) = str_eq m n && (same a b && same_dict same ds es)

same_column : ColumnInfo → ColumnInfo → Bool
unfolding same_type same_bool same_optional
same_column a b =
    same_type a.type b.type
    && (same_bool a.nullable b.nullable
        && (same_optional a.default b.default
            && (same_optional a.comment b.comment && same_bool a.autoincrement b.autoincrement)))

same_index : IndexInfo → IndexInfo → Bool
unfolding same_texts same_bool
same_index a b =
    same_texts a.columns b.columns
    && (same_bool a.unique b.unique && same_bool a.generated b.generated)

same_foreign_key : ForeignKeyInfo → ForeignKeyInfo → Bool
unfolding same_texts same_optional
same_foreign_key a b =
    same_texts a.columns b.columns
    && (str_eq a.referent b.referent
        && (same_texts a.referred b.referred && same_optional a.ondelete b.ondelete))

same_table : TableInfo → TableInfo → Bool
unfolding same_dict same_column same_index same_foreign_key same_texts
same_table a b =
    same_dict same_column a.columns b.columns
    && (same_texts a.primary_key b.primary_key
        && (same_dict same_index a.indexes b.indexes
            && same_dict same_foreign_key a.foreign_keys b.foreign_keys))

unfoldable pub same_catalog : Catalog → Catalog → Bool
unfolding same_dict same_table
same_catalog = same_dict same_table

same_texts→eq : (a b : List String) → same_texts a b ≡ true → a ≡ b
unfolding same_texts
same_texts→eq [] [] h = refl
same_texts→eq [] (t ∷ ts) h = absurd (ground arith)
same_texts→eq (s ∷ ss) [] h = absurd (ground arith)
same_texts→eq (s ∷ ss) (t ∷ ts) h = ground (arith, eq_iff s t, same_texts→eq ss ts)

same_type→eq : (a b : ColumnType) → same_type a b ≡ true → a ≡ b
unfolding same_type
same_type→eq (enum_of vs) (enum_of ws) h = ground (arith, same_texts→eq vs ws)
same_type→eq a b h = ground arith

same_bool→eq : (a b : Bool) → same_bool a b ≡ true → a ≡ b
unfolding same_bool
same_bool→eq a b h = ground arith

same_optional→eq : (a b : Option String) → same_optional a b ≡ true → a ≡ b
unfolding same_optional
same_optional→eq none none h = refl
same_optional→eq none (some t) h = ground arith
same_optional→eq (some s) none h = ground arith
same_optional→eq (some s) (some t) h = ground (arith, eq_iff s t)

same_dict→eq {ℓ} :
    {A : Type ℓ} (same : A → A → Bool)
    → ((a b : A) → same a b ≡ true → a ≡ b)
    → (d e : Dict A) → same_dict same d e ≡ true
    → d ≡ e
unfolding same_dict
same_dict→eq same sound [] [] h = refl
same_dict→eq same sound [] (e ∷ es) h = cc
same_dict→eq same sound (d ∷ ds) [] h = cc
same_dict→eq same sound ((m, a) ∷ ds) ((n, b) ∷ es) h =
    let (name, rest) = and_true (str_eq m n) (same a b && same_dict same ds es) h in
    let (value, later) = and_true (same a b) (same_dict same ds es) rest in
    cc ((eq_iff m n).0 name, sound a b value, same_dict→eq same sound ds es later)

same_column→eq : (a b : ColumnInfo) → same_column a b ≡ true → a ≡ b
unfolding same_column
same_column→eq a b h = ground (
  arith,
  same_type→eq a.type b.type,
  same_bool→eq a.nullable b.nullable,
  same_optional→eq a.default b.default,
  same_optional→eq a.comment b.comment,
  same_bool→eq a.autoincrement b.autoincrement,
)

same_index→eq : (a b : IndexInfo) → same_index a b ≡ true → a ≡ b
unfolding same_index
same_index→eq a b h = ground (
  arith,
  same_texts→eq a.columns b.columns,
  same_bool→eq a.unique b.unique,
  same_bool→eq a.generated b.generated,
)

same_foreign_key→eq : (a b : ForeignKeyInfo) → same_foreign_key a b ≡ true → a ≡ b
unfolding same_foreign_key
same_foreign_key→eq a b h = ground (
  arith,
  same_texts→eq a.columns b.columns,
  eq_iff a.referent b.referent,
  same_texts→eq a.referred b.referred,
  same_optional→eq a.ondelete b.ondelete,
)

same_table→eq : (a b : TableInfo) → same_table a b ≡ true → a ≡ b
unfolding same_table
same_table→eq a b h = ground (
  arith,
  same_dict→eq same_column same_column→eq a.columns b.columns,
  same_texts→eq a.primary_key b.primary_key,
  same_dict→eq same_index same_index→eq a.indexes b.indexes,
  same_dict→eq same_foreign_key same_foreign_key→eq a.foreign_keys b.foreign_keys,
)

pub same_catalog→eq : (c d : Catalog) → same_catalog c d ≡ true → c ≡ d
unfolding same_catalog
same_catalog→eq = same_dict→eq same_table same_table→eq
