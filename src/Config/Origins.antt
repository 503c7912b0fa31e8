-- ===== src/Config/Origins.antt =====
-- `cors_origins` of app/core/config.py.
use Prim.Native.Char.{Char, code}
use green_communuty_backend.Prelude.{
  ℕ, String, ◌≡◌, refl, ap, ◌∙◌, Bool, true, false, not, ◌||◌, inl, inr, Bool-cases, List, [], ◌∷◌,
  map, select, All, ◌==◌, arith,
}
use green_communuty_backend.Config.Texts.{
  is_empty, is_space, lstrip, rstrip, strip, split_commas, onto_first,
}

-- `[origin.strip() for origin in ….split(",") if origin.strip()]`
unfoldable pub cors_origins : String → List String
unfolding strip split_commas
cors_origins text = map strip (select (λ s. not (is_empty (strip s))) (split_commas text))

-- The text has the character of this number.
abbrev pub has_code : ℕ → String → Bool
has_code n String.[] = false
has_code n (String.◌∷◌ c s) = code c == n || has_code n s

pub record IsOrigin (s : String) : Type 0 where
  pub not_empty : is_empty s ≡ false
  pub no_comma : has_code 44 s ≡ false
  pub stripped : strip s ≡ s

has_code-lstrip : (n : ℕ) (s : String) → has_code n s ≡ false → has_code n (lstrip s) ≡ false
unfolding lstrip
has_code-lstrip n String.[] h = refl
has_code-lstrip n (String.◌∷◌ c s) h = ground (arith, h, has_code-lstrip n s)

has_code-rstrip : (n : ℕ) (s : String) → has_code n s ≡ false → has_code n (rstrip s) ≡ false
unfolding rstrip
has_code-rstrip n String.[] h = refl
has_code-rstrip n (String.◌∷◌ c s) h = ground (arith, h, has_code-rstrip n s)

rstrip_twice : (s : String) → rstrip (rstrip s) ≡ rstrip s
unfolding rstrip
rstrip_twice String.[] = refl
rstrip_twice (String.◌∷◌ c s) = ground (arith, rstrip_twice s)

-- The first character is no space.
abbrev starts_well : String → Bool
starts_well String.[] = true
starts_well (String.◌∷◌ c s) = not (is_space c)

starts-lstrip : (s : String) → starts_well (lstrip s) ≡ true
unfolding lstrip
starts-lstrip String.[] = refl
starts-lstrip (String.◌∷◌ c s) = ground (arith, starts-lstrip s)

starts-rstrip : (s : String) → starts_well s ≡ true → starts_well (rstrip s) ≡ true
unfolding rstrip
starts-rstrip String.[] h = refl
starts-rstrip (String.◌∷◌ c s) h = ground (arith, h)

lstrip_well : (s : String) → starts_well s ≡ true → lstrip s ≡ s
unfolding lstrip
lstrip_well String.[] h = refl
lstrip_well (String.◌∷◌ c s) h = ground (arith, h)

strip_twice : (s : String) → strip (strip s) ≡ strip s
unfolding strip
strip_twice s =
    ap rstrip (lstrip_well (rstrip (lstrip s)) (starts-rstrip (lstrip s) (starts-lstrip s)))
    ∙ rstrip_twice (lstrip s)

no_comma-strip : (s : String) → has_code 44 s ≡ false → has_code 44 (strip s) ≡ false
unfolding strip
no_comma-strip s h = has_code-rstrip 44 (lstrip s) (has_code-lstrip 44 s h)

abbrev CommaFree : String → Type 0
CommaFree s = has_code 44 s ≡ false

onto_first-CommaFree :
    (c : Char) (ts : List String)
    → (code c == 44) ≡ false
    → All CommaFree ts
    → All CommaFree (onto_first c ts)
onto_first-CommaFree c [] h all = (ground (arith, h), tt)
onto_first-CommaFree c (t ∷ ts) h all = (ground (arith, h, all.0), all.1)

split-CommaFree : (s : String) → All CommaFree (split_commas s)
unfolding split_commas
split-CommaFree String.[] = (refl, tt)
split-CommaFree (String.◌∷◌ c s) = elim (Bool-cases (code c == 44)) [
  | inl comma ↦ rw comma (refl, split-CommaFree s)
  | inr other ↦ rw other (onto_first-CommaFree c (split_commas s) other (split-CommaFree s))
]

picked :
    (texts : List String)
    → All CommaFree texts
    → All IsOrigin (map strip (select (λ s. not (is_empty (strip s))) texts))
unfolding select
picked [] all = tt
picked (t ∷ texts) all = elim (Bool-cases (is_empty (strip t))) [
  | inl blank ↦ rw blank (picked texts all.1)
  | inr full ↦ rw full (
    record { not_empty = full; no_comma = no_comma-strip t all.0; stripped = strip_twice t },
    picked texts all.1,
  )
]

-- Every origin in `cors_origins` is a text that is not empty, has no comma, and has no space at
-- either end.
pub cors_origins-IsOrigin : (text : String) → All IsOrigin (cors_origins text)
unfolding cors_origins
cors_origins-IsOrigin text = picked (split_commas text) (split-CommaFree text)
