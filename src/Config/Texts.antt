-- ===== src/Config/Texts.antt =====
-- The functions of Python on texts that app/core/config.py calls: `strip`, `split(",")`, the length of
-- `encode("utf-8")`, and `quote_plus` of `urllib.parse`.
use Prim.Native.Nat.{◌%◌}
use Prim.Native.Char.{Char, code}
use Prim.Native.String.{◌++◌}
use green_communuty_backend.Prelude.{
  ℕ, zero, suc, ◌+◌, ◌/◌, String, Bool, true, false, ◌||◌, ◌&&◌, List, [], ◌∷◌, ltb, leb, ◌==◌,
  if◌then◌else◌,
}

abbrev pub between : ℕ → ℕ → ℕ → Bool
between low high n = leb low n && leb n high

-- `str.isspace` of one character
abbrev pub is_space : Char → Bool
is_space c =
    between 9 13 (code c)
    || between 28 32 (code c)
    || code c == 133
    || code c == 160
    || code c == 5760
    || between 8192 8202 (code c)
    || code c == 8232
    || code c == 8233
    || code c == 8239
    || code c == 8287
    || code c == 12288

abbrev pub is_empty : String → Bool
is_empty String.[] = true
is_empty (String.◌∷◌ c s) = false

unfoldable pub lstrip : String → String
lstrip String.[] = String.[]
lstrip (String.◌∷◌ c s) = let rest = lstrip s in if is_space c then rest else String.◌∷◌ c s

unfoldable pub rstrip : String → String
rstrip String.[] = String.[]
rstrip (String.◌∷◌ c s) =
    let rest = rstrip s in if is_empty rest && is_space c then String.[] else String.◌∷◌ c rest

unfoldable pub strip : String → String
unfolding lstrip rstrip
strip s = rstrip (lstrip s)

abbrev pub onto_first : Char → List String → List String
onto_first c [] = (String.◌∷◌ c String.[]) ∷ []
onto_first c (t ∷ ts) = (String.◌∷◌ c t) ∷ ts

unfoldable pub split_commas : String → List String
split_commas String.[] = String.[] ∷ []
split_commas (String.◌∷◌ c s) =
    let rest = split_commas s in if code c == 44 then String.[] ∷ rest else onto_first c rest

-- The bytes that UTF-8 spends on a character.
abbrev pub width : ℕ → ℕ
width n = if ltb n 128 then 1 else if ltb n 2048 then 2 else if ltb n 65536 then 3 else 4

unfoldable pub encoded_len : String → ℕ
encoded_len String.[] = 0
encoded_len (String.◌∷◌ c s) = width (code c) + encoded_len s

abbrev pub continuation : ℕ → ℕ
continuation n = 128 + n % 64

abbrev pub utf8 : ℕ → List ℕ
utf8 n =
    if ltb n 128
    then n ∷ []
    else if ltb n 2048
    then (192 + n / 64) ∷ continuation n ∷ []
    else if ltb n 65536
    then (224 + n / 4096) ∷ continuation (n / 64) ∷ continuation n ∷ []
    else (240 + n / 262144) ∷ continuation (n / 4096) ∷ continuation (n / 64) ∷ continuation n ∷ []

-- The character at a place, as a text.
unfoldable pub letter : ℕ → String → String
letter n String.[] = String.[]
letter zero (String.◌∷◌ c s) = String.◌∷◌ c String.[]
letter (suc n) (String.◌∷◌ c s) = letter n s

abbrev pub hex_digits : String
hex_digits = "0123456789ABCDEF"

unfoldable pub percent : List ℕ → String
unfolding letter
percent [] = String.[]
percent (b ∷ bytes) =
    "%" ++ (letter (b / 16) hex_digits ++ (letter (b % 16) hex_digits ++ percent bytes))

-- The characters that stay as they are: letters, digits and `_.-~`.
abbrev pub is_safe : ℕ → Bool
is_safe n =
    between 48 57 n
    || between 65 90 n
    || between 97 122 n
    || n == 95
    || n == 46
    || n == 45
    || n == 126

abbrev pub quoted : Char → String
quoted c =
    if is_safe (code c)
    then String.◌∷◌ c String.[]
    else if code c == 32
    then "+"
    else percent (utf8 (code c))

unfoldable pub quote_plus : String → String
unfolding percent
quote_plus String.[] = String.[]
quote_plus (String.◌∷◌ c s) = quoted c ++ quote_plus s
