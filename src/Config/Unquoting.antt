-- ===== src/Config/Unquoting.antt =====
-- What `quote_plus` of `urllib.parse` writes, read back: its inverse, to the bytes of UTF-8.
use Prim.Native.Char.{Char, char, code}
use Prim.Native.Nat.{◌%◌}
use Prim.Native.String.{◌++◌}
use Prim.Native.String.append
use text.Mathlib.TextLemmas.{append_assoc}
use green_communuty_backend.Prelude.{
  ℕ, zero, suc, ◌+◌, ◌-◌, ◌*◌, ◌/◌, ◌<◌, String, ◌≡◌, refl, sym, ap, ◌∙◌, Bool, true, ◌&&◌, inl,
  inr, Bool-cases, List, [], ◌∷◌, ◌++◌ as ◌&◌, All, ◌==◌, leb, if◌then◌else◌, arith,
}
use green_communuty_backend.Config.Texts.{
  is_safe, letter, hex_digits, percent, utf8, quoted, quote_plus,
}

-- Where the reader stands: between characters, after a `%`, or after its first digit.
pub data Place : Type 0 where
  between after_sign : Place
  after_digit : ℕ → Place

-- The value of a hexadecimal digit.
abbrev pub hex_value : ℕ → ℕ
hex_value n = if leb n 57 then n - 48 else n - 55

abbrev pub read_quoted : Place → String → List ℕ
read_quoted place String.[] = []
read_quoted between (String.◌∷◌ c s) =
    let sign = read_quoted after_sign s in
    let rest = read_quoted between s in
    if code c == 37 then sign else if code c == 43 then 32 ∷ rest else code c ∷ rest
read_quoted after_sign (String.◌∷◌ c s) = read_quoted (after_digit (hex_value (code c))) s
read_quoted (after_digit high) (String.◌∷◌ c s) =
    (high * 16 + hex_value (code c)) ∷ read_quoted between s

-- `unquote_plus`, as bytes
abbrev pub unquote_plus : String → List ℕ
unquote_plus = read_quoted between

-- The bytes of a text.
abbrev pub encode : String → List ℕ
encode String.[] = []
encode (String.◌∷◌ c s) = utf8 (code c) & encode s

code_bound : (c : Char) → code c < 1114112
code_bound (char n p) = ground (arith, p)

utf8_bytes : (n : ℕ) → n < 1114112 → All (λ b. b < 256) (utf8 n)
utf8_bytes n h = ground arith

char_at : ℕ → String → Char
char_at n String.[] = "0"
char_at zero (String.◌∷◌ c s) = c
char_at (suc n) (String.◌∷◌ c s) = char_at n s

size : String → ℕ
size String.[] = 0
size (String.◌∷◌ c s) = suc (size s)

letter_lem : (n : ℕ) (s : String) → n < size s → letter n s ≡ String.◌∷◌ (char_at n s) String.[]
unfolding letter char_at size
letter_lem n String.[] h = absurd (omega arith)
letter_lem zero (String.◌∷◌ c s) h = refl
letter_lem (suc n) (String.◌∷◌ c s) h = letter_lem n s (omega arith)

digits_hold : ℕ → Bool
unfolding char_at
digits_hold zero = true
digits_hold (suc n) = hex_value (code (char_at n hex_digits)) == n && digits_hold n

digits_sound :
    (n k : ℕ) → digits_hold n ≡ true → k < n → hex_value (code (char_at k hex_digits)) ≡ k
unfolding digits_hold
digits_sound zero k h lt = absurd (omega arith)
digits_sound (suc n) k h lt = elim (Bool-cases (k == n)) [
  | inl last ↦ ground (arith, h, last)
  | inr before ↦ digits_sound n k (ground (arith, h)) (ground (arith, lt, before))
]

-- A digit that was written is read back.
digit_lem :
    (k : ℕ)
    → k < 16
    → (c : Char) × (letter k hex_digits ≡ String.◌∷◌ c String.[]) × (hex_value (code c) ≡ k)
unfolding digits_hold char_at size
digit_lem k h = (char_at k hex_digits, letter_lem k hex_digits h, digits_sound 16 k refl h)

pub one_char : (c : Char) (t : String) → String.◌∷◌ c String.[] ++ t ≡ String.◌∷◌ c t
one_char c t = append.cons c String.[] t ∙ ap (String.◌∷◌ c) (append.nil t)

-- A byte as `%XY`.
byte_lem :
    (b : ℕ) (t : String)
    → b < 256
    → unquote_plus ("%" ++ (letter (b / 16) hex_digits ++ (letter (b % 16) hex_digits ++ t)))
      ≡ b ∷ unquote_plus t
unfolding digit_lem
byte_lem b t h =
    let (high, is_high, high_value) = digit_lem (b / 16) (omega arith) in
    let (low, is_low, low_value) = digit_lem (b % 16) (omega arith) in
    let text : "%" ++ (letter (b / 16) hex_digits ++ (letter (b % 16) hex_digits ++ t))
        ≡ String.◌∷◌ "%" (String.◌∷◌ high (String.◌∷◌ low t)) =
      rw (is_high, is_low)
        (one_char "%" _
          ∙ ap (String.◌∷◌ "%") (one_char high _ ∙ ap (String.◌∷◌ high) (one_char low t))) in
    let value : hex_value (code high) * 16 + hex_value (code low) ≡ b =
      rw (high_value, low_value) (omega arith) in
    ap unquote_plus text ∙ ap (λ n. n ∷ unquote_plus t) value

percent_lem :
    (bytes : List ℕ) (t : String)
    → All (λ b. b < 256) bytes
    → unquote_plus (percent bytes ++ t) ≡ bytes & unquote_plus t
unfolding percent
percent_lem [] t h = ap unquote_plus (append.nil t)
percent_lem (b ∷ bytes) t h =
    let high = letter (b / 16) hex_digits in
    let low = letter (b % 16) hex_digits in
    ap unquote_plus (
      append_assoc "%" (high ++ (low ++ percent bytes)) t
      ∙ ap (λ u. "%" ++ u)
          (append_assoc high (low ++ percent bytes) t
            ∙ ap (λ u. high ++ u) (append_assoc low (percent bytes) t)))
    ∙ byte_lem b (percent bytes ++ t) h.0
    ∙ ap (λ l. b ∷ l) (percent_lem bytes t h.1)

safe_byte : (n : ℕ) → is_safe n ≡ true → utf8 n ≡ n ∷ []
safe_byte n safe = ground (arith, safe)

safe_lem :
    (c : Char) (t : String)
    → is_safe (code c) ≡ true
    → unquote_plus (String.◌∷◌ c t) ≡ code c ∷ unquote_plus t
safe_lem c t safe = ground (arith, safe)

quoted_lem : (c : Char) (t : String) → unquote_plus (quoted c ++ t) ≡ utf8 (code c) & unquote_plus t
quoted_lem c t = elim (Bool-cases (is_safe (code c))) [
  | inl safe ↦
      rw (safe, safe_byte (code c) safe) (ap unquote_plus (one_char c t) ∙ safe_lem c t safe)
  | inr unsafe ↦ elim (Bool-cases (code c == 32)) [
    | inl space ↦
        let is_space : code c ≡ 32 = ground (arith, space) in
        rw (unsafe, space)
          (ap unquote_plus (one_char "+" t) ∙ ap (λ n. utf8 n & unquote_plus t) (sym is_space))
    | inr other ↦
        rw (unsafe, other) (percent_lem (utf8 (code c)) t (utf8_bytes (code c) (code_bound c)))
  ]
]

-- Whatever the text is, `unquote_plus` reads its UTF-8 bytes back from what `quote_plus` writes.
pub unquote_plus-quote_plus : (s : String) → unquote_plus (quote_plus s) ≡ encode s
unfolding quote_plus
unquote_plus-quote_plus String.[] = refl
unquote_plus-quote_plus (String.◌∷◌ c s) =
    quoted_lem c (quote_plus s) ∙ ap (λ l. utf8 (code c) & l) (unquote_plus-quote_plus s)
