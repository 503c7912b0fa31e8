-- ===== src/Examples/Signing.antt =====
-- A signing library that writes the claims out, and reads them back from their issue time until they
-- expire.
use Prim.Native.Char.{Char, code}
use green_communuty_backend.Prelude.{
  ℕ, zero, suc, ◌+◌, ◌*◌, ◌/◌, String, ◌≡◌, refl, false, ◌≢◌, eq_iff, Bool-cases, inl, inr, Option,
  none, some, List, [], ◌∷◌, str_eq, leb, ltb, ◌&&◌, true, ◌==◌, if◌then◌else◌, arith,
}
use Prim.Native.Nat.{◌%◌}
use text.Mathlib.TextBridge.{to_list, of_list, to_list-of_list, of_list-to_list}
use green_communuty_backend.Auth.Security.{Crypto, CryptoLaws, Claims}

-- A text is written with a mark before each character, and a number as its quotient and its
-- remainder by 300, in strokes.
abbrev write_text : List Char → List Char → List Char
write_text [] rest = "e" ∷ rest
write_text (c ∷ cs) rest = "c" ∷ c ∷ write_text cs rest

abbrev read_text : List Char → List Char × List Char
read_text [] = ([], [])
read_text (m ∷ []) = ([], [])
read_text (m ∷ c ∷ rest) =
    let (cs, left) = read_text rest in if code m == 99 then (c ∷ cs, left) else ([], c ∷ rest)

read_text-write_text : (cs rest : List Char) → read_text (write_text cs rest) ≡ (cs, rest)
read_text-write_text [] [] = refl
read_text-write_text [] (c ∷ rest) = refl
read_text-write_text (c ∷ cs) rest = rw (read_text-write_text cs rest) refl

abbrev write_strokes : ℕ → List Char → List Char
write_strokes zero rest = "e" ∷ rest
write_strokes (suc n) rest = "1" ∷ write_strokes n rest

abbrev read_strokes : List Char → ℕ × List Char
read_strokes [] = (0, [])
read_strokes (m ∷ rest) =
    let (n, left) = read_strokes rest in if code m == 49 then (suc n, left) else (0, rest)

read_strokes-write_strokes :
    (n : ℕ) (rest : List Char) → read_strokes (write_strokes n rest) ≡ (n, rest)
read_strokes-write_strokes zero rest = refl
read_strokes-write_strokes (suc n) rest = rw (read_strokes-write_strokes n rest) refl

write_number : ℕ → List Char → List Char
write_number n rest = write_strokes (n / 300) (write_strokes (n % 300) rest)

read_number : List Char → ℕ × List Char
read_number l =
    let (q, left) = read_strokes l in let (r, rest) = read_strokes left in (q * 300 + r, rest)

divided : (n : ℕ) → n / 300 * 300 + n % 300 ≡ n
divided n = omega arith

read_number-write_number :
    (n : ℕ) (rest : List Char) → read_number (write_number n rest) ≡ (n, rest)
unfolding read_number write_number
read_number-write_number n rest =
    rw
      (
        read_strokes-write_strokes (n / 300) (write_strokes (n % 300) rest),
        read_strokes-write_strokes (n % 300) rest,
        divided n,
      )
      refl

pub write_claims : Claims → List Char
write_claims c = write_text (to_list c.sub) (
    write_text (to_list c.type)
      (write_text (to_list c.jti) (write_number c.iat (write_number c.exp []))))

pub read_claims : List Char → Claims
read_claims l =
    let (sub, l1) = read_text l in
    let (type, l2) = read_text l1 in
    let (jti, l3) = read_text l2 in
    let (iat, l4) = read_number l3 in
    let (exp, l5) = read_number l4 in
    record { sub = of_list sub; type = of_list type; jti = of_list jti; iat = iat; exp = exp }

read_claims-write_claims : (c : Claims) → read_claims (write_claims c) ≡ c
unfolding read_claims write_claims
read_claims-write_claims c =
    rw
      (
        read_text-write_text, read_text-write_text, read_text-write_text, read_number-write_number,
        read_number-write_number, of_list-to_list, of_list-to_list, of_list-to_list,
      )
      refl

abbrev until_expiry : ℕ → Claims → Option Claims
until_expiry now c = if leb c.iat now && ltb now c.exp then some c else none

until_expiry-live : (now : ℕ) (c d : Claims) → until_expiry now c ≡ some d → ltb now d.exp ≡ true
until_expiry-live now c d h = elim (Bool-cases (leb c.iat now && ltb now c.exp)) [
  | inl live ↦ ground (arith, h, live)
  | inr gone ↦ absurd (ground (arith, h, gone))
]

abbrev pub signing : Crypto
signing = record {
  encode = λ c. of_list (write_claims c);
  decode = λ now token. until_expiry now (read_claims (to_list token));
  str_of = λ n. of_list (write_strokes n []);
  int_of = λ s. some (read_strokes (to_list s)).0;
  sha256 = λ s. s;
  encoded_len = λ s. 8;
  hashpw = λ s. s;
  checkpw = λ s hash. some (str_eq s hash);
}

pub signing-laws : CryptoLaws signing
signing-laws = record {
  decode-encode = λ now c. rw (to_list-of_list, read_claims-write_claims) refl;
  decode-live = λ now token c h. until_expiry-live now (read_claims (to_list token)) c h;
  int_of-str_of = λ n. rw (to_list-of_list, read_strokes-write_strokes) refl;
}

filled_empty : (c : Char) (s : String) → String.◌∷◌ c s ≢ ""
filled_empty c s e = cc

not_empty : (c : Char) (s : String) → str_eq (String.◌∷◌ c s) "" ≡ false
not_empty c s = elim (Bool-cases (str_eq (String.◌∷◌ c s) "")) [
  | inl h ↦
      let e : String.◌∷◌ c s ≡ "" = (eq_iff (String.◌∷◌ c s) "").0 h in absurd (filled_empty c s e)
  | inr h ↦ h
]

text-filled : (cs rest : List Char) → str_eq (of_list (write_text cs rest)) "" ≡ false
text-filled [] rest = not_empty _ _
text-filled (c ∷ cs) rest = not_empty _ _

-- No token is empty.
pub encode-filled : (c : Claims) → str_eq (signing.encode c) "" ≡ false
unfolding write_claims
encode-filled c = text-filled (to_list c.sub) _
