-- ===== src/Posts/Keys.antt =====
-- The object keys of one image.
use Prim.Native.String.{◌++◌}
use Prim.Native.String.append
use Prim.Native.Char.{Char, code}
use text.Mathlib.TextLemmas.{append_cancel_left}
use green_communuty_backend.Prelude.{
  ℕ, String, ◌≡◌, ◌≢◌, ◌∙◌, ap, false, inl, inr, Bool-cases, str_eq, eq_iff, arith,
}
use green_communuty_backend.Posts.Images.{Keys, keys_of}

different : (s t : String) → s ≢ t → str_eq s t ≡ false
different s t h = elim (Bool-cases (str_eq s t)) [
  | inl e ↦ absurd (h ((eq_iff s t).0 e))
  | inr e ↦ e
]

-- The code of a text's second character: the letter after the slash.
abbrev second : String → ℕ
second String.[] = 0
second (String.◌∷◌ c String.[]) = 0
second (String.◌∷◌ c (String.◌∷◌ d s)) = code d

second-literal :
    (c d : Char) (s x : String) → second ((String.◌∷◌ c (String.◌∷◌ d s)) ++ x) ≡ code d
second-literal c d s x =
    ap second (append.cons c (String.◌∷◌ d s) x ∙ ap (λ v. String.◌∷◌ c v) (append.cons d s x))

second-content : (x : String) → second ("/content/" ++ x) ≡ 99
second-content x = second-literal "/" "c" "ontent/" x

second-original : (x : String) → second ("/original/" ++ x) ≡ 111
second-original x = second-literal "/" "o" "riginal/" x

second-thumbnail : (x : String) → second ("/thumbnail/" ++ x) ≡ 116
second-thumbnail x = second-literal "/" "t" "humbnail/" x

module _ (str : ℕ → String) (post : ℕ) where
  -- Two keys of one post in different folders differ.
  keys_differ :
      (s t : String)
      → second s ≢ second t
      → str_eq ("posts/" ++ (str post ++ s)) ("posts/" ++ (str post ++ t)) ≡ false
  keys_differ s t h = different _ _ (λ e. h (
      ap second (
        append_cancel_left (str post) s t
          (append_cancel_left "posts/" (str post ++ s) (str post ++ t) e))))

  module _ (file_id suffix : String) where
    abbrev own_keys : Keys
    own_keys = keys_of str post file_id suffix

    pub original-content : str_eq own_keys.content_key own_keys.original_key ≡ false
    unfolding keys_of
    original-content =
        keys_differ ("/content/" ++ (file_id ++ ".webp")) ("/original/" ++ (file_id ++ suffix))
          (λ e.
            omega
              (arith, e, second-content (file_id ++ ".webp"), second-original (file_id ++ suffix)))

    pub original-thumbnail : str_eq own_keys.thumbnail_key own_keys.original_key ≡ false
    unfolding keys_of
    original-thumbnail =
        keys_differ ("/thumbnail/" ++ (file_id ++ ".webp")) ("/original/" ++ (file_id ++ suffix))
          (λ e.
            omega (
              arith,
              e,
              second-thumbnail (file_id ++ ".webp"),
              second-original (file_id ++ suffix),
            ))

    pub content-thumbnail : str_eq own_keys.thumbnail_key own_keys.content_key ≡ false
    unfolding keys_of
    content-thumbnail =
        keys_differ ("/thumbnail/" ++ (file_id ++ ".webp")) ("/content/" ++ (file_id ++ ".webp"))
          (λ e.
            omega (
              arith,
              e,
              second-thumbnail (file_id ++ ".webp"),
              second-content (file_id ++ ".webp"),
            ))
