-- ===== src/Comments/Mentions.antt =====
-- `_validate_mentions` of app/modules/comments/comment_service.py, over Python's `str.split`.
use Prim.Native.Char.{Char, code}
use Prim.Native.String.{[], ◌∷◌}
use green_communuty_backend.Prelude.{
  ℕ, String, Bool, ◌||◌, ◌&&◌, ◌==◌, leb, List, first, is_some, str_eq, if◌then◌else◌,
}
use green_communuty_backend.Core.Errors.{not_found}
use green_communuty_backend.Core.Action.{Result, ok, err, ◌and_then◌}
use green_communuty_backend.Core.Session.{Engine}
use green_communuty_backend.Models.{Tables}
use green_communuty_backend.Comments.Repository.{search_mention_users}

-- `str.isspace` of one character.
unfoldable pub is_space : Char → Bool
is_space c =
    let n = code c in
    (leb 9 n && leb n 13)
    || (leb 28 n && leb n 32)
    || n == 133
    || n == 160
    || n == 5760
    || (leb 8192 n && leb n 8202)
    || n == 8232
    || n == 8233
    || n == 8239
    || n == 8287
    || n == 12288

abbrev cons_word : String → List String → List String
cons_word [] words = words
cons_word (c ∷ w) words = List.◌∷◌ (c ∷ w) words

-- The word at the very start, which may be empty, and the words after it.
unfoldable pub words_from : String → String × List String
unfolding is_space
words_from [] = ([], List.[])
words_from (c ∷ s) =
    let (w, words) = words_from s in if is_space c then ([], cons_word w words) else (c ∷ w, words)

unfoldable pub split : String → List String
unfolding words_from
split s = let (w, words) = words_from s in cons_word w words

-- The text after the `@` of a word that begins with one, unless it is empty.
unfoldable pub mention_of : String → String
mention_of [] = []
mention_of (c ∷ rest) = if code c == 64 then rest else []

unfoldable pub is_known : Engine → ℕ → String → Tables → Bool
is_known E post nickname t =
    is_some (first (λ u. str_eq u.user_nickname nickname) (search_mention_users E post nickname t))

unfoldable pub check_word : Engine → ℕ → Tables → String → Result (Unit {0})
unfolding mention_of is_known
check_word E post t word =
    let nickname = mention_of word in
    if str_eq nickname "" || is_known E post nickname t then ok tt else err not_found

unfoldable pub check_words : Engine → ℕ → Tables → List String → Result (Unit {0})
unfolding check_word
check_words E post t List.[] = ok tt
check_words E post t (List.◌∷◌ word words) =
    check_word E post t word and_then check_words E post t words

unfoldable pub validate_mentions : Engine → ℕ → String → Tables → Result (Unit {0})
unfolding split check_words
validate_mentions E post content t = check_words E post t (split content)
