-- ===== src/Logging.antt =====
-- The masking of app/core/logging_config.py. Python's `str.lower` is a parameter; a key is its `str`.
pub mod Masking
use Prim.Native.Char.{code}
use green_communuty_backend.Prelude.{
  ℕ, suc, ◌+◌, String, Bool, true, false, ◌||◌, ◌&&◌, List, [], ◌∷◌, leb, ◌==◌, if◌then◌else◌,
}

-- The values of a log entry: a dict's items stand in their order.
mutual
  pub data Value : Type 0 where
    text : String → Value
    number : ℕ → Value
    list : Items → Value
    dict : Fields → Value

  pub data Items : Type 0 where
    end_items : Items
    item : Value → Items → Items

  pub data Fields : Type 0 where
    end_fields : Fields
    field : String → Value → Fields → Fields

abbrev pub sensitive_key_parts : List String
sensitive_key_parts =
    "password" ∷ "secret" ∷ "token" ∷ "authorization" ∷ "cookie" ∷ "api_key" ∷ "apikey" ∷ []

abbrev pub mask : Value
mask = text "***"

abbrev pub max_mask_depth : ℕ
max_mask_depth = 6

unfoldable pub starts_with : String → String → Bool
starts_with String.[] s = true
starts_with (String.◌∷◌ c part) String.[] = false
starts_with (String.◌∷◌ c part) (String.◌∷◌ d s) = code c == code d && starts_with part s

-- `part in s`
unfoldable pub is_in : String → String → Bool
unfolding starts_with
is_in part String.[] = starts_with part String.[]
is_in part (String.◌∷◌ c s) = starts_with part (String.◌∷◌ c s) || is_in part s

abbrev any_in : List String → String → Bool
any_in [] s = false
any_in (part ∷ parts) s = is_in part s || any_in parts s

module _ (lower : String → String) where
  -- `_is_sensitive`
  unfoldable pub is_sensitive : String → Bool
  unfolding is_in
  is_sensitive key = any_in sensitive_key_parts (lower key)

  -- `_mask_value`
  unfoldable mutual
    pub mask_value : Value → ℕ → Value
    mask_value (text s) depth = text s
    mask_value (number n) depth = number n
    mask_value (list xs) depth =
        let inner = mask_items xs (suc depth) in
        if leb max_mask_depth depth then list xs else list inner
    mask_value (dict fs) depth =
        let inner = mask_fields fs (suc depth) in
        if leb max_mask_depth depth then dict fs else dict inner

    pub mask_items : Items → ℕ → Items
    mask_items end_items depth = end_items
    mask_items (item v xs) depth = item (mask_value v depth) (mask_items xs depth)

    pub mask_fields : Fields → ℕ → Fields
    mask_fields end_fields depth = end_fields
    mask_fields (field key v fs) depth =
        let inner = mask_value v depth in
        field key (if is_sensitive key then mask else inner) (mask_fields fs depth)

  unfoldable pub mask_sensitive_data : Fields → Fields
  mask_sensitive_data event = mask_fields event 0
