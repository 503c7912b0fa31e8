-- ===== src/Logging/Masking.antt =====
-- What a masked log entry shows.
use green_communuty_backend.Prelude.{
  ℕ, zero, suc, ◌+◌, ◌≤◌, ◌≡◌, refl, String, Bool, false, not, ◌||◌, ◌&&◌, inl, inr, Bool-cases,
  leb, str_eq, arith,
}
use green_communuty_backend.Logging.{
  Value, Items, Fields, text, number, list, dict, end_items, item, end_fields, field,
  max_mask_depth, is_sensitive, mask_value, mask_items, mask_fields, mask_sensitive_data,
}

abbrev is_mask : Value → Bool
is_mask (text s) = str_eq s "***"
is_mask (number n) = false
is_mask (list xs) = false
is_mask (dict fs) = false

module _ (lower : String → String) where
  -- Somewhere down to this number of levels below, a sensitive key has a value that is not the mask.
  unfoldable mutual
    pub shows : Value → ℕ → Bool
    shows (text s) levels = false
    shows (number n) levels = false
    shows (list xs) zero = false
    shows (list xs) (suc levels) = shows_items xs levels
    shows (dict fs) zero = false
    shows (dict fs) (suc levels) = shows_fields fs levels

    shows_items : Items → ℕ → Bool
    shows_items end_items levels = false
    shows_items (item v xs) levels = shows v levels || shows_items xs levels

    pub shows_fields : Fields → ℕ → Bool
    shows_fields end_fields levels = false
    shows_fields (field key v fs) levels =
        (is_sensitive lower key && not (is_mask v)) || shows v levels || shows_fields fs levels

  mutual
    unfolding shows mask_value

    mask_value-shows :
        (v : Value) (depth levels : ℕ)
        → depth + levels ≤ max_mask_depth
        → shows (mask_value lower v depth) levels ≡ false
    mask_value-shows (text s) depth levels h = refl
    mask_value-shows (number n) depth levels h = refl
    mask_value-shows (list xs) depth zero h = elim (Bool-cases (leb max_mask_depth depth)) [
      | inl deep ↦ rw deep refl
      | inr high ↦ rw high refl
    ]
    mask_value-shows (list xs) depth (suc levels) h =
        let high : leb max_mask_depth depth ≡ false = ground (arith, h) in
        rw high (mask_items-shows xs (suc depth) levels (omega (arith, h)))
    mask_value-shows (dict fs) depth zero h = elim (Bool-cases (leb max_mask_depth depth)) [
      | inl deep ↦ rw deep refl
      | inr high ↦ rw high refl
    ]
    mask_value-shows (dict fs) depth (suc levels) h =
        let high : leb max_mask_depth depth ≡ false = ground (arith, h) in
        rw high (mask_fields-shows fs (suc depth) levels (omega (arith, h)))

    mask_items-shows :
        (xs : Items) (depth levels : ℕ)
        → depth + levels ≤ max_mask_depth
        → shows_items (mask_items lower xs depth) levels ≡ false
    mask_items-shows end_items depth levels h = refl
    mask_items-shows (item v xs) depth levels h =
        rw (mask_value-shows v depth levels h) (mask_items-shows xs depth levels h)

    mask_fields-shows :
        (fs : Fields) (depth levels : ℕ)
        → depth + levels ≤ max_mask_depth
        → shows_fields (mask_fields lower fs depth) levels ≡ false
    mask_fields-shows end_fields depth levels h = refl
    mask_fields-shows (field key v fs) depth levels h = elim (Bool-cases (is_sensitive lower key)) [
      | inl secret ↦ rw (secret) (mask_fields-shows fs depth levels h)
      | inr plain ↦
          rw (plain, mask_value-shows v depth levels h) (mask_fields-shows fs depth levels h)
    ]

  -- In a log entry that was masked, no sensitive key has a value other than the mask, down to six
  -- levels below the entry's own keys.
  pub mask_sensitive_data-hides :
      (event : Fields) → shows_fields (mask_sensitive_data lower event) max_mask_depth ≡ false
  unfolding mask_sensitive_data
  mask_sensitive_data-hides event = mask_fields-shows event 0 max_mask_depth (omega arith)
