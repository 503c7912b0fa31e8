-- ===== src/Core/Storage.antt =====
-- app/infrastructure/storage: the object storage behind the class Storage, whose clients are calls
-- of boto3, and the choice of one by the settings.
use green_communuty_backend.Prelude.{
  ℕ, String, ◌≡◌, Bool, true, ◌||◌, Option, none, some, List, is_none, str_eq, if◌then◌else◌,
}
use green_communuty_backend.Core.Errors.{storage_not_configured}
use green_communuty_backend.Core.Action.{Action, Result, ok, err}

-- `upload` and `generate_presigned_url` may raise; `stored` is what a download of a key would give.
pub record Storage : Type 1 where
  pub Bucket : Type 0
  pub upload : String → List ℕ → Option String → Action Bucket (Unit {0})
  pub generate_presigned_url : String → ℕ → Result String
  pub stored : String → Bucket → Option (List ℕ)

-- What the documentation of an upload says: once it returns, the key has those bytes and the
-- other keys theirs.
pub record StorageLaws (S : Storage) : Type 0 where
  pub stored-upload :
      (key other : String) (bytes : List ℕ) (type : Option String) (b : S.Bucket)
      → (S.upload key bytes type b).0 ≡ ok tt
      → S.stored other (S.upload key bytes type b).1
        ≡ (if str_eq key other then some bytes else S.stored other b)

pub data Provider : Type 0 where
  r2 s3 : Provider

pub record StorageSettings : Type 0 where
  pub storage_provider : Provider
  pub s3_access_key : Option String
  pub s3_secret_key : Option String
  pub s3_bucket : Option String
  pub r2_account_id : Option String
  pub r2_access_key_id : Option String
  pub r2_secret_access_key : Option String
  pub r2_bucket_name : Option String

-- Python's `not value` of an optional text.
abbrev pub is_blank : Option String → Bool
is_blank none = true
is_blank (some s) = str_eq s ""

-- `R2Storage.__init__`
unfoldable pub r2_storage : StorageSettings → Result Provider
r2_storage cfg =
    if is_none cfg.r2_access_key_id
      || is_none cfg.r2_secret_access_key
      || is_blank cfg.r2_account_id
      || is_blank cfg.r2_bucket_name
    then err storage_not_configured
    else ok r2

-- `S3Storage.__init__`, and `_build_client` which it calls.
unfoldable pub s3_storage : StorageSettings → Result Provider
s3_storage cfg =
    if is_blank cfg.s3_bucket || is_none cfg.s3_access_key || is_none cfg.s3_secret_key
    then err storage_not_configured
    else ok s3

unfoldable pub get_storage : StorageSettings → Result Provider
unfolding r2_storage s3_storage
get_storage cfg = elim cfg.storage_provider [ r2 ↦ r2_storage cfg | s3 ↦ s3_storage cfg ]
