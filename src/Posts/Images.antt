-- ===== src/Posts/Images.antt =====
-- The images of app/modules/posts/post_service.py. Pillow, `Path(…).suffix.lower()`, Python's `str`
-- and the text of `uuid4()` are parameters.
use Prim.Native.String.{◌++◌}
use green_communuty_backend.Prelude.{
  ℕ, ◌+◌, ◌*◌, String, Bool, not, ◌||◌, ◌&&◌, Option, none, some, List, [], ◌∷◌, length, take, ltb,
  leb, ◌==◌, str_eq, if◌then◌else◌,
}
use green_communuty_backend.Core.Errors.{bad_request, forbidden, storage_not_configured}
use green_communuty_backend.Core.Action.{
  Action, Result, ok, err, ◌>>=◌, ◌>>◌, gets, pure, lift, modify, raise_if,
}
use green_communuty_backend.Core.Session.{Engine}
use green_communuty_backend.Core.Redis.{Redis}
use green_communuty_backend.Core.World.{tables}
use green_communuty_backend.Core.Storage.{Storage}
use green_communuty_backend.Core.Site.{Site, on_storage, in_session}
use green_communuty_backend.Models.{User, Post, PostImage, Tables}
use green_communuty_backend.Posts.Repository as Repository
use green_communuty_backend.Posts.Service.{find_post}

-- Pillow. `open_transposed` is `Image.open` and `exif_transpose`; it and `save_webp` are none where
-- Pillow raises.
pub record Pillow : Type 1 where
  pub Image : Type 0
  pub open_transposed : List ℕ → Option Image
  pub width : Image → ℕ
  pub height : Image → ℕ
  pub mode : Image → String
  pub has_transparency_info : Image → Bool
  pub convert : String → Image → Image
  pub thumbnail : ℕ → ℕ → Image → Image
  pub on_white : Image → Image
  pub fit : ℕ → ℕ → Image → Image
  pub pad : ℕ → ℕ → Image → Image
  pub save_webp : ℕ → Image → Option (List ℕ)

abbrev pub max_image_height_px : ℕ
max_image_height_px = 15000

abbrev pub max_content_width_px : ℕ
max_content_width_px = 1600

abbrev pub max_image_bytes : ℕ
max_image_bytes = 10 * 1024 * 1024

module _ (P : Pillow) where
  abbrev has_transparency : P.Image → Bool
  has_transparency i =
      str_eq (P.mode i) "RGBA"
      || str_eq (P.mode i) "LA"
      || (str_eq (P.mode i) "P" && P.has_transparency_info i)

  abbrev shrink : ℕ → P.Image → P.Image
  shrink max_width i =
      P.thumbnail max_width max_image_height_px
        (P.convert (if has_transparency i then "RGBA" else "RGB") i)

  abbrev resized : ℕ → Option P.Image → Option (List ℕ)
  resized max_width none = none
  resized max_width (some i) =
      if ltb max_image_height_px (P.height i) then none else P.save_webp 85 (shrink max_width i)

  -- None where the code raises an exception that the caller turns into a bad request.
  unfoldable pub resize_image : List ℕ → ℕ → Option (List ℕ)
  resize_image bytes max_width = resized max_width (P.open_transposed bytes)

  -- A portrait is cut to the square, a landscape gets white margins.
  abbrev square : P.Image → P.Image
  square i = if leb (P.width i) (P.height i) then P.fit 300 300 i else P.pad 300 300 i

  abbrev thumbnail_of : Option P.Image → Option (List ℕ)
  thumbnail_of none = none
  thumbnail_of (some i) =
      P.save_webp 80 (square (P.convert "RGB" (P.on_white (P.convert "RGBA" i))))

  unfoldable pub create_thumbnail_image : List ℕ → Option (List ℕ)
  create_thumbnail_image bytes = thumbnail_of (P.open_transposed bytes)

-- The three files of an image.
pub record Files : Type 0 where
  pub original : List ℕ
  pub content : List ℕ
  pub thumbnail : List ℕ

-- What FastAPI hands over: the name that was sent, the type and the whole file.
pub record UploadFile : Type 0 where
  pub filename : Option String
  pub content_type : Option String
  pub file : List ℕ

pub record PostImageResponse : Type 0 where
  pub image_id : ℕ
  pub post_id : ℕ
  pub image_url : String

abbrev both : List ℕ → Option (List ℕ) → Option (List ℕ) → Result Files
both bytes none thumbnail = err bad_request
both bytes (some content) none = err bad_request
both bytes (some content) (some thumbnail) =
    ok (record { original = bytes; content = content; thumbnail = thumbnail })

-- At most one byte over the limit is read.
unfoldable pub convert_file : Pillow → List ℕ → Result Files
convert_file P file =
    let bytes = take (max_image_bytes + 1) file in
    if ltb max_image_bytes (length bytes)
    then err bad_request
    else both bytes (resize_image P bytes max_content_width_px) (create_thumbnail_image P bytes)

-- The object keys of an image.
pub record Keys : Type 0 where
  pub original_key : String
  pub content_key : String
  pub thumbnail_key : String

unfoldable pub keys_of : (ℕ → String) → ℕ → String → String → Keys
keys_of str post file_id suffix = record {
  original_key = "posts/" ++ (str post ++ ("/original/" ++ (file_id ++ suffix)));
  content_key = "posts/" ++ (str post ++ ("/content/" ++ (file_id ++ ".webp")));
  thumbnail_key = "posts/" ++ (str post ++ ("/thumbnail/" ++ (file_id ++ ".webp")));
}

unfoldable pub get_share_url : (ℕ → String) → ℕ → List Post → Result String
unfolding find_post
get_share_url str id posts = elim (find_post id posts) [
  | err e ↦ err e
  | ok p ↦ ok ("http://localhost:5173/posts/" ++ str id)
]

module _ (E : Engine) (R : Redis) (S : Storage) where
  abbrev pub rows : Site E R S → Tables
  rows w = tables E R w.world

  -- The address of an image may raise.
  abbrev pub response : PostImage → Result PostImageResponse
  response i = elim (S.generate_presigned_url i.image_content_path 3600) [
    | err e ↦ err e
    | ok url ↦ ok (record { image_id = i.image_id; post_id = i.post_id; image_url = url })
  ]

  abbrev before :
      Result PostImageResponse → Result (List PostImageResponse) → Result (List PostImageResponse)
  before (err e) rest = err e
  before (ok first) (err e) = err e
  before (ok first) (ok rest) = ok (first ∷ rest)

  abbrev responses : List PostImage → Result (List PostImageResponse)
  responses [] = ok []
  responses (i ∷ images) = before (response i) (responses images)

  -- `storage_given` says whether the service was built with a storage.
  abbrev listed : Bool → List PostImage → Result (List PostImageResponse)
  listed storage_given [] = ok []
  listed storage_given (i ∷ images) =
      if storage_given then responses (i ∷ images) else err storage_not_configured

  unfoldable pub list_images : Bool → ℕ → Action (Site E R S) (List PostImageResponse)
  list_images storage_given id = do
    w ← gets (λ w. w)
    lift (find_post id (rows w).posts)
    lift (listed storage_given (Repository.list_images id (rows w).images))

  abbrev pub row : ℕ → Keys → ℕ → PostImage
  row post keys id = record {
    image_id = id;
    post_id = post;
    image_original_path = keys.original_key;
    image_content_path = keys.content_key;
    image_thumbnail_path = keys.thumbnail_key;
  }

  unfoldable pub upload_files : Keys → Files → Option String → Action (Site E R S) (Unit {0})
  upload_files keys files type = do
    on_storage E R S (S.upload keys.original_key files.original type)
    on_storage E R S (S.upload keys.content_key files.content (some "image/webp"))
    on_storage E R S (S.upload keys.thumbnail_key files.thumbnail (some "image/webp"))

  -- The `try` block.
  unfoldable pub store_image : ℕ → Keys → Files → Option String → Action (Site E R S) PostImage
  store_image post keys files type = do
    upload_files keys files type
    image ← in_session E R S (Repository.add_image E (row post keys))
    in_session E R S (modify E.commit)
    pure image

  abbrev settle : {A : Type 0} → Result A → Action (Site E R S) A
  settle (ok a) w = (ok a, w)
  settle (err e) w = (err e, (in_session E R S (modify E.rollback) w).1)

  -- `except Exception: rollback; raise`
  unfoldable pub or_rollback : {A : Type 0} → Action (Site E R S) A → Action (Site E R S) A
  or_rollback body w = let (r, w') = body w in settle r w'

  abbrev pub own : User → Post → Bool → Result (Unit {0})
  own current post storage_given =
      if not (post.author_id == current.user_id)
      then err forbidden
      else raise_if (not storage_given) storage_not_configured

  unfoldable pub upload_image :
      Pillow
      → (Option String → String)
      → (ℕ → String)
      → Bool
      → String
      → ℕ
      → User
      → UploadFile
      → Action (Site E R S) PostImageResponse
  upload_image P file_suffix str storage_given file_id id current image = do
    w ← gets (λ w. w)
    post ← lift (find_post id (rows w).posts)
    lift (own current post storage_given)
    files ← lift (convert_file P image.file)
    stored ← or_rollback (
        store_image id (keys_of str id file_id (file_suffix image.filename)) files
          image.content_type)
    lift (response stored)
