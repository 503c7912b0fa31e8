-- ===== src/Examples/Uploads.antt =====
-- Uploads of an image at concrete inputs.
use green_communuty_backend.Prelude.{
  ◌≡◌, ◌⊎◌, refl, true, some, [], ◌∷◌, select, one_or_none, length, take,
}
use green_communuty_backend.Core.Errors.{forbidden}
use green_communuty_backend.Core.Action.{ok, err}
use green_communuty_backend.Core.Session.{flush}
use green_communuty_backend.Posts.Repository as Repository
use green_communuty_backend.Posts.Service.{find_post}
use green_communuty_backend.Posts.Images.{
  UploadFile, PostImageResponse, upload_image, store_image, upload_files, or_rollback, convert_file,
  resize_image, create_thumbnail_image, keys_of,
}
use green_communuty_backend.Posts.StoreImage.{saved_rows}
use green_communuty_backend.Posts.Upload.{Uploaded, Unanswered, upload_image-ok, upload_image-error}
use green_communuty_backend.Examples.Database.{permissive}
use green_communuty_backend.Examples.Cache.{cache}
use green_communuty_backend.Examples.Rows.{ann, bob}
use green_communuty_backend.Examples.Site.{shelf, shelf-laws, plain_images, site}

abbrev photo : UploadFile
photo = record { filename = some "photo.png"; content_type = some "image/png"; file = 1 ∷ 2 ∷ [] }

abbrev answer : PostImageResponse
answer = record {
  image_id = 1;
  post_id = 1;
  image_url = "https://images.example.com/posts/7/content/f.webp";
}

taken :
    (upload_image permissive cache shelf plain_images
      (λ name. ".png")
      (λ n. "7")
      true
      "f"
      1
      ann
      photo
      site).0
    ≡ ok answer
unfolding upload_image store_image upload_files or_rollback convert_file resize_image
    create_thumbnail_image keys_of find_post Repository.add_image Repository.get_by_id flush select
    one_or_none length take
taken = refl

upload_image-ok_example :
    Uploaded permissive cache shelf plain_images
      (λ name. ".png")
      (λ n. "7")
      true
      "f"
      1
      ann
      photo
      site
      answer
upload_image-ok_example =
    upload_image-ok permissive cache shelf plain_images (λ name. ".png") (λ n. "7") true "f" 1 ann
      photo site shelf-laws answer taken

refused :
    (upload_image permissive cache shelf plain_images
      (λ name. ".png")
      (λ n. "7")
      true
      "f"
      1
      bob
      photo
      site).0
    ≡ err forbidden
unfolding upload_image find_post Repository.get_by_id select one_or_none
refused = refl

upload_image-error_example :
    (saved_rows permissive cache shelf
        (upload_image permissive cache shelf plain_images
          (λ name. ".png")
          (λ n. "7")
          true
          "f"
          1
          bob
          photo
          site).1
      ≡ saved_rows permissive cache shelf site)
    ⊎ Unanswered permissive cache shelf plain_images
        (λ name. ".png")
        (λ n. "7")
        true
        "f"
        1
        bob
        photo
        site
        forbidden
upload_image-error_example =
    upload_image-error permissive cache shelf plain_images (λ name. ".png") (λ n. "7") true "f" 1
      bob photo site forbidden refused
