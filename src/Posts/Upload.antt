-- ===== src/Posts/Upload.antt =====
-- What `upload_image` leaves in the database and in the storage.

use green_communuty_backend.Prelude.{
  ℕ, String, ◌≡◌, sym, ◌∙◌, ap, Bool, ◌&&◌, ◌==◌, ◌⊎◌, Bool-cases, inl, inr, Option, some, [], ◌++◌,
  ◌∷◌, arith,
}
use green_communuty_backend.Core.Errors.{Error}
use green_communuty_backend.Core.Action.{Action, Result, ok, err, Result-cases}
use green_communuty_backend.Core.Session.{Engine}
use green_communuty_backend.Core.Redis.{Redis}
use green_communuty_backend.Core.Storage.{Storage, StorageLaws}
use green_communuty_backend.Core.Site.{Site}
use green_communuty_backend.Models.{User, Post, PostImage}
use green_communuty_backend.Posts.Service.{find_post}
use green_communuty_backend.Posts.Images.{
  Pillow, Files, Keys, UploadFile, PostImageResponse, convert_file, keys_of, row, rows, response,
  store_image, or_rollback, upload_image,
}
use green_communuty_backend.Posts.StoreImage.{
  in_bucket, saved_rows, upload_files-stored, store_image-error, store_image-ok, or_rollback-error,
  or_rollback-ok, response-error,
}
use green_communuty_backend.Posts.Keys.{original-content, original-thumbnail, content-thumbnail}

module _ (E : Engine) (R : Redis) (S : Storage) where
  module _ (P : Pillow) (file_suffix : Option String → String) (str : ℕ → String) (given : Bool)
      (file_id : String) (id : ℕ) (current : User) (image : UploadFile) (w : Site E R S) where
    abbrev upload : Result PostImageResponse × Site E R S
    upload = upload_image E R S P file_suffix str given file_id id current image w

    abbrev names : Keys
    names = keys_of str id file_id (file_suffix image.filename)

    abbrev author_with_storage : Post → Bool
    author_with_storage post = post.author_id == current.user_id && given

    abbrev attempt : Files → Action (Site E R S) PostImage
    attempt files = store_image E R S id names files image.content_type

    -- What an upload has done that raised after its commit.
    pub record Unanswered (e : Error) : Type 0 where
      pub image_id : ℕ
      pub unsigned : S.generate_presigned_url names.content_key 3600 ≡ err e
      pub committed :
          (saved_rows E R S upload.1).images
          ≡ (rows E R S w).images ++ row E R S id names image_id ∷ []

    -- If `upload_image` raises, then what is committed is what was committed before, except where
    -- the error is that of the address of the content, which is asked for after the commit: then
    -- the committed images are the earlier ones with the row of the upload.
    pub upload_image-error :
        (e : Error)
        → upload.0 ≡ err e
        → (saved_rows E R S upload.1 ≡ saved_rows E R S w) ⊎ Unanswered e
    unfolding upload_image
    upload_image-error e h = elim (Result-cases (find_post id (rows E R S w).posts)) [
      | inr (e', lost) ↦ inl (ground (arith, h, lost))
      | inl (post, found) ↦ elim (Result-cases (convert_file P image.file)) [
        | inr (e', bad) ↦ inl (ground (arith, h, found, bad))
        | inl (files, good) ↦ elim (Result-cases (or_rollback E R S (attempt files) w).0) [
          | inl (stored, returned) ↦ elim (Bool-cases (author_with_storage post)) [
            | inr refused ↦ inl (ground (arith, h, found, refused))
            | inl allowed ↦
                let same = or_rollback-ok E R S (attempt files) w stored returned in
                let kept =
                  store_image-ok E R S id names files image.content_type w stored
                    (sym (ap (λ v. v.0) same) ∙ returned) in
                let after : upload.1 ≡ (attempt files w).1 =
                  ground (arith, h, found, allowed, good, returned, ap (λ v. v.1) same) in
                let failed : response E R S stored ≡ err e =
                  ground (arith, h, found, allowed, good, returned) in
                inr (record {
                  image_id = kept.image_id;
                  unsigned =
                      response-error E R S (row E R S id names kept.image_id) e
                        (sym (ap (response E R S) kept.inserted) ∙ failed);
                  committed = ap (λ v. (saved_rows E R S v).images) after ∙ kept.committed_rows;
                })
          ]
          | inr (e', raised) ↦
              let undone = or_rollback-error E R S (attempt files) w e' raised in
              inl (
                ground (
                  arith,
                  h,
                  found,
                  good,
                  raised,
                  undone,
                  store_image-error E R S id names files image.content_type w e' undone.0,
                ))
        ]
      ]
    ]

    -- What an upload that returned has done.
    pub record Uploaded (answer : PostImageResponse) : Type 0 where
      pub post : Post
      pub files : Files
      pub image_id : ℕ
      pub post-found : find_post id (rows E R S w).posts ≡ ok post
      pub author : post.author_id ≡ current.user_id
      pub converted : convert_file P image.file ≡ ok files
      pub answered : response E R S (row E R S id names image_id) ≡ ok answer
      pub committed :
          (saved_rows E R S upload.1).images
          ≡ (rows E R S w).images ++ row E R S id names image_id ∷ []
      pub original_stored : in_bucket E R S names.original_key upload.1 ≡ some files.original
      pub content_stored : in_bucket E R S names.content_key upload.1 ≡ some files.content
      pub thumbnail_stored : in_bucket E R S names.thumbnail_key upload.1 ≡ some files.thumbnail

    -- Over a storage whose uploads are kept, if `upload_image` returns, then the post was found,
    -- the current user is its author, the file was converted, the committed images are the earlier
    -- ones with one row that names the three keys, the answer is that row's with an address for its
    -- content, and under the three keys the storage has the original, the content and the thumbnail.
    pub upload_image-ok :
        StorageLaws S → (answer : PostImageResponse) → upload.0 ≡ ok answer → Uploaded answer
    unfolding upload_image
    upload_image-ok laws answer h = elim (Result-cases (find_post id (rows E R S w).posts)) [
      | inr (e, lost) ↦ absurd (ground (arith, h, lost))
      | inl (post, found) ↦ elim (Result-cases (convert_file P image.file)) [
        | inr (e, bad) ↦ absurd (ground (arith, h, found, bad))
        | inl (files, good) ↦ elim (Result-cases (or_rollback E R S (attempt files) w).0) [
          | inr (e, raised) ↦ absurd (ground (arith, h, found, good, raised))
          | inl (stored, returned) ↦
              let same = or_rollback-ok E R S (attempt files) w stored returned in
              let kept =
                store_image-ok E R S id names files image.content_type w stored
                  (sym (ap (λ v. v.0) same) ∙ returned) in
              let suffix = file_suffix image.filename in
              let put =
                upload_files-stored E R S laws files image.content_type w names
                  (original-content str id file_id suffix)
                  (original-thumbnail str id file_id suffix)
                  (content-thumbnail str id file_id suffix) kept.uploaded in
              let after : upload.1 ≡ (attempt files w).1 =
                ground (arith, h, found, good, returned, ap (λ v. v.1) same) in
              let at_key = λ (key : String).
                ap (in_bucket E R S key) after ∙ ap (S.stored key) kept.bucket_kept in
              record {
                post = post;
                files = files;
                image_id = kept.image_id;
                post-found = found;
                author = ground (arith, h, found);
                converted = good;
                answered =
                    sym (ap (response E R S) kept.inserted)
                    ∙ ground (arith, h, found, good, returned);
                committed = ap (λ v. (saved_rows E R S v).images) after ∙ kept.committed_rows;
                original_stored = at_key names.original_key ∙ put.0;
                content_stored = at_key names.content_key ∙ put.1;
                thumbnail_stored = at_key names.thumbnail_key ∙ put.2;
              }
        ]
      ]
    ]
