-- ===== src/Posts/StoreImage.antt =====
-- The `try` block of `upload_image`, and what it leaves in the database and in the storage.
use green_communuty_backend.Prelude.{
  ℕ, String, ◌≡◌, refl, false, Option, some, List, [], ◌++◌, ◌∷◌, map, str_eq, eq_iff, arith,
}
use green_communuty_backend.Core.Errors.{Error}
use green_communuty_backend.Core.Action.{Action, ok, err}
use green_communuty_backend.Core.Session.{Engine, flush}
use green_communuty_backend.Core.Redis.{Redis}
use green_communuty_backend.Core.Storage.{Storage, StorageLaws}
use green_communuty_backend.Core.Site.{Site}
use green_communuty_backend.Models.{PostImage, Tables}
use green_communuty_backend.Posts.Repository as Repository
use green_communuty_backend.Posts.Images.{
  Files, Keys, row, rows, response, upload_files, store_image, or_rollback,
}

module _ (E : Engine) (R : Redis) (S : Storage) where
  abbrev pub in_bucket : String → Site E R S → Option (List ℕ)
  in_bucket key w = S.stored key w.bucket

  abbrev pub saved_rows : Site E R S → Tables
  saved_rows w = E.saved w.world.session

  -- An upload of the three files leaves the session alone.
  pub upload_files-world :
      (keys : Keys) (files : Files) (type : Option String) (w : Site E R S)
      → (upload_files E R S keys files type w).1.world ≡ w.world
  unfolding upload_files
  upload_files-world keys files type w = ground (arith)

  module _ (laws : StorageLaws S) (files : Files) (type : Option String) (w : Site E R S) where
    pub upload_files-stored :
        (names : Keys)
        → str_eq names.content_key names.original_key ≡ false
        → str_eq names.thumbnail_key names.original_key ≡ false
        → str_eq names.thumbnail_key names.content_key ≡ false
        → (upload_files E R S names files type w).0 ≡ ok tt
        → (in_bucket names.original_key (upload_files E R S names files type w).1
            ≡ some files.original)
          × (in_bucket names.content_key (upload_files E R S names files type w).1
              ≡ some files.content)
          × (in_bucket names.thumbnail_key (upload_files E R S names files type w).1
              ≡ some files.thumbnail)
    unfolding upload_files
    upload_files-stored names co to tc done =
        let webp : Option String = some "image/webp" in
        let b1 : S.Bucket = (S.upload names.original_key files.original type w.bucket).1 in
        let b2 : S.Bucket = (S.upload names.content_key files.content webp b1).1 in
        let first = λ (other : String).
          laws.stored-upload names.original_key other files.original type w.bucket in
        let next =
          λ (other : String). laws.stored-upload names.content_key other files.content webp b1 in
        let last = λ (other : String).
          laws.stored-upload names.thumbnail_key other files.thumbnail webp b2 in
        let same = λ (s : String). (eq_iff s s).1 refl in
        ground (
          arith,
          co,
          to,
          tc,
          done,
          first names.original_key,
          next names.original_key,
          last names.original_key,
          next names.content_key,
          last names.content_key,
          last names.thumbnail_key,
          same names.original_key,
          same names.content_key,
          same names.thumbnail_key,
        )

  -- Nothing is committed by a `try` block that raises.
  pub store_image-error :
      (id : ℕ) (names : Keys) (files : Files) (type : Option String) (w : Site E R S) (e : Error)
      → (store_image E R S id names files type w).0 ≡ err e
      → saved_rows (store_image E R S id names files type w).1 ≡ saved_rows w
  unfolding store_image Repository.add_image flush
  store_image-error id names files type w e h =
      let sent = (upload_files E R S names files type w).1.world.session in
      ground (
        arith,
        h,
        upload_files-world names files type w,
        E.saved-write
            (record (E.live sent) {
              images =
                  (E.live sent).images
                  ++ row E R S id names
                      (E.next_id (map (λ i. i.image_id) (E.live sent).images) sent)
                    ∷ [];
            })
            sent,
      )

  pub record Stored (id : ℕ) (names : Keys) (files : Files) (type : Option String) (w : Site E R S)
      (image : PostImage) : Type 0 where
    pub image_id : ℕ
    pub inserted : image ≡ row E R S id names image_id
    pub uploaded : (upload_files E R S names files type w).0 ≡ ok tt
    pub committed_rows :
        (saved_rows (store_image E R S id names files type w).1).images
        ≡ (rows E R S w).images ++ row E R S id names image_id ∷ []
    pub bucket_kept :
        (store_image E R S id names files type w).1.bucket
        ≡ (upload_files E R S names files type w).1.bucket

  pub store_image-ok :
      (id : ℕ) (names : Keys) (files : Files) (type : Option String) (w : Site E R S)
      (image : PostImage)
      → (store_image E R S id names files type w).0 ≡ ok image
      → Stored id names files type w image
  unfolding store_image Repository.add_image flush
  store_image-ok id names files type w image h =
      let sent = (upload_files E R S names files type w).1.world.session in
      let image_id = E.next_id (map (λ i. i.image_id) (E.live sent).images) sent in
      let added = record (E.live sent) {
        images = (E.live sent).images ++ row E R S id names image_id ∷ [];
      } in
      let kept = upload_files-world names files type w in
      record {
        image_id = image_id;
        inserted = ground (arith, h);
        uploaded = ground (arith, h);
        committed_rows =
            ground (arith, h, kept, E.live-write added sent, E.saved-commit (E.write added sent));
        bucket_kept = ground (arith, h);
      }

  pub or_rollback-error :
      {A : Type 0} (body : Action (Site E R S) A) (w : Site E R S) (e : Error)
      → (or_rollback E R S body w).0 ≡ err e
      → ((body w).0 ≡ err e) × (saved_rows (or_rollback E R S body w).1 ≡ saved_rows (body w).1)
  unfolding or_rollback
  or_rollback-error body w e h = ground (arith, h, E.saved-rollback (body w).1.world.session)

  pub or_rollback-ok :
      {A : Type 0} (body : Action (Site E R S) A) (w : Site E R S) (a : A)
      → (or_rollback E R S body w).0 ≡ ok a
      → or_rollback E R S body w ≡ body w
  unfolding or_rollback
  or_rollback-ok body w a h = ground (arith, h)

  -- A row is answered, unless its address raises.
  pub response-error :
      (image : PostImage) (e : Error)
      → response E R S image ≡ err e
      → S.generate_presigned_url image.image_content_path 3600 ≡ err e
  response-error image e h = ground (arith, h)
