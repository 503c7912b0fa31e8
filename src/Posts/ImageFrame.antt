-- ===== src/Posts/ImageFrame.antt =====
-- What the uploads and the job of the likes leave alone: every property of the tables that does not
-- depend on the images, and every one that does not depend on the likes.
use green_communuty_backend.Prelude.{ℕ, String, Bool, inl, inr, Option, List}
use green_communuty_backend.Core.Action.{Action, Result-cases, lift, pure, modify}
use green_communuty_backend.Core.Session.{Engine, flush}
use green_communuty_backend.Core.Session.Holds.{Holds, Holds-rollback}
use green_communuty_backend.Core.Keeps.{
  Keeps, Keeps-bind, Keeps-flush, Keeps-commit, Keeps-flush-pure,
}
use green_communuty_backend.Core.Redis.{Redis}
use green_communuty_backend.Core.World.{World, on_session, on_store, tables}
use green_communuty_backend.Core.Storage.{Storage}
use green_communuty_backend.Core.Site.{Site, in_session}
use green_communuty_backend.Models.{User, PostImage, PostLike, Tables}
use green_communuty_backend.Posts.Repository as Repository
use green_communuty_backend.Posts.Repository.Sync.{
  write_likes, scan_like_to_db, delete_keys, sync_keys,
}
use green_communuty_backend.Posts.Service.{find_post}
use green_communuty_backend.Posts.Images.{
  Pillow, Files, Keys, UploadFile, own, convert_file, keys_of, row, rows, upload_files, store_image,
  or_rollback, upload_image,
}
use green_communuty_backend.Posts.StoreImage.{upload_files-world}

module _ (E : Engine) (R : Redis) (S : Storage) (P : Tables → Type 0)
    (stable : (t : Tables) (rows : List PostImage) → P t → P (record t { images = rows })) where
  abbrev Kept : E.Session → Type 0
  Kept = Holds E P

  abbrev InSite : Site E R S → Type 0
  InSite w = Holds E P w.world.session

  on_session-Keeps :
      {A : Type 0} (m : Action E.Session A) → Keeps Kept m → Keeps InSite (in_session E R S m)
  on_session-Keeps m km w h = km w.world.session h

  add_image-Keeps : (draft : ℕ → PostImage) → Keeps Kept (Repository.add_image E draft)
  unfolding Repository.add_image
  add_image-Keeps draft s h = Keeps-flush-pure E P _ _ (stable (E.live s) _ h.live) s h

  upload_files-Keeps :
      (names : Keys) (files : Files) (type : Option String)
      → Keeps InSite (upload_files E R S names files type)
  upload_files-Keeps names files type w h = rw (upload_files-world E R S names files type w) h

  store_image-Keeps :
      (id : ℕ) (names : Keys) (files : Files) (type : Option String)
      → Keeps InSite (store_image E R S id names files type)
  unfolding store_image
  store_image-Keeps id names files type =
      Keeps-bind InSite (upload_files E R S names files type) _
        (upload_files-Keeps names files type)
        (λ _.
          Keeps-bind InSite (in_session E R S (Repository.add_image E (row E R S id names))) _
            (on_session-Keeps (Repository.add_image E (row E R S id names)) (add_image-Keeps _))
            (λ i.
              Keeps-bind InSite (in_session E R S (modify E.commit)) (λ _. pure i)
                (on_session-Keeps (modify E.commit) (Keeps-commit E P)) (λ _ v k. k)))

  or_rollback-Keeps :
      {A : Type 0} (body : Action (Site E R S) A)
      → Keeps InSite body
      → Keeps InSite (or_rollback E R S body)
  unfolding or_rollback
  or_rollback-Keeps body kb w h = elim (Result-cases (body w).0) [
    | inl (a, returned) ↦ rw returned (kb w h)
    | inr (e, raised) ↦ rw raised (Holds-rollback E P _ (kb w h))
  ]

  pub upload_image-Keeps :
      (L : Pillow) (file_suffix : Option String → String) (str : ℕ → String) (given : Bool)
      (file_id : String) (id : ℕ) (current : User) (image : UploadFile)
      → Keeps InSite (upload_image E R S L file_suffix str given file_id id current image)
  unfolding upload_image
  upload_image-Keeps L file_suffix str given file_id id current image w h =
      Keeps-bind InSite (lift (find_post id (rows E R S w).posts)) _ (λ v k. k)
        (λ post.
          Keeps-bind InSite (lift (own E R S current post given)) _ (λ v k. k)
            (λ _.
              Keeps-bind InSite (lift (convert_file L image.file)) _ (λ v k. k)
                (λ files.
                  Keeps-bind InSite
                    (or_rollback E R S (
                      store_image E R S id (keys_of str id file_id (file_suffix image.filename))
                        files image.content_type))
                    _
                    (or_rollback-Keeps
                      (store_image E R S id (keys_of str id file_id (file_suffix image.filename))
                        files image.content_type)
                      (store_image-Keeps id _ files image.content_type))
                    (λ _ v k. k))))
        w h

module _ (E : Engine) (R : Redis) (P : Tables → Type 0)
    (stable : (t : Tables) (rows : List PostLike) → P t → P (record t { likes = rows })) where
  abbrev InWorld : World E R → Type 0
  InWorld w = Holds E P w.session

  pub scan_like_to_db-Keeps : Keeps InWorld (scan_like_to_db E R)
  unfolding scan_like_to_db write_likes
  scan_like_to_db-Keeps w h =
      Keeps-bind InWorld (write_likes E R) (λ keys. on_store E R (delete_keys R keys))
        (λ v g.
          Keeps-bind InWorld
            (on_session E R (
              flush E (record (tables E R v) {
                likes = sync_keys R v.store (R.scan_likes v.store) (tables E R v).likes;
              })))
            _ (λ u k. Keeps-flush E P _ (stable (tables E R v) _ g.live) u.session k)
            (λ _.
              Keeps-bind InWorld (on_session E R (modify E.commit))
                (λ _. pure (R.scan_likes v.store)) (λ u k. Keeps-commit E P u.session k)
                (λ _ u k. k))
            v g)
        (λ _ v k. k) w h
