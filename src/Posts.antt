-- ===== src/Posts.antt =====
-- Posts and their likes: the files of app/modules/posts.
pub mod Repository
pub mod Service
pub mod Likes
pub mod Images
pub mod Keys
pub mod StoreImage
pub mod Upload
pub mod Frame
pub mod ImageFrame
pub mod SyncJob
pub mod Ownership
pub mod LikeValues
