-- ===== src/Comments.antt =====
-- Comments, replies and mentions: the files of app/modules/comments.
pub mod Repository
pub mod Mentions
pub mod Service
pub mod Threads
pub mod Keeps
pub mod Frame
