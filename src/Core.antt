-- ===== src/Core.antt =====
-- What every part shares: the errors (app/core/exceptions.py), the calls that may raise, the
-- session of the database, and pagination (app/common/pagination.py).
pub mod Errors
pub mod Action
pub mod Keeps
pub mod Session
pub mod Redis
pub mod World
pub mod Storage
pub mod Site
pub mod Pagination
