-- ===== src/Users.antt =====
-- Users: app/modules/users/user_repository.py and user_service.py.
pub mod Repository
pub mod Service
pub mod Unique
pub mod Frame
pub mod Signup
