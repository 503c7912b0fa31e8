-- ===== src/Reports.antt =====
-- Reports and their moderation: the files of app/modules/reports, with the sanctions of
-- app/modules/users/user_sanctions_repository.py.
pub mod Repository
pub mod Service
pub mod Frame
pub mod Process
pub mod Nulls
