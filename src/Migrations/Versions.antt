-- ===== src/Migrations/Versions.antt =====
-- alembic/versions: the migrations.
pub mod Initial
pub mod Menus
pub mod PostNames
pub mod Likes
pub mod Images
pub mod Later
