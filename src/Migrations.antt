-- ===== src/Migrations.antt =====
-- alembic/: the migrations, the schema that they build, and the tables that the models declare.
pub mod Catalog
pub mod Operations
pub mod Tables
pub mod Alter
pub mod Ddl
pub mod Columns
pub mod Versions
pub mod Metadata
pub mod Declared
pub mod Revisions
pub mod Same
pub mod Orders
pub mod Carried
pub mod Upgrade
pub mod Undo
pub mod Downgrade
