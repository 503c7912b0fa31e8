-- ===== src/Menus.antt =====
-- The menu tree: app/modules/menus/menu_repository.py and menu_service.py.
pub mod Repository
pub mod Service
pub mod Lookup
pub mod Forest
pub mod Invariant
pub mod Keeps
pub mod Frame
pub mod Moves
pub mod Descent
pub mod Tree
