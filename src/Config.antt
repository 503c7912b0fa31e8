-- ===== src/Config.antt =====
-- app/core/config.py: the settings, what is derived from them, and the checks at the start.
pub mod Texts
pub mod Origins
pub mod Quoting
pub mod Unquoting
pub mod Settings
