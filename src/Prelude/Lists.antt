-- ===== src/Prelude/Lists.antt =====
-- Lists with native lengths, the rows that a condition selects, and stable sorting.
mod Rows
mod Sorting
mod Keyed
unfoldable pub use Rows.*
unfoldable pub use Sorting.*
pub use Keyed.*
