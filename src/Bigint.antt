-- ===== src/Bigint.antt =====
-- JavaScript's `bigint`: the integers, with division and remainder that round towards zero.
mod Defs
mod Ring
mod Residue
unfoldable pub use Defs.*
pub use Ring.*
unfoldable pub use Residue.*
