-- ===== src/Noble.antt =====
-- What the protocols use of @noble/curves (secp256k1) and @noble/hashes: a parameter of every
-- model that calls it, with the documented behaviour as hypotheses.
mod Defs
mod Group
pub mod Toy
unfoldable pub use Defs.*
unfoldable pub use Group.*
