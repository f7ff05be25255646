-- ===== src/Hex.antt =====
-- Hexadecimal text as JavaScript writes and reads it: `toString(16)`, `padStart`, `BigInt("0x…")`,
-- and the pairs `scalarToHex`/`hexToScalar` (src/protocols/dkg/polynomial.ts),
-- `scalarToBytes`/`bytesToScalar` (src/protocols/dkls/oblivious-transfer.ts).
mod Defs
mod Literal
mod Laws
unfoldable pub use Defs.*
unfoldable pub use Literal.*
pub use Laws.*
