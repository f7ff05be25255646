-- ===== src/Modular.antt =====
-- The modular arithmetic that the protocol files repeat: `mod` in its two forms and `modInverse`
-- (src/protocols/dkg/polynomial.ts, src/protocols/dkls/crypto.ts and their copies).
mod Defs
mod Euclid
unfoldable pub use Defs.{mod_twice, mod_once}
pub use Defs.{mod_twice-eq-residue, mod_once-eq-residue}
unfoldable pub use Euclid.*
