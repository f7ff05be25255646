-- ===== src/Dkls/Challenge.antt =====
-- The Fiat–Shamir challenge, mod(BigInt(`0x${bytesToHex(sha256(input))}`)), of the proofs in
-- src/protocols/dkls/crypto.ts and src/protocols/dkls/mta-protocol.ts.
use nero_mpc_sdk.Base.{ℕ, ◌<◌, ◌≡◌, arith}
use nero_mpc_sdk.Base.Throws.{Throws, ok, ◌>>=◌, or_throw}
use nero_mpc_sdk.Bigint.{ℤ, pos, residue, residue-lt}
use nero_mpc_sdk.Modular.{mod_once, mod_once-eq-residue}
use nero_mpc_sdk.Hex.{Bytes, parse_bigint16, parse_bigint16-IsLowerHex}
use nero_mpc_sdk.Noble.{Noble, Lawful, order_pos}

module _ (lib : Noble) where
  open lib use {order, sha256, bytes_to_hex}

  unfoldable pub hash_challenge : Bytes → Throws ℤ
  hash_challenge input = do
    number ← or_throw (parse_bigint16 (bytes_to_hex (sha256 input))) "BigInt"
    ok (mod_once number (pos order))

-- The challenge is always computed, and lies below the order.
pub hash_challenge-lt :
    (lib : Noble)
    → Lawful lib
    → (input : Bytes) → (e : ℕ) × (hash_challenge lib input ≡ ok (pos e)) × (e < lib.order)
unfolding hash_challenge
hash_challenge-lt lib laws input =
    let (lower, len) = laws.bytes_to_hex_lower (lib.sha256 input) (laws.All-sha256 input) in
    let (n, read) =
      parse_bigint16-IsLowerHex (lib.bytes_to_hex (lib.sha256 input)) lower
        (omega (arith, len, laws.length-sha256 input)) in
    (
      residue lib.order (pos n),
      rw (read, mod_once-eq-residue lib.order (order_pos lib laws) (pos n)),
      residue-lt lib.order (pos n) (order_pos lib laws),
    )
