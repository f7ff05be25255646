-- ===== src/Dkls/Address.antt =====
-- The address of a public key (src/protocols/dkls/crypto.ts).
use nero_mpc_sdk.Base.{◌-◌, false, ◌++◌, drop, length}
use nero_mpc_sdk.Base.Throws.{Throws, ok, ◌>>=◌, or_throw}
use nero_mpc_sdk.Hex.{Text, Bytes, text, replace_0x}
use nero_mpc_sdk.Noble.{Noble}

-- The second argument is keccak_256 of @noble/hashes.
unfoldable pub derive_ethereum_address : Noble → (Bytes → Bytes) → Text → Throws Text
derive_ethereum_address lib keccak_256 joint_public_key_hex = do
  pub_key_bytes ← or_throw (lib.hex_to_bytes (replace_0x joint_public_key_hex)) "hexToBytes"
  point ← or_throw (lib.from_bytes pub_key_bytes) "fromHex"
  uncompressed ← or_throw (lib.to_raw_bytes false point) "toRawBytes"
  let hash = keccak_256 (drop 1 uncompressed)
  ok (text "0x" ++ lib.bytes_to_hex (drop (length hash - 20) hash))
