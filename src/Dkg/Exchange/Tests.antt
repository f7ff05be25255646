-- ===== src/Dkg/Exchange/Tests.antt =====
-- An exchange in the group of seven elements.
use nero_mpc_sdk.Base.{◌≡◌, refl, arith, some, [], ◌∷◌}
use nero_mpc_sdk.Base.Throws.{ok}
use nero_mpc_sdk.Bigint.{ℤ, pos}
use nero_mpc_sdk.Hex.{Text, Bytes}
use nero_mpc_sdk.Noble.{scale}
use nero_mpc_sdk.Noble.Toy.{toy, toy_laws}
use nero_mpc_sdk.Dkg.Exchange.{EncryptedShare, generate_secure_scalar, encrypt_share, decrypt_share}
use nero_mpc_sdk.Dkg.Exchange.Laws.{decrypt_share-encrypt_share}
use nero_mpc_sdk.Dkg.Exchange.Toy.{toy_web, toy-Sealing}

abbrev drawn_bytes : Bytes
drawn_bytes = 1 ∷ 0 ∷ []

-- 256 leaves 4.
drawn : generate_secure_scalar toy drawn_bytes ≡ ok (pos 4)
unfolding generate_secure_scalar nero_mpc_sdk.Hex.parse_bigint16 nero_mpc_sdk.Hex.hex_value
    nero_mpc_sdk.Hex.hex_char nero_mpc_sdk.Modular.mod_twice nero_mpc_sdk.Bigint.tmod
    nero_mpc_sdk.Bigint.◌+ℤ◌
drawn = refl

read : toy.from_hex (2 ∷ []) ≡ some (scale toy (pos 2) toy.base)
unfolding scale nero_mpc_sdk.Noble.times nero_mpc_sdk.Bigint.residue
read = refl

decrypt_share-encrypt_share_example :
    (encrypted : EncryptedShare) × (encrypt_share toy toy_web drawn_bytes [] (pos 5) 1 2 (2 ∷ [])
      ≡ ok encrypted)
    × (encrypted.to_party_id ≡ 2)
    × (decrypt_share toy toy_web encrypted (pos 2)
        ≡ ok (record { from_party_id = 1; share = pos 5 }))
decrypt_share-encrypt_share_example =
    decrypt_share-encrypt_share toy toy_laws toy_web toy-Sealing drawn_bytes [] (pos 4) 2 5 1 2
      (2 ∷ []) drawn tt (omega arith) read
