-- ===== src/Recovery/Tests.antt =====
-- A recovery in the group of seven elements.
use nero_mpc_sdk.Base.{
  ℕ, zero, suc, ◌<◌, ◌≡◌, ◌↔◌, refl, arith, ◌||◌, true, [], ◌∷◌, some, All, length, replicate,
}
use nero_mpc_sdk.Base.Throws.{ok}
use nero_mpc_sdk.Bigint.{ℤ, pos, ◌*ℤ◌, residue}
use nero_mpc_sdk.Hex.{Text, Bytes, IsLowerHex, hex_char, same_text}
use nero_mpc_sdk.Noble.{scale}
use nero_mpc_sdk.Noble.Toy.{toy, toy_laws}
use nero_mpc_sdk.Dkg.{evaluate_polynomial}
use nero_mpc_sdk.Dkg.Exchange.Toy.{toy_web, toy-Sealing}
use nero_mpc_sdk.Recovery.Blob.{
  SealedText, default_kdf_params, multiplicative, additive, validate_kdf_params, is_hex,
}
use nero_mpc_sdk.Recovery.Kdf.{AreAllowed, validate_kdf_params-AreAllowed}
use nero_mpc_sdk.Recovery.Custody.{
  Hashing, KeyMaterial, SetupResult, derive_recovery_seed, seed_to_scalar,
  setup_self_custody_recovery, extract_client_share, joint_secret,
}
use nero_mpc_sdk.Recovery.Laws.{IsHexOf, IsSealed}
use nero_mpc_sdk.Recovery.Extract.{extract_client_share-setup}
use nero_mpc_sdk.Recovery.Joint.{joint_secret_lem}

abbrev hashing : Hashing
hashing = record {
  scrypt = λ password salt params. replicate 32 (length password);
  hmac = λ key message. replicate 32 (length message);
  keccak_256 = λ message. replicate 32 0;
  to_lower_case = λ s. s;
}

validate_kdf_params-AreAllowed_example :
    (validate_kdf_params default_kdf_params ≡ ok tt) ↔ AreAllowed default_kdf_params
validate_kdf_params-AreAllowed_example = validate_kdf_params-AreAllowed default_kdf_params

joint_secret_lem_example :
    (joint_secret toy toy_web hashing additive
        (evaluate_polynomial toy (pos 3 ∷ pos 4 ∷ []) (pos 1))
        (evaluate_polynomial toy (pos 3 ∷ pos 4 ∷ []) (pos 2))
      ≡ pos (residue 7 (pos 3)))
    × (joint_secret toy toy_web hashing multiplicative (pos 2) (pos 5)
        ≡ pos (residue 7 (pos 2 *ℤ pos 5)))
    × (toy.multiply toy.base (joint_secret toy toy_web hashing multiplicative (pos 2) (pos 5))
        ≡ some (scale toy (pos 2 *ℤ pos 5) toy.base))
joint_secret_lem_example =
    joint_secret_lem toy toy_laws toy_web hashing (pos 3) (pos 4) 2 5 (omega arith) (omega arith)

abbrev password : Text
password = replicate 12 97

abbrev share : Text
share = 97 ∷ 49 ∷ []

share_lower : All IsLowerHex share
unfolding hex_char
share_lower = ((10, omega arith, refl), ((1, omega arith, refl), tt))

abbrev sealed : SealedText
sealed = record { ciphertext = 97 ∷ 98 ∷ []; nonce = replicate 24 48; tag = replicate 32 48 }

abbrev material : KeyMaterial
material = record {
  encrypted_share = record { ephemeral_public_key = replicate 66 48; sealed = sealed };
  sharing_type = additive;
}

seed_drawn :
    seed_to_scalar toy toy_web hashing
      (derive_recovery_seed toy toy_web hashing password [] default_kdf_params)
    ≡ ok (pos 4)
unfolding seed_to_scalar nero_mpc_sdk.Hex.parse_bigint16 derive_recovery_seed
    nero_mpc_sdk.Hex.hex_value hex_char nero_mpc_sdk.Modular.mod_twice nero_mpc_sdk.Bigint.tmod
    nero_mpc_sdk.Bigint.◌+ℤ◌
seed_drawn = refl

zeros_hex :
    (is_hex (97 ∷ 98 ∷ []) ≡ true)
    × (is_hex (replicate 24 48) ≡ true)
    × (is_hex (replicate 32 48) ≡ true)
    × (is_hex (replicate 66 48) ≡ true)
unfolding is_hex nero_mpc_sdk.Hex.all_hex
zeros_hex = (refl, refl, refl, refl)

material_sealed : IsSealed sealed
material_sealed = record {
  ciphertext = zeros_hex.0;
  nonce = record { hex = zeros_hex.1; size = refl };
  tag = record { hex = zeros_hex.2; size = refl };
}

material_key : IsHexOf 33 (replicate 66 48)
material_key = record { hex = zeros_hex.3; size = refl }

additive_known : (same_text additive multiplicative || same_text additive additive) ≡ true
unfolding same_text additive multiplicative nero_mpc_sdk.Hex.text
additive_known = refl

nonce_bytes : (n : ℕ) → All (λ b. b < 256) (replicate n 0)
nonce_bytes zero = tt
nonce_bytes (suc n) = (omega arith, nonce_bytes n)

extract_client_share-setup_example :
    (result : SetupResult) × (setup_self_custody_recovery toy toy_web hashing []
        (replicate 12 0)
        password
        share
        (λ pk. ok material)
      ≡ ok result)
    × (extract_client_share toy toy_web hashing (some result.composite) password ≡ ok share)
extract_client_share-setup_example =
    extract_client_share-setup toy toy_laws toy_web toy-Sealing hashing [] (replicate 12 0) password
      share 4 material (λ pk. ok material) tt (nonce_bytes 12) refl (omega arith) share_lower
      (omega arith) seed_drawn (omega arith) (λ pk. refl) material_sealed material_key
      additive_known
