-- ===== src/Recovery/Custody.antt =====
-- Setting up a recovery, reading the client's share back, and rebuilding the key
-- (src/core/self-custody-recovery.ts). JSON.stringify and JSON.parse stand for the JSON value.
use nero_mpc_sdk.Base.{
  ◌-◌, Bool, true, false, not, ◌&&◌, if◌then◌else◌, ltb, ◌++◌, Option, none, some, length, take,
  drop,
}
use nero_mpc_sdk.Base.Throws.{Throws, ok, ◌>>=◌, ◌>>◌, throw_if, or_throw}
use nero_mpc_sdk.Bigint.{ℤ, pos, ◌-ℤ◌, ◌*ℤ◌, beq_ℤ}
use nero_mpc_sdk.Modular.{mod_twice}
use nero_mpc_sdk.Hex.{
  Text, Bytes, text, to_string10, scalar_to_hex, hex_to_scalar, parse_bigint16, same_text, is_empty,
}
use nero_mpc_sdk.Noble.{Noble}
use nero_mpc_sdk.Dkls.Address.{derive_ethereum_address}
use nero_mpc_sdk.Dkg.Exchange.{Webcrypto, decrypt_share}
use nero_mpc_sdk.Recovery.Json.{Json, Members}
use nero_mpc_sdk.Recovery.Blob.{
  KdfParams, SealedText, BackendBlob, CompositeBlob, default_kdf_params, multiplicative,
  parse_composite_blob,
}

-- scrypt with 32 bytes of output, HMAC by SHA-256, the Keccak hash, and `toLowerCase`.
pub record Hashing : Type 0 where
  pub scrypt : Bytes → Bytes → KdfParams → Bytes
  pub hmac : Bytes → Bytes → Bytes
  pub keccak_256 : Bytes → Bytes
  pub to_lower_case : Text → Text

-- What the backend answers to `getKeyMaterial`.
pub record KeyMaterial : Type 0 where
  pub encrypted_share : BackendBlob
  pub sharing_type : Text

pub record SetupResult : Type 0 where
  pub composite : Json
  pub factor_credential : Text

pub record ReconstructedKey : Type 0 where
  pub private_key : Text
  pub wallet_address : Text

-- JSON.stringify of the blob with its MAC.
unfoldable pub sealed_members : SealedText → Members → Members
sealed_members s rest =
    Members.member "ciphertext" (Json.string s.ciphertext)
      (Members.member "nonce" (Json.string s.nonce) (Members.member "tag" (Json.string s.tag) rest))

unfoldable pub blob_json : CompositeBlob → Json
blob_json blob = Json.object (
    Members.member "version" (Json.number 2) (
      Members.member "encryptedClientShare"
        (Json.object (sealed_members blob.encrypted_client_share Members.end))
        (Members.member "backendShareBlob"
          (Json.object (
            Members.member "ephemeralPublicKey"
              (Json.string blob.backend_share_blob.ephemeral_public_key)
              (sealed_members blob.backend_share_blob.sealed Members.end)))
          (Members.member "sharingType" (Json.string blob.sharing_type) (
            Members.member "kdfSalt" (Json.string blob.kdf_salt) (
              Members.member "kdfParams"
                (Json.object (
                  Members.member "N" (Json.number blob.kdf_params.n) (
                    Members.member "r" (Json.number blob.kdf_params.r)
                      (Members.member "p" (Json.number blob.kdf_params.p) Members.end))))
                (Members.member "metadataMac" (Json.string blob.metadata_mac) Members.end)))))))

unfoldable pub validate_password : Text → Throws (Unit {0})
validate_password password = throw_if (ltb (length password) 12) "SELF_CUSTODY_SETUP_FAILED"

module _ (lib : Noble) (web : Webcrypto) (hashing : Hashing) where
  open lib use {
    base, order, multiply, to_hex, from_bytes, to_raw_bytes, bytes_to_hex, hex_to_bytes,
    utf8_to_bytes,
  }
  open web use {hkdf, encrypt, decrypt, decode}
  open hashing use {scrypt, hmac, keccak_256, to_lower_case}

  -- The first argument is the nonce that is drawn.
  unfoldable pub aes_gcm_encrypt_raw : Bytes → Bytes → Bytes → Throws SealedText
  aes_gcm_encrypt_raw nonce plaintext key = do
    encrypted ← or_throw (encrypt key nonce plaintext) "encrypt"
    ok (record {
      ciphertext = bytes_to_hex (take (length encrypted - 16) encrypted);
      nonce = bytes_to_hex nonce;
      tag = bytes_to_hex (drop (length encrypted - 16) encrypted);
    })

  unfoldable pub aes_gcm_decrypt_raw : SealedText → Bytes → Throws Bytes
  aes_gcm_decrypt_raw sealed key = do
    ciphertext ← or_throw (hex_to_bytes sealed.ciphertext) "hexToBytes"
    tag ← or_throw (hex_to_bytes sealed.tag) "hexToBytes"
    nonce ← or_throw (hex_to_bytes sealed.nonce) "hexToBytes"
    or_throw (decrypt key nonce (ciphertext ++ tag)) "decrypt"

  unfoldable pub derive_client_share_key : Bytes → Bytes
  derive_client_share_key seed = hkdf seed (text "nero-mpc:self-custody:client-share") 32

  -- The version is 2 in every blob.
  unfoldable pub compute_metadata_hmac : Bytes → Text → Text → KdfParams → Text
  compute_metadata_hmac seed sharing_type kdf_salt params =
      let mac_key = hkdf seed (text "nero-mpc:self-custody:metadata-mac") 32 in
      let payload =
        text "2:"
        ++ (sharing_type
            ++ (text ":"
                ++ (kdf_salt
                    ++ (text ":"
                        ++ (to_string10 params.n
                            ++ (text ":"
                                ++ (to_string10 params.r
                                    ++ (text ":" ++ to_string10 params.p)))))))) in
      bytes_to_hex (hmac mac_key (utf8_to_bytes payload))

  unfoldable pub derive_recovery_seed : Text → Bytes → KdfParams → Bytes
  derive_recovery_seed password salt params = scrypt (utf8_to_bytes password) salt params

  unfoldable pub seed_to_scalar : Bytes → Throws ℤ
  seed_to_scalar seed = do
    number ← or_throw (parse_bigint16 (bytes_to_hex seed)) "BigInt"
    let scalar = mod_twice number (pos order)
    throw_if (beq_ℤ scalar (pos 0)) "SELF_CUSTODY_SETUP_FAILED"
    ok scalar

  unfoldable pub seed_to_public_key : Bytes → Throws Text
  seed_to_public_key seed = do
    scalar ← seed_to_scalar seed
    point ← or_throw (multiply base scalar) "multiply"
    or_throw (to_hex true point) "toHex"

  unfoldable pub build_composite_blob :
      Bytes → Text → BackendBlob → Text → Text → KdfParams → Bytes → Throws CompositeBlob
  build_composite_blob nonce client_share_hex backend_share_blob sharing_type kdf_salt kdf_params
        seed =
      do
        encrypted_client_share ←
            aes_gcm_encrypt_raw nonce (utf8_to_bytes client_share_hex)
              (derive_client_share_key seed)
        ok (record {
          encrypted_client_share = encrypted_client_share;
          backend_share_blob = backend_share_blob;
          sharing_type = sharing_type;
          kdf_salt = kdf_salt;
          kdf_params = kdf_params;
          metadata_mac = compute_metadata_hmac seed sharing_type kdf_salt kdf_params;
        })

  unfoldable pub verify_metadata_integrity : Bytes → CompositeBlob → Throws (Unit {0})
  verify_metadata_integrity seed blob =
      throw_if
        (not (
          same_text blob.metadata_mac
            (compute_metadata_hmac seed blob.sharing_type blob.kdf_salt blob.kdf_params)))
        "INVALID_COMPOSITE_BLOB"

  unfoldable pub derive_factor_credential : Bytes → Text
  derive_factor_credential seed =
      bytes_to_hex (hkdf seed (text "nero-mpc:self-custody:factor-credential") 32)

  -- The salt and the nonce are drawn; `get_key_material` is the backend's answer to the public key.
  unfoldable pub setup_self_custody_recovery :
      Bytes → Bytes → Text → Text → (Text → Throws KeyMaterial) → Throws SetupResult
  setup_self_custody_recovery salt nonce password client_share_hex get_key_material = do
    validate_password password
    let seed = derive_recovery_seed password salt default_kdf_params
    recovery_pk ← seed_to_public_key seed
    response ← get_key_material recovery_pk
    blob ←
        build_composite_blob nonce client_share_hex response.encrypted_share response.sharing_type
          (bytes_to_hex salt) default_kdf_params seed
    ok (record { composite = blob_json blob; factor_credential = derive_factor_credential seed })

  -- The share of a blob that was parsed, and the seed.
  unfoldable pub open_client_share : CompositeBlob → Text → Throws (Bytes × Text)
  open_client_share blob password = do
    salt ← or_throw (hex_to_bytes blob.kdf_salt) "hexToBytes"
    let seed = derive_recovery_seed password salt blob.kdf_params
    verify_metadata_integrity seed blob
    plaintext ← aes_gcm_decrypt_raw blob.encrypted_client_share (derive_client_share_key seed)
    ok (seed, decode plaintext)

  unfoldable pub extract_client_share : Option Json → Text → Throws Text
  extract_client_share composite password = do
    blob ← parse_composite_blob composite
    (seed, share) ← open_client_share blob password
    ok share

  unfoldable pub joint_secret : Text → ℤ → ℤ → ℤ
  joint_secret sharing_type sk_a sk_b =
      if same_text sharing_type multiplicative
      then mod_twice (sk_a *ℤ sk_b) (pos order)
      else mod_twice (pos 2 *ℤ sk_a -ℤ sk_b) (pos order)

  -- `expectedAddress && walletAddress.toLowerCase() !== expectedAddress.toLowerCase()`.
  unfoldable pub address_differs : Option Text → Text → Bool
  address_differs none wallet_address = false
  address_differs (some expected) wallet_address =
      not (is_empty expected)
      && not (same_text (to_lower_case wallet_address) (to_lower_case expected))

  unfoldable pub offline_reconstruct_key :
      Option Json → Text → Option Text → Throws ReconstructedKey
  offline_reconstruct_key composite password expected_address = do
    blob ← parse_composite_blob composite
    (seed, client_share) ← open_client_share blob password
    sk_a ← or_throw (hex_to_scalar client_share) "BigInt"
    seed_scalar ← seed_to_scalar seed
    backend ←
        decrypt_share lib web
          (record {
            from_party_id = 2;
            to_party_id = 1;
            ephemeral_public_key = blob.backend_share_blob.ephemeral_public_key;
            ciphertext = blob.backend_share_blob.sealed.ciphertext;
            nonce = blob.backend_share_blob.sealed.nonce;
            tag = blob.backend_share_blob.sealed.tag;
          })
          seed_scalar
    let sk = joint_secret blob.sharing_type sk_a backend.share
    point ← or_throw (multiply base sk) "multiply"
    pub_key_hex ← or_throw (to_hex false point) "toHex"
    wallet_address ← derive_ethereum_address lib keccak_256 pub_key_hex
    throw_if (address_differs expected_address wallet_address) "SELF_CUSTODY_RECOVERY_FAILED"
    ok (record { private_key = text "0x" ++ scalar_to_hex sk; wallet_address = wallet_address })
