-- ===== src/Recovery/Extract.antt =====
-- A client's share that was set up for recovery is extracted with the same password
-- (src/core/self-custody-recovery.ts).
use nero_mpc_sdk.Base.{
  ℕ, zero, suc, ◌-◌, ◌*◌, ◌%◌, ◌<◌, ◌≤◌, ◌≡◌, refl, ap, arith, ◌==◌, ltb, true, false, ◌&&◌, ◌||◌,
  [], ◌∷◌, some, All, All-take, All-drop, take-drop, length, take, drop, length-append,
}
use nero_mpc_sdk.Base.Throws.{Throws, ok}
use nero_mpc_sdk.Bigint.{pos}
use nero_mpc_sdk.Hex.{Text, Bytes, IsLowerHex, all_hex_lower, same_text, same_text_self}
use nero_mpc_sdk.Noble.{Noble, Lawful, IsByte}
use nero_mpc_sdk.Dkls.Ot.Laws.{IsScalar, multiply-base}
use nero_mpc_sdk.Dkg.Commitments.Knowledge.{multiple_text}
use nero_mpc_sdk.Dkg.Exchange.{Webcrypto, Sealing}
use nero_mpc_sdk.Recovery.Blob.{
  SealedText, CompositeBlob, default_kdf_params, multiplicative, additive, validate_kdf_params,
  is_hex,
}
use nero_mpc_sdk.Recovery.Kdf.{AreAllowed, validate_kdf_params-AreAllowed}
use nero_mpc_sdk.Recovery.Custody.{
  Hashing, KeyMaterial, SetupResult, blob_json, validate_password, aes_gcm_encrypt_raw,
  aes_gcm_decrypt_raw, derive_client_share_key, compute_metadata_hmac, derive_recovery_seed,
  seed_to_scalar, seed_to_public_key, build_composite_blob, verify_metadata_integrity,
  derive_factor_credential, setup_self_custody_recovery, open_client_share, extract_client_share,
}
use nero_mpc_sdk.Recovery.Laws.{IsHexOf, IsSealed, parse_composite_blob-blob_json}

length-take : (n : ℕ) (xs : Bytes) → n ≤ length xs → length (take n xs) ≡ n
length-take zero xs h = refl
length-take (suc n) [] h = absurd (omega arith)
length-take (suc n) (x ∷ xs) h = ap suc (length-take n xs (omega arith))

length-drop : (n : ℕ) (xs : Bytes) → n ≤ length xs → length (drop n xs) ≡ length xs - n
length-drop n xs h = omega (
  arith,
  length-append (take n xs) (drop n xs),
  ap (λ t. length t) (take-drop n xs),
  length-take n xs h,
)

default_allowed : AreAllowed default_kdf_params
unfolding validate_kdf_params default_kdf_params
default_allowed = (validate_kdf_params-AreAllowed default_kdf_params).0 refl

module _ (lib : Noble) (laws : Lawful lib) where
  -- Bytes as hexadecimal text.
  is_hex-bytes_to_hex :
      (bytes : Bytes) → All IsByte bytes → 0 < length bytes → is_hex (lib.bytes_to_hex bytes) ≡ true
  unfolding is_hex
  is_hex-bytes_to_hex bytes h positive =
      let (lower, len) = laws.bytes_to_hex_lower bytes h in
      rw (all_hex_lower (lib.bytes_to_hex bytes) lower, len) (even (length bytes) positive)
    where
      even : (n : ℕ) → 0 < n → (ltb 0 (2 * n) && (2 * n % 2 == 0 && true)) ≡ true
      even n h = ground arith

  IsHexOf-bytes :
      (n : ℕ) (bytes : Bytes)
      → All IsByte bytes
      → length bytes ≡ n
      → 0 < n
      → IsHexOf n (lib.bytes_to_hex bytes)
  IsHexOf-bytes n bytes h len positive = record {
    hex = is_hex-bytes_to_hex bytes h (omega (arith, len, positive));
    size = omega (arith, (laws.bytes_to_hex_lower bytes h).1, len);
  }

module _ (lib : Noble) (laws : Lawful lib) (web : Webcrypto) (sealing : Sealing lib web)
    (hashing : Hashing) where
  open lib use {base, order, bytes_to_hex, utf8_to_bytes}

  -- What is encrypted under a key is valid for a blob, and decrypts.
  sealed_raw :
      (nonce plaintext key : Bytes)
      → All IsByte nonce
      → length nonce ≡ 12
      → All IsByte plaintext
      → 0 < length plaintext
      → length key ≡ 32
      → (s : SealedText) × (aes_gcm_encrypt_raw lib web hashing nonce plaintext key ≡ ok s)
        × IsSealed s
        × (aes_gcm_decrypt_raw lib web hashing s key ≡ ok plaintext)
  unfolding aes_gcm_encrypt_raw aes_gcm_decrypt_raw
  sealed_raw nonce plaintext key nonce_bytes nonce_length bytes filled key_length =
      let (sealed, e, sealed_bytes, back, longer) =
        sealing.decrypt-encrypt key nonce plaintext key_length bytes in
      let k = length sealed - 16 in
      let front_bytes = All-take IsByte k sealed sealed_bytes in
      let tag_bytes = All-drop IsByte k sealed sealed_bytes in
      let k_small : k ≤ length sealed = omega arith in
      (
        record {
          ciphertext = bytes_to_hex (take k sealed);
          nonce = bytes_to_hex nonce;
          tag = bytes_to_hex (drop k sealed);
        },
        rw e,
        record {
          ciphertext =
              is_hex-bytes_to_hex lib laws (take k sealed) front_bytes
                (omega (arith, length-take k sealed k_small, longer, filled));
          nonce = IsHexOf-bytes lib laws 12 nonce nonce_bytes nonce_length (omega arith);
          tag =
              IsHexOf-bytes lib laws 16 (drop k sealed) tag_bytes
                (omega (arith, length-drop k sealed k_small, longer)) (omega arith);
        },
        rw (
          laws.hex_to_bytes-bytes_to_hex (take k sealed) front_bytes,
          laws.hex_to_bytes-bytes_to_hex (drop k sealed) tag_bytes,
          laws.hex_to_bytes-bytes_to_hex nonce nonce_bytes,
          take-drop k sealed,
          back,
        ),
      )

  key_length : (seed : Bytes) → length (derive_client_share_key lib web hashing seed) ≡ 32
  unfolding derive_client_share_key
  key_length seed = sealing.length-hkdf seed _ 32

  -- A password of at least twelve characters whose seed is a scalar `k`, a client's share in
  -- hexadecimal that is not empty, and a backend that answers with valid material: the setup
  -- succeeds, and the password extracts the client's share from its result.
  pub extract_client_share-setup :
      (salt nonce : Bytes) (password share : Text) (k : ℕ) (material : KeyMaterial)
      (get_key_material : Text → Throws KeyMaterial)
      → All IsByte salt
      → All IsByte nonce
      → length nonce ≡ 12
      → 12 ≤ length password
      → All IsLowerHex share
      → 0 < length share
      → seed_to_scalar lib web hashing
          (derive_recovery_seed lib web hashing password salt default_kdf_params)
        ≡ ok (pos k)
      → IsScalar order k
      → ((pk : Text) → get_key_material pk ≡ ok material)
      → IsSealed material.encrypted_share.sealed
      → IsHexOf 33 material.encrypted_share.ephemeral_public_key
      → (same_text material.sharing_type multiplicative || same_text material.sharing_type additive)
        ≡ true
      → (result : SetupResult) × (setup_self_custody_recovery lib web hashing salt nonce password
            share get_key_material
          ≡ ok result)
        × (extract_client_share lib web hashing (some result.composite) password ≡ ok share)
  unfolding setup_self_custody_recovery validate_password seed_to_public_key build_composite_blob
      extract_client_share open_client_share verify_metadata_integrity
  extract_client_share-setup salt nonce password share k material get_key_material salt_bytes
        nonce_bytes nonce_length long lower filled drawn hk answers backend_valid key_valid
        sharing_valid =
      let seed = derive_recovery_seed lib web hashing password salt default_kdf_params in
      let (pk, written, read) = multiple_text lib laws k hk in
      let (s, encrypted, valid, opened) =
        sealed_raw nonce (utf8_to_bytes share) (derive_client_share_key lib web hashing seed)
          nonce_bytes nonce_length (sealing.All-utf8_to_bytes share lower)
          (omega (arith, sealing.length-utf8_to_bytes share lower, filled)) (key_length seed) in
      let mac =
        compute_metadata_hmac lib web hashing seed material.sharing_type (bytes_to_hex salt)
          default_kdf_params in
      let blob : CompositeBlob = record {
        encrypted_client_share = s;
        backend_share_blob = material.encrypted_share;
        sharing_type = material.sharing_type;
        kdf_salt = bytes_to_hex salt;
        kdf_params = default_kdf_params;
        metadata_mac = mac;
      } in
      (
        record {
          composite = blob_json blob;
          factor_credential = derive_factor_credential lib web hashing seed;
        },
        rw (
          short_false (length password) long,
          drawn,
          multiply-base lib laws k hk,
          written,
          answers pk,
          encrypted,
        ),
        rw (
          parse_composite_blob-blob_json blob (record {
            client = valid;
            backend = backend_valid;
            ephemeral = key_valid;
            sharing = sharing_valid;
            allowed = default_allowed;
          }),
          laws.hex_to_bytes-bytes_to_hex salt salt_bytes,
          same_text_self mac,
          opened,
          sealing.decode-utf8_to_bytes share lower,
        ),
      )
    where
      short_false : (n : ℕ) → 12 ≤ n → ltb n 12 ≡ false
      short_false n h = ground arith
