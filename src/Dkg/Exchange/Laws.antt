-- ===== src/Dkg/Exchange/Laws.antt =====
-- A share that was encrypted for a party is what that party decrypts
-- (src/protocols/dkg/share-exchange.ts).
use nero_mpc_sdk.Base.{
  ℕ, ◌<◌, ◌≡◌, refl, sym, ap, ◌∙◌, arith, ◌==◌, false, ◌-◌, some, All, All-take, All-drop,
  take-drop, length, take, drop,
}
use nero_mpc_sdk.Base.Throws.{ok, or_throw, >>=-eq-ok, throw_if-eq-ok, throw_if}
use nero_mpc_sdk.Bigint.{ℤ, pos, ◌*ℤ◌, beq_ℤ, ring_laws, residue, residue-lt, Cong-of_eq}
use nero_mpc_sdk.Modular.{mod_twice, mod_twice-eq-residue}
use nero_mpc_sdk.Hex.{
  Text, Bytes, text, scalar_to_hex, hex_to_scalar-scalar_to_hex, parse_bigint16, All-scalar_to_hex,
  length-scalar_to_hex,
}
use nero_mpc_sdk.Noble.{Noble, Lawful, IsByte, order_pos, scale, scale_congr}
use nero_mpc_sdk.Dkls.Ot.Laws.{IsScalar, multiply-base, multiply-multiple}
use nero_mpc_sdk.Dkg.Commitments.Knowledge.{multiple_text}
use nero_mpc_sdk.Dkg.Exchange.{
  Webcrypto, Sealing, EncryptedShare, EphemeralKeyPair, generate_secure_scalar,
  generate_ephemeral_key_pair, derive_shared_secret, aes_gcm_encrypt, aes_gcm_decrypt,
  encrypt_share, decrypt_share,
}

module _ (lib : Noble) (laws : Lawful lib) where
  -- A drawn scalar lies from 1 up to the order.
  pub generate_secure_scalar-IsScalar :
      (bytes : Bytes) (scalar : ℤ)
      → generate_secure_scalar lib bytes ≡ ok scalar
      → (k : ℕ) × (scalar ≡ pos k) × IsScalar lib.order k
  unfolding generate_secure_scalar
  generate_secure_scalar-IsScalar bytes scalar h =
      let (number, e1, h1) =
        >>=-eq-ok (or_throw (parse_bigint16 (lib.bytes_to_hex bytes)) "BigInt") _ h in
      let n_pos = order_pos lib laws in
      let (u, e2, h2) =
        >>=-eq-ok
          (throw_if (beq_ℤ (mod_twice number (pos lib.order)) (pos 0))
            "RNG failure: generated zero scalar")
          _ h1 in
      let e = mod_twice-eq-residue lib.order n_pos number in
      (
        residue lib.order number,
        sym (ok_of h2) ∙ e,
        (
          positive _ (ap (λ t. beq_ℤ t (pos 0)) (sym e) ∙ throw_if-eq-ok _ _ e2),
          residue-lt lib.order number n_pos,
        ),
      )
    where
      ok_of : {a b : ℤ} → ok a ≡ ok b → a ≡ b
      ok_of e = cc

      positive : (k : ℕ) → (k == 0) ≡ false → 0 < k
      positive k h = ground arith

  -- From a scalar that is drawn, a key pair of it is made.
  pub generate_ephemeral_key_pair-keys :
      (bytes : Bytes) (scalar : ℤ)
      → generate_secure_scalar lib bytes ≡ ok scalar
      → (pair : EphemeralKeyPair) × (k : ℕ) × (generate_ephemeral_key_pair lib bytes ≡ ok pair)
        × (pair.private_key ≡ pos k)
        × (lib.from_hex pair.public_key ≡ some (scale lib (pos k) lib.base))
        × IsScalar lib.order k
  unfolding generate_ephemeral_key_pair
  generate_ephemeral_key_pair-keys bytes scalar h =
      let (k, ek, hk) = generate_secure_scalar-IsScalar bytes scalar h in
      let (t, written, read) = multiple_text lib laws k hk in
      (
        record { private_key = pos k; public_key = t },
        k,
        rw (h, ek, multiply-base lib laws k hk, written),
        refl,
        read,
        hk,
      )

module _ (lib : Noble) (laws : Lawful lib) (web : Webcrypto) (sealing : Sealing lib web) where
  open lib use {base, order, from_hex, affine_x, hex_to_bytes, bytes_to_hex}

  -- Both parties derive the same 32 bytes.
  secret_agreed :
      (k x : ℕ) (k_text x_text : Text)
      → IsScalar order k
      → IsScalar order x
      → from_hex k_text ≡ some (scale lib (pos k) base)
      → from_hex x_text ≡ some (scale lib (pos x) base)
      → (secret : Bytes) × (derive_shared_secret lib web (pos k) x_text ≡ ok secret)
        × (derive_shared_secret lib web (pos x) k_text ≡ ok secret)
        × (length secret ≡ 32)
  unfolding derive_shared_secret
  secret_agreed k x k_text x_text hk hx ek ex =
      let shared = scale lib (pos k *ℤ pos x) base in
      let (coordinate, read, len, bytes, back) =
        laws.hex_to_bytes_lower (scalar_to_hex (pos (affine_x shared))) 32
          (All-scalar_to_hex (affine_x shared))
          (length-scalar_to_hex (affine_x shared) (sealing.affine_x-lt shared)) in
      (
        web.hkdf coordinate (text "nero-mpc:ecdh:share-exchange") 32,
        rw (ex, multiply-multiple lib laws (pos x) k hk, read),
        rw (
          ek,
          multiply-multiple lib laws (pos k) x hx,
          scale_congr lib laws {a = pos x *ℤ pos k} {b = pos k *ℤ pos x} base
              (Cong-of_eq (simp ring_laws)),
          read,
        ),
        sealing.length-hkdf _ _ 32,
      )

  -- A ciphertext and its tag decrypt.
  sealed_opens :
      (plaintext key nonce : Bytes)
      → length key ≡ 32
      → All IsByte plaintext
      → (ciphertext tag : Bytes) × (aes_gcm_encrypt lib web plaintext key nonce
          ≡ ok (ciphertext, tag))
        × All IsByte ciphertext
        × All IsByte tag
        × (aes_gcm_decrypt lib web ciphertext tag key nonce ≡ ok plaintext)
  unfolding aes_gcm_encrypt aes_gcm_decrypt
  sealed_opens plaintext key nonce len bytes =
      let (sealed, e, sealed_bytes, back, longer) =
        sealing.decrypt-encrypt key nonce plaintext len bytes in
      (
        take (length sealed - 16) sealed,
        drop (length sealed - 16) sealed,
        rw e,
        All-take IsByte (length sealed - 16) sealed sealed_bytes,
        All-drop IsByte (length sealed - 16) sealed sealed_bytes,
        rw (take-drop (length sealed - 16) sealed, back),
      )

  -- A share `s`, encrypted with a drawn ephemeral key for the public key `x * G` of a
  -- recipient, with `x` from 1 up to the order: the encryption succeeds, keeps the two parties'
  -- identifiers, and the recipient decrypts `s` with the private key `x`.
  pub decrypt_share-encrypt_share :
      (key_bytes nonce : Bytes) (scalar : ℤ) (x s from_party to_party : ℕ) (x_text : Text)
      → generate_secure_scalar lib key_bytes ≡ ok scalar
      → All IsByte nonce
      → IsScalar order x
      → from_hex x_text ≡ some (scale lib (pos x) base)
      → (encrypted : EncryptedShare) × (encrypt_share lib web key_bytes nonce
            (pos s)
            from_party
            to_party
            x_text
          ≡ ok encrypted)
        × (encrypted.to_party_id ≡ to_party)
        × (decrypt_share lib web encrypted (pos x)
            ≡ ok (record { from_party_id = from_party; share = pos s }))
  unfolding encrypt_share decrypt_share
  decrypt_share-encrypt_share key_bytes nonce scalar x s from_party to_party x_text drawn
        nonce_bytes hx ex =
      let (k, ek, hk) = generate_secure_scalar-IsScalar lib laws key_bytes scalar drawn in
      let (k_text, written, read) = multiple_text lib laws k hk in
      let (secret, here, there, len) = secret_agreed k x k_text x_text hk hx read ex in
      let share_text = scalar_to_hex (pos s) in
      let (ciphertext, tag, sealed, ciphertext_bytes, tag_bytes, opened) =
        sealed_opens (lib.utf8_to_bytes share_text) secret nonce len
          (sealing.All-utf8_to_bytes share_text (All-scalar_to_hex s)) in
      (
        record {
          from_party_id = from_party;
          to_party_id = to_party;
          ephemeral_public_key = k_text;
          ciphertext = bytes_to_hex ciphertext;
          nonce = bytes_to_hex nonce;
          tag = bytes_to_hex tag;
        },
        rw (drawn, ek, multiply-base lib laws k hk, written, here, sealed),
        refl,
        rw (
          there,
          laws.hex_to_bytes-bytes_to_hex ciphertext ciphertext_bytes,
          laws.hex_to_bytes-bytes_to_hex nonce nonce_bytes,
          laws.hex_to_bytes-bytes_to_hex tag tag_bytes,
          opened,
          sealing.decode-utf8_to_bytes share_text (All-scalar_to_hex s),
          hex_to_scalar-scalar_to_hex s,
        ),
      )
