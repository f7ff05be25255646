-- ===== src/Recovery/Laws.antt =====
-- A valid blob is read back (src/core/self-custody-recovery.ts).
use nero_mpc_sdk.Base.{ℕ, ◌*◌, ◌≡◌, arith, ◌==◌, true, ◌||◌, none, some, length}
use nero_mpc_sdk.Base.Throws.{ok}
use nero_mpc_sdk.Hex.{Text, same_text}
use nero_mpc_sdk.Recovery.Json.{Json, Members, field, find_member, truthy, as_string, as_natural}
use nero_mpc_sdk.Recovery.Blob.{
  SealedText, BackendBlob, CompositeBlob, multiplicative, additive, validate_sharing_type, is_hex,
  hex_of, assert_hex_field, validate_encrypted_fields, kdf_params_of, present, parse_composite_blob,
}
use nero_mpc_sdk.Recovery.Kdf.{AreAllowed, validate_kdf_params-AreAllowed}
use nero_mpc_sdk.Recovery.Custody.{sealed_members, blob_json}

-- Hexadecimal text of a given number of bytes.
pub record IsHexOf (bytes : ℕ) (s : Text) : Type 0 where
  pub hex : is_hex s ≡ true
  pub size : length s ≡ bytes * 2

pub record IsSealed (s : SealedText) : Type 0 where
  pub ciphertext : is_hex s.ciphertext ≡ true
  pub nonce : IsHexOf 12 s.nonce
  pub tag : IsHexOf 16 s.tag

pub record IsValid (blob : CompositeBlob) : Type 0 where
  pub client : IsSealed blob.encrypted_client_share
  pub backend : IsSealed blob.backend_share_blob.sealed
  pub ephemeral : IsHexOf 33 blob.backend_share_blob.ephemeral_public_key
  pub sharing :
      (same_text blob.sharing_type multiplicative || same_text blob.sharing_type additive) ≡ true
  pub allowed : AreAllowed blob.kdf_params

hex_of_sized : (bytes : ℕ) (s : Text) → IsHexOf bytes s → hex_of (some s) (some bytes) ≡ ok s
unfolding hex_of
hex_of_sized bytes s h = rw (h.hex, same (length s) (bytes * 2) h.size)
  where
    same : (a b : ℕ) → a ≡ b → (a == b) ≡ true
    same a b e = ground arith

hex_of_any : (s : Text) → is_hex s ≡ true → hex_of (some s) none ≡ ok s
unfolding hex_of
hex_of_any s h = rw h

sealed_read :
    (s : SealedText)
    → IsSealed s
    → validate_encrypted_fields (Json.object (sealed_members s Members.end)) ≡ ok s
unfolding validate_encrypted_fields assert_hex_field sealed_members field find_member as_string
sealed_read s h = rw (
  hex_of_any s.ciphertext h.ciphertext,
  hex_of_sized 12 s.nonce h.nonce,
  hex_of_sized 16 s.tag h.tag,
)

backend_read :
    (b : BackendBlob)
    → IsSealed b.sealed
    → IsHexOf 33 b.ephemeral_public_key
    → (validate_encrypted_fields (
          Json.object (
            Members.member "ephemeralPublicKey"
              (Json.string b.ephemeral_public_key)
              (sealed_members b.sealed Members.end)))
        ≡ ok b.sealed)
      × (assert_hex_field
            (Json.object (
              Members.member "ephemeralPublicKey"
                (Json.string b.ephemeral_public_key)
                (sealed_members b.sealed Members.end)))
            "ephemeralPublicKey"
            (some 33)
          ≡ ok b.ephemeral_public_key)
unfolding validate_encrypted_fields assert_hex_field sealed_members field find_member as_string
backend_read b h k = (
  rw (
    hex_of_any b.sealed.ciphertext h.ciphertext,
    hex_of_sized 12 b.sealed.nonce h.nonce,
    hex_of_sized 16 b.sealed.tag h.tag,
  ),
  hex_of_sized 33 b.ephemeral_public_key k,
)

-- The JSON of a blob with hexadecimal fields of the right sizes, a known kind of sharing and allowed
-- KDF parameters is parsed to that blob.
pub parse_composite_blob-blob_json :
    (blob : CompositeBlob) → IsValid blob → parse_composite_blob (some (blob_json blob)) ≡ ok blob
unfolding parse_composite_blob blob_json field find_member as_string as_natural present truthy
    kdf_params_of validate_sharing_type
parse_composite_blob-blob_json blob h =
    let (backend, key) = backend_read blob.backend_share_blob h.backend h.ephemeral in
    rw (
      sealed_read blob.encrypted_client_share h.client,
      backend,
      key,
      h.sharing,
      (validate_kdf_params-AreAllowed blob.kdf_params).1 h.allowed,
    )
