-- ===== src/Recovery/Blob.antt =====
-- The composite blob of a recovery and its validation (src/core/self-custody-recovery.ts). An
-- `SDKError` is thrown with its code for a message.
use Prim.Native.String.{String}
use Prim.Native.Nat.{bit_and}
use nero_mpc_sdk.Base.{
  ℕ, ◌-◌, ◌*◌, ◌%◌, Bool, not, ◌&&◌, ◌||◌, if◌then◌else◌, ltb, ◌==◌, Option, none, some, length,
}
use nero_mpc_sdk.Base.Throws.{Throws, ok, throw, ◌>>=◌, ◌>>◌, throw_if, or_throw}
use nero_mpc_sdk.Hex.{Text, text, all_hex, same_text}
use nero_mpc_sdk.Recovery.Json.{Json, field, truthy, as_string, as_natural}

pub record KdfParams : Type 0 where
  pub n : ℕ
  pub r : ℕ
  pub p : ℕ

pub record SealedText : Type 0 where
  pub ciphertext : Text
  pub nonce : Text
  pub tag : Text

pub record BackendBlob : Type 0 where
  pub ephemeral_public_key : Text
  pub sealed : SealedText

pub record CompositeBlob : Type 0 where
  pub encrypted_client_share : SealedText
  pub backend_share_blob : BackendBlob
  pub sharing_type : Text
  pub kdf_salt : Text
  pub kdf_params : KdfParams
  pub metadata_mac : Text

unfoldable pub default_kdf_params : KdfParams
default_kdf_params = record { n = 131072; r = 8; p = 1 }

unfoldable pub multiplicative : Text
multiplicative = text "multiplicative"

unfoldable pub additive : Text
additive = text "additive"

abbrev pub invalid : String
invalid = "INVALID_COMPOSITE_BLOB"

unfoldable pub validate_kdf_params : KdfParams → Throws (Unit {0})
validate_kdf_params params = do
  throw_if
      (ltb params.n 1024 || (ltb 1048576 params.n || not (bit_and params.n (params.n - 1) == 0)))
      invalid
  throw_if (ltb params.r 1 || ltb 64 params.r) invalid
  throw_if (ltb params.p 1 || ltb 16 params.p) invalid

unfoldable pub validate_sharing_type : Text → Throws (Unit {0})
validate_sharing_type sharing_type =
    throw_if (not (same_text sharing_type multiplicative || same_text sharing_type additive))
      invalid

unfoldable pub is_hex : Text → Bool
is_hex s = ltb 0 (length s) && (length s % 2 == 0 && all_hex s)

-- The field's text, after its checks; `none` as a length asks for no length.
unfoldable pub hex_of : Option Text → Option ℕ → Throws Text
hex_of none exact_bytes = throw invalid
hex_of (some s) none = do throw_if (not (is_hex s)) invalid; ok s
hex_of (some s) (some exact_bytes) = do
  throw_if (not (is_hex s)) invalid
  throw_if (not (length s == exact_bytes * 2)) invalid
  ok s

unfoldable pub assert_hex_field : Json → String → Option ℕ → Throws Text
assert_hex_field value name exact_bytes = hex_of (as_string (field name value)) exact_bytes

unfoldable pub validate_encrypted_fields : Json → Throws SealedText
validate_encrypted_fields value = do
  ciphertext ← assert_hex_field value "ciphertext" none
  nonce ← assert_hex_field value "nonce" (some 12)
  tag ← assert_hex_field value "tag" (some 16)
  ok (record { ciphertext = ciphertext; nonce = nonce; tag = tag })

-- A parameter that is missing, or no natural number, is none of the accepted ones.
unfoldable pub kdf_params_of : Json → Throws KdfParams
kdf_params_of value = do
  n ← or_throw (as_natural (field "N" value)) invalid
  r ← or_throw (as_natural (field "r" value)) invalid
  p ← or_throw (as_natural (field "p" value)) invalid
  ok (record { n = n; r = r; p = p })

-- A member that must be truthy.
unfoldable pub present : Option Json → Throws Json
present none = throw invalid
present (some value) = if truthy (some value) then ok value else throw invalid

-- The argument is what JSON.parse returns, `none` if it throws. The fields are read here in the
-- order in which they are checked.
unfoldable pub parse_composite_blob : Option Json → Throws CompositeBlob
parse_composite_blob none = throw invalid
parse_composite_blob (some blob) = do
  version ← or_throw (as_natural (field "version" blob)) invalid
  throw_if (not (version == 2)) invalid
  client ← present (field "encryptedClientShare" blob)
  backend ← present (field "backendShareBlob" blob)
  sharing_type ← or_throw (as_string (field "sharingType" blob)) invalid
  kdf_salt ← or_throw (as_string (field "kdfSalt" blob)) invalid
  params ← present (field "kdfParams" blob)
  metadata_mac ← or_throw (as_string (field "metadataMac" blob)) invalid
  encrypted_client_share ← validate_encrypted_fields client
  sealed ← validate_encrypted_fields backend
  ephemeral_public_key ← assert_hex_field backend "ephemeralPublicKey" (some 33)
  validate_sharing_type sharing_type
  kdf_params ← kdf_params_of params
  validate_kdf_params kdf_params
  ok (record {
    encrypted_client_share = encrypted_client_share;
    backend_share_blob = record { ephemeral_public_key = ephemeral_public_key; sealed = sealed };
    sharing_type = sharing_type;
    kdf_salt = kdf_salt;
    kdf_params = kdf_params;
    metadata_mac = metadata_mac;
  })
