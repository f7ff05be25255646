-- ===== src/Dkg/Exchange.antt =====
-- The encrypted exchange of shares (src/protocols/dkg/share-exchange.ts): an ECDH key by HKDF, and
-- AES-GCM. `hkdf`, `crypto.subtle` and TextDecoder are the parameter `Webcrypto`; the bytes that
-- crypto.getRandomValues fills are arguments. `serializeEncryptedShare` and its inverse are
-- JSON.stringify and JSON.parse of the record.
pub mod Laws
pub mod Toy
mod Tests
use nero_mpc_sdk.Base.{
  ℕ, ◌+◌, ◌-◌, ◌^◌, ◌<◌, ◌≡◌, Bool, true, ◌==◌, List, ◌∷◌, ◌++◌, Option, some, none, All, length,
  take, drop,
}
use nero_mpc_sdk.Base.Throws.{Throws, ok, throw, ◌>>=◌, ◌>>◌, throw_if, or_throw}
use nero_mpc_sdk.Bigint.{ℤ, pos, beq_ℤ}
use nero_mpc_sdk.Modular.{mod_twice}
use nero_mpc_sdk.Hex.{Text, Bytes, IsLowerHex, text, scalar_to_hex, hex_to_scalar, parse_bigint16}
use nero_mpc_sdk.Noble.{Noble, IsByte}

pub record Webcrypto : Type 0 where
  -- hkdf(sha256, input, undefined, info, length)
  pub hkdf : Bytes → Text → ℕ → Bytes
  -- subtle.encrypt and subtle.decrypt for AES-GCM with a tag of 128 bits behind the ciphertext: key,
  -- iv, data; `none` is a rejection, also of importKey
  pub encrypt : Bytes → Bytes → Bytes → Option Bytes
  pub decrypt : Bytes → Bytes → Bytes → Option Bytes
  -- new TextDecoder().decode
  pub decode : Bytes → Text

-- Documented behaviour: HKDF gives as many bytes as asked for; a key of 32 bytes encrypts, and
-- decrypts what it encrypted; UTF-8 of hexadecimal digits decodes.
pub record Sealing (lib : Noble) (web : Webcrypto) : Type 0 where
  pub length-hkdf : (input : Bytes) (info : Text) (n : ℕ) → length (web.hkdf input info n) ≡ n
  pub decrypt-encrypt :
      (key iv plain : Bytes)
      → length key ≡ 32
      → All IsByte plain
      → (sealed : Bytes) × (web.encrypt key iv plain ≡ some sealed)
        × All IsByte sealed
        × (web.decrypt key iv sealed ≡ some plain)
        × (length sealed ≡ length plain + 16)
  pub length-utf8_to_bytes : (s : Text) → All IsLowerHex s → length (lib.utf8_to_bytes s) ≡ length s
  pub All-utf8_to_bytes : (s : Text) → All IsLowerHex s → All IsByte (lib.utf8_to_bytes s)
  pub decode-utf8_to_bytes : (s : Text) → All IsLowerHex s → web.decode (lib.utf8_to_bytes s) ≡ s
  pub affine_x-lt : (p : lib.Point) → lib.affine_x p < 2 ^ 256

pub record EncryptedShare : Type 0 where
  pub from_party_id : ℕ
  pub to_party_id : ℕ
  pub ephemeral_public_key : Text
  pub ciphertext : Text
  pub nonce : Text
  pub tag : Text

pub record DecryptedShare : Type 0 where
  pub from_party_id : ℕ
  pub share : ℤ

pub record EphemeralKeyPair : Type 0 where
  pub private_key : ℤ
  pub public_key : Text

module _ (lib : Noble) where
  open lib use {base, order, multiply, to_hex, bytes_to_hex}

  unfoldable pub generate_secure_scalar : Bytes → Throws ℤ
  generate_secure_scalar bytes = do
    number ← or_throw (parse_bigint16 (bytes_to_hex bytes)) "BigInt"
    let scalar = mod_twice number (pos order)
    throw_if (beq_ℤ scalar (pos 0)) "RNG failure: generated zero scalar"
    ok scalar

  unfoldable pub generate_ephemeral_key_pair : Bytes → Throws EphemeralKeyPair
  generate_ephemeral_key_pair bytes = do
    private_key ← generate_secure_scalar bytes
    point ← or_throw (multiply base private_key) "multiply"
    public_key ← or_throw (to_hex true point) "toHex"
    ok (record { private_key = private_key; public_key = public_key })

module _ (lib : Noble) (web : Webcrypto) where
  open lib use {
    base, multiply, to_hex, from_hex, affine_x, bytes_to_hex, hex_to_bytes, utf8_to_bytes,
  }
  open web use {hkdf, encrypt, decrypt, decode}

  unfoldable pub derive_shared_secret : ℤ → Text → Throws Bytes
  derive_shared_secret private_key public_key = do
    pub_point ← or_throw (from_hex public_key) "fromHex"
    shared_point ← or_throw (multiply pub_point private_key) "multiply"
    x_coord ← or_throw (hex_to_bytes (scalar_to_hex (pos (affine_x shared_point)))) "hexToBytes"
    ok (hkdf x_coord (text "nero-mpc:ecdh:share-exchange") 32)

  -- The ciphertext and the tag, `slice(0, -16)` and `slice(-16)` of what `encrypt` returns.
  unfoldable pub aes_gcm_encrypt : Bytes → Bytes → Bytes → Throws (Bytes × Bytes)
  aes_gcm_encrypt plaintext key nonce = do
    encrypted ← or_throw (encrypt key nonce plaintext) "encrypt"
    ok (take (length encrypted - 16) encrypted, drop (length encrypted - 16) encrypted)

  unfoldable pub aes_gcm_decrypt : Bytes → Bytes → Bytes → Bytes → Throws Bytes
  aes_gcm_decrypt ciphertext tag key nonce =
      or_throw (decrypt key nonce (ciphertext ++ tag)) "decrypt"

  -- The first two arguments are the bytes drawn for the ephemeral key and for the nonce.
  unfoldable pub encrypt_share : Bytes → Bytes → ℤ → ℕ → ℕ → Text → Throws EncryptedShare
  encrypt_share key_bytes nonce share from_party_id to_party_id recipient_public_key = do
    ephemeral_private_key ← generate_secure_scalar lib key_bytes
    ephemeral_point ← or_throw (multiply base ephemeral_private_key) "multiply"
    ephemeral_public_key ← or_throw (to_hex true ephemeral_point) "toHex"
    shared_secret ← derive_shared_secret ephemeral_private_key recipient_public_key
    let plaintext = utf8_to_bytes (scalar_to_hex share)
    (ciphertext, tag) ← aes_gcm_encrypt plaintext shared_secret nonce
    ok (record {
      from_party_id = from_party_id;
      to_party_id = to_party_id;
      ephemeral_public_key = ephemeral_public_key;
      ciphertext = bytes_to_hex ciphertext;
      nonce = bytes_to_hex nonce;
      tag = bytes_to_hex tag;
    })

  unfoldable pub decrypt_share : EncryptedShare → ℤ → Throws DecryptedShare
  decrypt_share encrypted_share recipient_private_key = do
    shared_secret ← derive_shared_secret recipient_private_key encrypted_share.ephemeral_public_key
    ciphertext ← or_throw (hex_to_bytes encrypted_share.ciphertext) "hexToBytes"
    nonce ← or_throw (hex_to_bytes encrypted_share.nonce) "hexToBytes"
    tag ← or_throw (hex_to_bytes encrypted_share.tag) "hexToBytes"
    plaintext ← aes_gcm_decrypt ciphertext tag shared_secret nonce
    share ← or_throw (hex_to_scalar (decode plaintext)) "BigInt"
    ok (record { from_party_id = encrypted_share.from_party_id; share = share })
