-- ===== src/Client/Storage/Secure.antt =====
-- `SecureKeyStorage` (src/core/secure-storage.ts) over the storage in memory, and encryptWithPassword
-- (src/core/crypto-primitives.ts). The result of PBKDF2 by password and salt, and JSON.stringify and
-- JSON.parse of the two kinds of shares, are parameters; `draws` gives the salt and the iv of each
-- encryption. A stored text is kept as the record that it is read as.
use nero_mpc_sdk.Base.{ℕ, suc, ◌==◌, Bool, true, false, not, ◌++◌, Option, none, some}
use nero_mpc_sdk.Base.Throws.{Throws, ok, ◌>>=◌, ◌>>◌, throw_if, or_throw}
use nero_mpc_sdk.Hex.{Text, Bytes, text}
use nero_mpc_sdk.Noble.{Noble}
use nero_mpc_sdk.Dkg.Exchange.{Webcrypto}
use nero_mpc_sdk.Client.Keys.{ClientKeyShare, PartyShares, Storage}
use nero_mpc_sdk.Client.Storage.Memory.{MemoryStorage, get_item, set_item, delete_item, clear_items}

pub record EncryptionResult : Type 0 where
  pub ciphertext : Text
  pub iv : Text
  pub salt : Text

pub record EncryptedKeyShare : Type 0 where
  pub ciphertext : Text
  pub iv : Text
  pub salt : Text
  pub version : ℕ

pub record ShareJson : Type 0 where
  pub write_share : ClientKeyShare → Text
  pub read_share : Text → Option ClientKeyShare
  pub write_parties : PartyShares → Text
  pub read_parties : Text → Option PartyShares

pub record SecureKeyStorage : Type 0 where
  pub memory : MemoryStorage EncryptedKeyShare
  pub device_key : Text
  pub drawn : ℕ

abbrev pub encryption_version : ℕ
encryption_version = 1

module _ (lib : Noble) (web : Webcrypto) (pbkdf2 : Bytes → Bytes → Bytes) (json : ShareJson)
    (draws : ℕ → Bytes × Bytes) where
  open lib use {sha256, utf8_to_bytes, bytes_to_hex, hex_to_bytes}

  unfoldable pub hash_sha256 : Text → Text
  hash_sha256 input = bytes_to_hex (sha256 (utf8_to_bytes input))

  unfoldable pub derive_key_from_password : Text → Bytes → Bytes
  derive_key_from_password password salt = pbkdf2 (utf8_to_bytes password) salt

  unfoldable pub encrypt_with_password : Bytes → Bytes → Text → Text → Throws EncryptionResult
  encrypt_with_password salt iv plaintext password = do
    ciphertext ←
        or_throw (web.encrypt (derive_key_from_password password salt) iv (utf8_to_bytes plaintext))
          "encrypt"
    ok (record {
      ciphertext = bytes_to_hex ciphertext;
      iv = bytes_to_hex iv;
      salt = bytes_to_hex salt;
    })

  unfoldable pub decrypt_with_password : EncryptionResult → Text → Throws Text
  decrypt_with_password encrypted password = do
    salt ← or_throw (hex_to_bytes encrypted.salt) "hexToBytes"
    iv ← or_throw (hex_to_bytes encrypted.iv) "hexToBytes"
    ciphertext ← or_throw (hex_to_bytes encrypted.ciphertext) "hexToBytes"
    plaintext ←
        or_throw (web.decrypt (derive_key_from_password password salt) iv ciphertext) "decrypt"
    ok (web.decode plaintext)

  -- What the four pairs of methods share: encrypt and store, load and decrypt.
  unfoldable pub store_encrypted : Text → Text → SecureKeyStorage → Throws SecureKeyStorage
  store_encrypted key plaintext s = do
    encrypted ← encrypt_with_password (draws s.drawn).0 (draws s.drawn).1 plaintext s.device_key
    ok (record s {
      memory =
          set_item key
            (record {
              ciphertext = encrypted.ciphertext;
              iv = encrypted.iv;
              salt = encrypted.salt;
              version = encryption_version;
            })
            s.memory;
      drawn = suc s.drawn;
    })

  unfoldable pub decrypt_entry : Text → Option EncryptedKeyShare → Throws (Option Text)
  decrypt_entry device_key none = ok none
  decrypt_entry device_key (some entry) = do
    throw_if (not (entry.version == encryption_version)) "Unsupported encryption version"
    plaintext ←
        decrypt_with_password
          (record { ciphertext = entry.ciphertext; iv = entry.iv; salt = entry.salt }) device_key
    ok (some plaintext)

  unfoldable pub load_decrypted : Text → SecureKeyStorage → Throws (Option Text)
  load_decrypted key s = decrypt_entry s.device_key (get_item key s.memory)

  -- `JSON.parse`, when there is a text.
  unfoldable pub parsed : {A : Type 0} → (Text → Option A) → Option Text → Throws (Option A)
  parsed read none = ok none
  parsed read (some plaintext) = do value ← or_throw (read plaintext) "JSON.parse"; ok (some value)

  unfoldable pub is_present : {A : Type 0} → Option A → Bool
  is_present none = false
  is_present (some a) = true

  unfoldable pub get_storage_key : Text → Text
  get_storage_key user_id = text "keyshare:" ++ hash_sha256 user_id

  unfoldable pub get_party_shares_key : Text → Text
  get_party_shares_key user_id = text "partyshares:" ++ hash_sha256 user_id

  unfoldable pub get_public_key_storage_key : Text → Text
  get_public_key_storage_key user_id = text "publickey:" ++ hash_sha256 user_id

  unfoldable pub get_backend_share_key : Text → Text
  get_backend_share_key user_id = text "backendshare:" ++ hash_sha256 user_id

  unfoldable pub secure_store_key_share :
      Text → ClientKeyShare → SecureKeyStorage → Throws SecureKeyStorage
  secure_store_key_share user_id key_share s =
      store_encrypted (get_storage_key user_id) (json.write_share key_share) s

  unfoldable pub secure_get_key_share : Text → SecureKeyStorage → Throws (Option ClientKeyShare)
  secure_get_key_share user_id s =
      load_decrypted (get_storage_key user_id) s >>= parsed json.read_share

  unfoldable pub secure_has_key_share : Text → SecureKeyStorage → Bool
  secure_has_key_share user_id s = is_present (get_item (get_storage_key user_id) s.memory)

  unfoldable pub secure_delete_key_share : Text → SecureKeyStorage → SecureKeyStorage
  secure_delete_key_share user_id s = record s {
    memory = delete_item (get_storage_key user_id) s.memory;
  }

  unfoldable pub secure_store_party_public_shares :
      Text → PartyShares → SecureKeyStorage → Throws SecureKeyStorage
  secure_store_party_public_shares user_id shares s =
      store_encrypted (get_party_shares_key user_id) (json.write_parties shares) s

  unfoldable pub secure_get_party_public_shares :
      Text → SecureKeyStorage → Throws (Option PartyShares)
  secure_get_party_public_shares user_id s =
      load_decrypted (get_party_shares_key user_id) s >>= parsed json.read_parties

  unfoldable pub delete_party_public_shares : Text → SecureKeyStorage → SecureKeyStorage
  delete_party_public_shares user_id s = record s {
    memory = delete_item (get_party_shares_key user_id) s.memory;
  }

  unfoldable pub store_public_key : Text → Text → SecureKeyStorage → Throws SecureKeyStorage
  store_public_key user_id public_key s =
      store_encrypted (get_public_key_storage_key user_id) public_key s

  unfoldable pub get_public_key : Text → SecureKeyStorage → Throws (Option Text)
  get_public_key user_id s = load_decrypted (get_public_key_storage_key user_id) s

  unfoldable pub store_backend_share : Text → Text → SecureKeyStorage → Throws SecureKeyStorage
  store_backend_share user_id share s = store_encrypted (get_backend_share_key user_id) share s

  unfoldable pub get_backend_share : Text → SecureKeyStorage → Throws (Option Text)
  get_backend_share user_id s = load_decrypted (get_backend_share_key user_id) s

  unfoldable pub secure_clear_all : SecureKeyStorage → SecureKeyStorage
  secure_clear_all s = record s { memory = clear_items s.memory }

  -- The storage of the key manager.
  abbrev pub secure_storage : Storage
  secure_storage = record {
    Store = SecureKeyStorage;
    has_key_share = λ user s. ok (secure_has_key_share user s);
    get_key_share = secure_get_key_share;
    store_key_share = secure_store_key_share;
    delete_key_share = λ user s. ok (secure_delete_key_share user s);
    get_party_public_shares = secure_get_party_public_shares;
    store_party_public_shares = secure_store_party_public_shares;
    clear_all = λ s. ok (secure_clear_all s);
  }
