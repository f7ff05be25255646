-- ===== src/Client/Storage/Laws.antt =====
-- The key manager over the encrypted storage in memory (src/core/client-key-manager.ts,
-- src/core/secure-storage.ts).
use nero_mpc_sdk.Base.{
  ℕ, suc, ◌≡◌, ◌≢◌, refl, sym, ap, ◌∙◌, [], ◌∷◌, Option, none, some, All, length,
}
use nero_mpc_sdk.Base.Throws.{Throws, ok, throw, ◌>>=◌}
use nero_mpc_sdk.Base.Steps.{continue}
use nero_mpc_sdk.Hex.{Text, Bytes, text}
use nero_mpc_sdk.Noble.{Noble, Lawful, IsByte}
use nero_mpc_sdk.Dkg.Exchange.{Webcrypto, Sealing}
use nero_mpc_sdk.Client.Keys.{
  ClientKeyShare, Storage, KeyManager, user_of, current_user, reading, writing, kept_or, initialize,
  load_key_share, cached_or_loaded, get_key_share, store_key_share, forget, delete_key_share,
}
use nero_mpc_sdk.Client.Storage.Memory.{
  append_cancel, set_item, get_item-set_item, get_item-set_item_other, get_item-delete_item,
}
use nero_mpc_sdk.Client.Storage.Secure.{
  ShareJson, EncryptionResult, SecureKeyStorage, hash_sha256, derive_key_from_password,
  encrypt_with_password, decrypt_with_password, store_encrypted, decrypt_entry, load_decrypted,
  parsed, get_storage_key, secure_store_key_share, secure_get_key_share, secure_delete_key_share,
  secure_storage, encryption_version,
}

-- What a new manager over the same store answers once it was initialized for a user.
module _ (storage : Storage) where
  abbrev pub new_manager : storage.Store → KeyManager storage
  new_manager store = record {
    store = store;
    current_user_id = none;
    cached_key_share = none;
    cached_party_shares = none;
  }

  unfoldable pub reopened : Text → storage.Store → Throws (Option ClientKeyShare)
  reopened user store =
      (continue (initialize storage user (new_manager store)) (λ done. get_key_share storage)).1

  reopened_lem :
      (user : Text) (store : storage.Store) → reopened user store ≡ storage.get_key_share user store
  unfolding reopened initialize reading get_key_share cached_or_loaded load_key_share user_of
  reopened_lem user store = from user (storage.get_key_share user store) refl
    where
      from :
          (user : Text) (t : Throws (Option ClientKeyShare))
          → storage.get_key_share user store ≡ t
          → reopened user store ≡ storage.get_key_share user store
      from user (throw message) e = simp e
      from user (ok (some share)) e = simp e
      from [] (ok none) e = simp e
      from (c ∷ user) (ok none) e = simp e

-- Documented behaviour: PBKDF2 gives a key of 32 bytes; JSON reads back the share that it wrote, and
-- UTF-8 encodes its text by bytes and decodes them; the drawn values are bytes.
pub record IsVault (lib : Noble) (web : Webcrypto) (pbkdf2 : Bytes → Bytes → Bytes)
    (json : ShareJson) (draws : ℕ → Bytes × Bytes) (share : ClientKeyShare) : Type 0 where
  pub length-pbkdf2 : (password salt : Bytes) → length (pbkdf2 password salt) ≡ 32
  pub read-write : json.read_share (json.write_share share) ≡ some share
  pub written_bytes : All IsByte (lib.utf8_to_bytes (json.write_share share))
  pub decode-written :
      web.decode (lib.utf8_to_bytes (json.write_share share)) ≡ json.write_share share
  pub drawn_bytes : (n : ℕ) → All IsByte (draws n).0 × All IsByte (draws n).1

module _ (lib : Noble) (laws : Lawful lib) (web : Webcrypto) (sealing : Sealing lib web)
    (pbkdf2 : Bytes → Bytes → Bytes) (json : ShareJson) (draws : ℕ → Bytes × Bytes)
    (share : ClientKeyShare) (vault : IsVault lib web pbkdf2 json draws share) where
  decrypt-encrypt :
      (salt iv : Bytes) (plaintext password : Text)
      → All IsByte salt
      → All IsByte iv
      → All IsByte (lib.utf8_to_bytes plaintext)
      → web.decode (lib.utf8_to_bytes plaintext) ≡ plaintext
      → (sealed : EncryptionResult) × (encrypt_with_password lib web pbkdf2 json draws salt iv
            plaintext password
          ≡ ok sealed)
        × (decrypt_with_password lib web pbkdf2 json draws sealed password ≡ ok plaintext)
  unfolding encrypt_with_password decrypt_with_password derive_key_from_password
  decrypt-encrypt salt iv plaintext password salt_bytes iv_bytes bytes decoded =
      let key = pbkdf2 (lib.utf8_to_bytes password) salt in
      let (sealed, encrypted, sealed_bytes, decrypted, size) =
        sealing.decrypt-encrypt key iv (lib.utf8_to_bytes plaintext)
          (vault.length-pbkdf2 (lib.utf8_to_bytes password) salt) bytes in
      (
        record {
          ciphertext = lib.bytes_to_hex sealed;
          iv = lib.bytes_to_hex iv;
          salt = lib.bytes_to_hex salt;
        },
        rw encrypted,
        rw (
          laws.hex_to_bytes-bytes_to_hex salt salt_bytes,
          laws.hex_to_bytes-bytes_to_hex iv iv_bytes,
          laws.hex_to_bytes-bytes_to_hex sealed sealed_bytes,
          decrypted,
          decoded,
        ),
      )

  -- What is stored under a key is loaded again, and other keys load what they loaded before.
  load_decrypted-store_encrypted :
      (key plaintext : Text) (s : SecureKeyStorage)
      → All IsByte (lib.utf8_to_bytes plaintext)
      → web.decode (lib.utf8_to_bytes plaintext) ≡ plaintext
      → (next : SecureKeyStorage) × (store_encrypted lib web pbkdf2 json draws key plaintext s
          ≡ ok next)
        × (load_decrypted lib web pbkdf2 json draws key next ≡ ok (some plaintext))
        × ((other : Text)
            → other ≢ key
            → load_decrypted lib web pbkdf2 json draws other next
              ≡ load_decrypted lib web pbkdf2 json draws other s)
  unfolding store_encrypted load_decrypted
  load_decrypted-store_encrypted key plaintext s bytes decoded =
      let (salt_bytes, iv_bytes) = vault.drawn_bytes s.drawn in
      let (sealed, encrypted, decrypted) =
        decrypt-encrypt (draws s.drawn).0 (draws s.drawn).1 plaintext s.device_key salt_bytes
          iv_bytes bytes decoded in
      (
        record s {
          memory =
              set_item key
                (record {
                  ciphertext = sealed.ciphertext;
                  iv = sealed.iv;
                  salt = sealed.salt;
                  version = encryption_version;
                })
                s.memory;
          drawn = suc s.drawn;
        },
        rw encrypted,
        rw (get_item-set_item key _ s.memory) (unfold decrypt_entry in rw decrypted),
        λ other ne.
            ap (decrypt_entry lib web pbkdf2 json draws s.device_key)
              (get_item-set_item_other key other _ s.memory ne),
      )

  other_key :
      (user other : Text)
      → hash_sha256 lib web pbkdf2 json draws other ≢ hash_sha256 lib web pbkdf2 json draws user
      → get_storage_key lib web pbkdf2 json draws other
        ≢ get_storage_key lib web pbkdf2 json draws user
  unfolding get_storage_key
  other_key user other ne e = ne (append_cancel (text "keyshare:") _ _ e)

  abbrev pub Vault : Storage
  Vault = secure_storage lib web pbkdf2 json draws

  secure_get-store :
      (user : Text) (s : SecureKeyStorage)
      → (next : SecureKeyStorage) × (Vault.store_key_share user share s ≡ ok next)
        × (Vault.get_key_share user next ≡ ok (some share))
        × ((other : Text)
            → hash_sha256 lib web pbkdf2 json draws other
              ≢ hash_sha256 lib web pbkdf2 json draws user
            → Vault.get_key_share other next ≡ Vault.get_key_share other s)
  unfolding secure_store_key_share secure_get_key_share parsed
  secure_get-store user s =
      let (next, stored, loaded, others) =
        load_decrypted-store_encrypted (get_storage_key lib web pbkdf2 json draws user)
          (json.write_share share) s vault.written_bytes vault.decode-written in
      (
        next,
        stored,
        rw (loaded, vault.read-write),
        λ other ne.
            ap (λ t. t >>= parsed lib web pbkdf2 json draws json.read_share)
              (others _ (other_key user other ne)),
      )

  secure_get-delete :
      (user : Text) (s : SecureKeyStorage)
      → Vault.get_key_share user (secure_delete_key_share lib web pbkdf2 json draws user s)
        ≡ ok none
  unfolding secure_get_key_share secure_delete_key_share load_decrypted decrypt_entry parsed
  secure_get-delete user s =
      rw (get_item-delete_item (get_storage_key lib web pbkdf2 json draws user) s.memory)

  -- Over the encrypted storage in memory, under the laws `Lawful`, `Sealing` and `IsVault` of what it
  -- calls and whatever is stored already: the manager of a user whose identifier is not empty stores a
  -- share. A new manager over the store then reads it for this user, and for a user whose identifier
  -- has another hash it reads what it read before, or throws as before. The deletion succeeds, after
  -- which neither the manager nor a new one has a share of the user.
  pub store_then_delete :
      (c : ℕ) (user other : Text) (m : KeyManager Vault)
      → m.current_user_id ≡ some (c ∷ user)
      → hash_sha256 lib web pbkdf2 json draws other
        ≢ hash_sha256 lib web pbkdf2 json draws (c ∷ user)
      → (next : KeyManager Vault) × (gone : KeyManager Vault) × (store_key_share Vault share m
          ≡ (next, ok tt))
        × (reopened Vault (c ∷ user) next.store ≡ ok (some share))
        × (reopened Vault other next.store ≡ reopened Vault other m.store)
        × (delete_key_share Vault next ≡ (gone, ok tt))
        × (reopened Vault (c ∷ user) gone.store ≡ ok none)
        × ((get_key_share Vault gone).1 ≡ ok none)
  unfolding store_key_share current_user user_of writing kept_or delete_key_share forget
      get_key_share cached_or_loaded load_key_share reading
  store_then_delete c user other m current differs =
      let (store, stored, read, others) = secure_get-store (c ∷ user) m.store in
      let erased = secure_get-delete (c ∷ user) store in
      (
        record m { store = store; cached_key_share = some share },
        record m {
          store = secure_delete_key_share lib web pbkdf2 json draws (c ∷ user) store;
          cached_key_share = none;
        },
        rw (current, stored),
        reopened_lem Vault (c ∷ user) store ∙ read,
        reopened_lem Vault other store
            ∙ others other differs
            ∙ sym (reopened_lem Vault other m.store),
        rw current,
        reopened_lem Vault (c ∷ user) _ ∙ erased,
        rw (current, erased),
      )
