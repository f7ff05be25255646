-- ===== src/Client/Keys.antt =====
-- `ClientKeyManager` (src/core/client-key-manager.ts) over the storage of src/core/secure-storage.ts,
-- which it sees as an interface.
pub mod Laws
use Prim.Native.String.{String}
use nero_mpc_sdk.Base.{
  ℕ, ◌==◌, ==_iff, ◌≡◌, ◌≢◌, refl, sym, ap, ◌∙◌, Bool, true, false, not, if◌then◌else◌, List, [],
  ◌∷◌, Option, none, some, subst,
}
use nero_mpc_sdk.Base.Throws.{Throws, ok, throw, throw_if, or_throw}
use nero_mpc_sdk.Base.Steps.{Steps, continue, ◌>>=◌, ◌>>◌, call, return, update}
use nero_mpc_sdk.Hex.{Text}

pub record ClientKeyShare : Type 0 where
  pub party_id : ℕ
  pub private_share : String
  pub public_share : String
  pub commitment : String
  pub threshold : ℕ
  pub total_parties : ℕ
  pub protocol_version : String

-- Public shares by party.
abbrev pub PartyShares : Type 0
PartyShares = List (ℕ × String)

-- The storage, with the operations that the manager calls on its two kinds of shares. An operation
-- may throw, and then leaves the store as it is.
pub record Storage : Type 1 where
  pub Store : Type 0
  pub has_key_share : Text → Store → Throws Bool
  pub get_key_share : Text → Store → Throws (Option ClientKeyShare)
  pub store_key_share : Text → ClientKeyShare → Store → Throws Store
  pub delete_key_share : Text → Store → Throws Store
  pub get_party_public_shares : Text → Store → Throws (Option PartyShares)
  pub store_party_public_shares : Text → PartyShares → Store → Throws Store
  pub clear_all : Store → Throws Store

module _ (storage : Storage) where
  open storage use {Store}

  pub record KeyManager : Type 0 where
    pub store : Store
    pub current_user_id : Option Text
    pub cached_key_share : Option ClientKeyShare
    pub cached_party_shares : Option PartyShares

  -- A call of the storage that only reads, and one that writes.
  unfoldable pub reading : {A : Type 0} → (Store → Throws A) → Steps KeyManager A
  reading look m = (m, look m.store)

  unfoldable pub kept_or : KeyManager → Throws Store → KeyManager × Throws (Unit {0})
  kept_or m (ok store) = (record m { store = store }, ok tt)
  kept_or m (throw message) = (m, throw message)

  unfoldable pub writing : (Store → Throws Store) → Steps KeyManager (Unit {0})
  writing change m = kept_or m (change m.store)

  -- The empty identifier counts as none.
  unfoldable pub user_of : KeyManager → Option Text
  user_of m = elim m.current_user_id [
    | none ↦ none
    | some [] ↦ none
    | some (c ∷ user) ↦ some (c ∷ user)
  ]

  -- `if (!this.currentUserId) throw …`
  unfoldable pub current_user : Steps KeyManager Text
  current_user m = (m, or_throw (user_of m) "User not initialized")

  unfoldable pub initialize : Text → Steps KeyManager (Unit {0})
  initialize user = do
    update (λ m. record m { current_user_id = some user })
    share ← reading (storage.get_key_share user)
    update (λ m. record m { cached_key_share = share })

  unfoldable pub user_has_key_share : Option Text → Steps KeyManager Bool
  user_has_key_share none = return false
  user_has_key_share (some user) = reading (storage.has_key_share user)

  unfoldable pub has_client_key_share : Steps KeyManager Bool
  has_client_key_share m = user_has_key_share (user_of m) m

  unfoldable pub load_key_share : Option Text → Steps KeyManager (Option ClientKeyShare)
  load_key_share none = return none
  load_key_share (some user) = do
    share ← reading (storage.get_key_share user)
    update (λ m. record m { cached_key_share = share })
    return share

  unfoldable pub cached_or_loaded : Option ClientKeyShare → Steps KeyManager (Option ClientKeyShare)
  cached_or_loaded (some share) m = (m, ok (some share))
  cached_or_loaded none m = load_key_share (user_of m) m

  unfoldable pub get_key_share : Steps KeyManager (Option ClientKeyShare)
  get_key_share m = cached_or_loaded m.cached_key_share m

  unfoldable pub store_key_share : ClientKeyShare → Steps KeyManager (Unit {0})
  store_key_share key_share = do
    user ← current_user
    writing (storage.store_key_share user key_share)
    update (λ m. record m { cached_key_share = some key_share })

  unfoldable pub load_party_shares : Option Text → Steps KeyManager (Option PartyShares)
  load_party_shares none = return none
  load_party_shares (some user) = do
    shares ← reading (storage.get_party_public_shares user)
    update (λ m. record m { cached_party_shares = shares })
    return shares

  unfoldable pub cached_or_loaded_party : Option PartyShares → Steps KeyManager (Option PartyShares)
  cached_or_loaded_party (some shares) m = (m, ok (some shares))
  cached_or_loaded_party none m = load_party_shares (user_of m) m

  unfoldable pub get_party_public_shares : Steps KeyManager (Option PartyShares)
  get_party_public_shares m = cached_or_loaded_party m.cached_party_shares m

  unfoldable pub store_party_public_shares : PartyShares → Steps KeyManager (Unit {0})
  store_party_public_shares shares = do
    user ← current_user
    writing (storage.store_party_public_shares user shares)
    update (λ m. record m { cached_party_shares = some shares })

  unfoldable pub forget : Option Text → Steps KeyManager (Unit {0})
  forget none = return tt
  forget (some user) = do
    writing (storage.delete_key_share user)
    update (λ m. record m { cached_key_share = none })

  unfoldable pub delete_key_share : Steps KeyManager (Unit {0})
  delete_key_share m = forget (user_of m) m

  unfoldable pub rotate_key_share : ClientKeyShare → Steps KeyManager (Unit {0})
  rotate_key_share new_key_share = do
    user ← current_user
    existing ← get_key_share
    existing_share ← call (or_throw existing "No existing key share to rotate")
    call (
        throw_if (not (existing_share.party_id == new_key_share.party_id))
          "Party ID mismatch during rotation")
    store_key_share new_key_share

  unfoldable pub clear : Steps KeyManager (Unit {0})
  clear = do
    writing storage.clear_all
    update (λ m. record {
      store = m.store;
      current_user_id = none;
      cached_key_share = none;
      cached_party_shares = none;
    })
