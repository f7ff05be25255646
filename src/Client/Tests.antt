-- ===== src/Client/Tests.antt =====
-- A connection's life, and a storage with one slot for each kind of share.
use nero_mpc_sdk.Base.{ℕ, ◌≡◌, refl, true, [], ◌∷◌, List, Option, none, some}
use nero_mpc_sdk.Base.Throws.{ok}
use nero_mpc_sdk.Client.Connection.{
  ConnectionStatus, disconnected, connecting, connected, errored, run, transition, requested,
  transition_lem, Edge, connected_after_connecting,
}
use nero_mpc_sdk.Client.Keys.{
  ClientKeyShare, PartyShares, Storage, KeyManager, initialize, get_key_share, store_key_share,
  get_party_public_shares, store_party_public_shares, delete_key_share, rotate_key_share,
}
use nero_mpc_sdk.Client.Keys.Laws.{
  rotate_key_share-get_key_share, initialize-get_party_public_shares,
}

abbrev requests : List ConnectionStatus
requests = connected ∷ connecting ∷ errored ∷ connecting ∷ connected ∷ []

reaches : run disconnected requests ≡ connected
unfolding run transition nero_mpc_sdk.Client.Connection.includes
    nero_mpc_sdk.Client.Connection.valid_transitions nero_mpc_sdk.Client.Connection.same_status
reaches = refl

connected_after_connecting_example : requested connecting requests ≡ true
connected_after_connecting_example = connected_after_connecting requests reaches

abbrev slots : Storage
slots = record {
  Store = Option ClientKeyShare × Option PartyShares;
  has_key_share = λ user store. ok true;
  get_key_share = λ user store. ok store.0;
  store_key_share = λ user share store. ok (some share, store.1);
  delete_key_share = λ user store. ok (none, store.1);
  get_party_public_shares = λ user store. ok store.1;
  store_party_public_shares = λ user shares store. ok (store.0, some shares);
  clear_all = λ store. ok (none, none);
}

abbrev share : ℕ → ClientKeyShare
share threshold = record {
  party_id = 1;
  private_share = "aa";
  public_share = "bb";
  commitment = "cc";
  threshold = threshold;
  total_parties = 2;
  protocol_version = "pedersen-dkg-v1";
}

-- User 7, with share 2 at hand.
abbrev manager : KeyManager slots
manager = record {
  store = (some (share 2), none);
  current_user_id = some (7 ∷ []);
  cached_key_share = some (share 2);
  cached_party_shares = none;
}

abbrev rotated_manager : KeyManager slots
rotated_manager = record manager {
  store = (some (share 3), none);
  cached_key_share = some (share 3);
}

rotation : rotate_key_share slots (share 3) manager ≡ (rotated_manager, ok tt)
unfolding rotate_key_share nero_mpc_sdk.Client.Keys.user_of get_key_share
    nero_mpc_sdk.Client.Keys.cached_or_loaded store_key_share nero_mpc_sdk.Client.Keys.current_user
    nero_mpc_sdk.Client.Keys.writing nero_mpc_sdk.Client.Keys.kept_or
rotation = refl

rotate_key_share-get_key_share_example :
    (old : ClientKeyShare) × (loaded : KeyManager slots) × (get_key_share slots manager
      ≡ (loaded, ok (some old)))
    × (old.party_id ≡ 1)
    × (get_key_share slots rotated_manager ≡ (rotated_manager, ok (some (share 3))))
rotate_key_share-get_key_share_example =
    rotate_key_share-get_key_share slots (share 3) manager rotated_manager rotation

abbrev with_parties : KeyManager slots
with_parties = record manager {
  store = (some (share 2), some ((1, "bb") ∷ []));
  cached_party_shares = some ((1, "bb") ∷ []);
}

parties_stored : store_party_public_shares slots ((1, "bb") ∷ []) manager ≡ (with_parties, ok tt)
unfolding store_party_public_shares nero_mpc_sdk.Client.Keys.user_of
    nero_mpc_sdk.Client.Keys.current_user nero_mpc_sdk.Client.Keys.writing
    nero_mpc_sdk.Client.Keys.kept_or
parties_stored = refl

initialize-get_party_public_shares_example :
    let after = (initialize slots (8 ∷ []) with_parties).0 in
    get_party_public_shares slots after ≡ (after, ok (some ((1, "bb") ∷ [])))
initialize-get_party_public_shares_example =
    initialize-get_party_public_shares slots ((1, "bb") ∷ []) (8 ∷ []) manager with_parties
      parties_stored
