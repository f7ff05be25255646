-- ===== src/Client/Keys/Laws.antt =====
-- Rotation of a share, and what a change of user leaves in the cache
-- (src/core/client-key-manager.ts), over any storage.
use nero_mpc_sdk.Base.{◌==◌, ==_iff, ◌≡◌, refl, sym, ap, ◌∙◌, Bool, true, false, not, Option, some}
use nero_mpc_sdk.Base.Throws.{Throws, ok, throw, or_throw, throw_if, or_throw-eq-ok, throw_if-eq-ok}
use nero_mpc_sdk.Base.Steps.{continue, update, continue-returns}
use nero_mpc_sdk.Hex.{Text}
use nero_mpc_sdk.Client.Keys.{
  ClientKeyShare, PartyShares, Storage, KeyManager, current_user, writing, initialize,
  get_key_share, cached_or_loaded, store_key_share, get_party_public_shares, cached_or_loaded_party,
  store_party_public_shares, rotate_key_share, reading,
}

not-false : (b : Bool) → not b ≡ false → b ≡ true
not-false true h = refl
not-false false h = cc

module _ (storage : Storage) where
  stored_is_cached :
      (share : ClientKeyShare) (m next : KeyManager storage)
      → store_key_share storage share m ≡ (next, ok tt)
      → next.cached_key_share ≡ some share
  unfolding store_key_share
  stored_is_cached share m next h =
      let (m1, user, e1, h1) = continue-returns (current_user storage m) _ h in
      let (m2, written, e2, h2) =
        continue-returns (writing storage (storage.store_key_share user share) m1) _ h1 in
      ap (λ t. t.0.cached_key_share) (sym h2)

  parties_are_cached :
      (shares : PartyShares) (m next : KeyManager storage)
      → store_party_public_shares storage shares m ≡ (next, ok tt)
      → next.cached_party_shares ≡ some shares
  unfolding store_party_public_shares
  parties_are_cached shares m next h =
      let (m1, user, e1, h1) = continue-returns (current_user storage m) _ h in
      let (m2, written, e2, h2) =
        continue-returns (writing storage (storage.store_party_public_shares user shares) m1) _
          h1 in
      ap (λ t. t.0.cached_party_shares) (sym h2)

  -- A rotation that succeeds had an existing share of the same party, and from then on the manager
  -- returns the new share.
  pub rotate_key_share-get_key_share :
      (share : ClientKeyShare) (m next : KeyManager storage)
      → rotate_key_share storage share m ≡ (next, ok tt)
      → (old : ClientKeyShare) × (loaded : KeyManager storage) × (get_key_share storage m
          ≡ (loaded, ok (some old)))
        × (old.party_id ≡ share.party_id)
        × (get_key_share storage next ≡ (next, ok (some share)))
  unfolding rotate_key_share current_user
  rotate_key_share-get_key_share share m next h =
      let (m1, user, e1, h1) = continue-returns (current_user storage m) _ h in
      let (m2, existing, e2, h2) = continue-returns (get_key_share storage m1) _ h1 in
      let (m3, old, e3, h3) =
        continue-returns (m2, or_throw existing "No existing key share to rotate") _ h2 in
      let (m4, checked, e4, h4) =
        continue-returns
          (m3, throw_if (not (old.party_id == share.party_id)) "Party ID mismatch during rotation")
          _ h3 in
      (
        old,
        m2,
        ap (get_key_share storage) (same_manager e1)
            ∙ e2
            ∙ ap (λ o. (m2, ok o)) (or_throw-eq-ok _ _ (ap (λ t. t.1) e3)),
        (==_iff old.party_id share.party_id).0
            (not-false _ (throw_if-eq-ok _ _ (ap (λ t. t.1) e4))),
        from_cache next share (stored_is_cached share m4 next h4),
      )
    where
      same_manager :
          {m1 : KeyManager storage} {user : Text} → current_user storage m ≡ (m1, ok user) → m ≡ m1
      same_manager e = ap (λ t. t.0) e

      from_cache :
          (m : KeyManager storage) (share : ClientKeyShare)
          → m.cached_key_share ≡ some share
          → get_key_share storage m ≡ (m, ok (some share))
      from_cache m share e =
          unfold get_key_share in
          ap (λ o. cached_or_loaded storage o m) e ∙ unfold cached_or_loaded in refl

  -- After one user's party shares were stored, the manager returns them also after it was initialized
  -- for any other user, whether or not that succeeded.
  pub initialize-get_party_public_shares :
      (shares : PartyShares) (other : Text) (m next : KeyManager storage)
      → store_party_public_shares storage shares m ≡ (next, ok tt)
      → let after = (initialize storage other next).0 in
        get_party_public_shares storage after ≡ (after, ok (some shares))
  unfolding get_party_public_shares cached_or_loaded_party initialize reading
  initialize-get_party_public_shares shares other m next h =
      let cached : (initialize storage other next).0.cached_party_shares ≡ some shares =
        loaded (storage.get_key_share other next.store) ∙ parties_are_cached shares m next h in
      ap (λ o. cached_or_loaded_party storage o (initialize storage other next).0) cached
    where
      set_cache : KeyManager storage × Throws (Option ClientKeyShare) → KeyManager storage
      set_cache first =
          (continue first
            (λ found. update (λ (n : KeyManager storage). record n { cached_key_share = found }))).0

      loaded :
          (t : Throws (Option ClientKeyShare))
          → (set_cache (record next { current_user_id = some other }, t)).cached_party_shares
            ≡ next.cached_party_shares
      loaded (ok found) = refl
      loaded (throw message) = refl
