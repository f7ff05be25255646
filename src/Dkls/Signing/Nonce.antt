-- ===== src/Dkls/Signing/Nonce.antt =====
-- Agreement on the nonce: what `signingProcessBackendNonce` checks, and an honest run.
use nero_mpc_sdk.Base.{
  ℕ, ◌^◌, ◌<◌, ◌≡◌, ◌≢◌, refl, sym, ap, ◌∙◌, arith, Bool, true, false, not, if◌then◌else◌, ◌==◌,
  ◌&&◌, [], ◌∷◌, some, All,
}
use nero_mpc_sdk.Base.Throws.{
  Throws, ok, ◌>>=◌, or_throw, >>=-eq-ok, or_throw-eq-ok, throw_if-eq-ok, throw_if,
}
use nero_mpc_sdk.Bigint.{ℤ, pos, ◌*ℤ◌, residue}
use nero_mpc_sdk.Modular.{mod_once-eq-residue}
use nero_mpc_sdk.Hex.{
  Text, Bytes, scalar_to_hex, IsLowerHex, hex_char, All-scalar_to_hex, length-scalar_to_hex,
  replace_0x,
}
use nero_mpc_sdk.Noble.{Noble, Lawful, scale, order_pos, scalar_nonzero, scale-base_zero}
use nero_mpc_sdk.Dkls.Ot.Laws.{IsScalar, multiply-base, multiply-multiple}
use nero_mpc_sdk.Dkls.Keygen.{KeyShare, commit_to_point, verify_commitment}
use nero_mpc_sdk.Dkls.Keygen.Schnorr.{parse-scalar}
use nero_mpc_sdk.Dkls.Keygen.Laws.{
  verify_commitment-eq, not-eq-false, commit_of_raw, verify_commitment_self, commit_to_point-IsByte,
  read_back,
}
use nero_mpc_sdk.Dkls.Signing.{
  SigningClientState, NonceReveal, signing_init, signing_store_backend_commitment,
  signing_process_backend_nonce,
}

-- What has been established when the reveal was accepted.
pub record Agreed (lib : Noble) (state : SigningClientState lib) (reveal : NonceReveal)
    (next : SigningClientState lib) : Type 0 where
  pub peer : lib.Point
  pub commitment : Bytes
  pub combined : lib.Point
  pub received : state.peer_nonce_commitment ≡ some commitment
  pub parsed : lib.from_hex reveal.nonce_public ≡ some peer
  pub committed : commit_to_point lib peer ≡ ok commitment
  pub multiplied : lib.multiply peer state.nonce_share ≡ some combined
  pub combined_kept : next.combined_nonce ≡ some combined
  pub r_kept : next.r_value ≡ some (pos (residue lib.order (pos (lib.affine_x combined))))

-- If `signingProcessBackendNonce` accepts a reveal, then a commitment had been stored, the revealed
-- point hashes to it, the combined nonce is that point times the client's nonce, and `rValue` is its
-- x coordinate up to the order.
pub signing_process_backend_nonce-Agreed :
    (lib : Noble) (laws : Lawful lib) (state : SigningClientState lib) (reveal : NonceReveal)
    (next : SigningClientState lib)
    → signing_process_backend_nonce lib state reveal ≡ ok next
    → Agreed lib state reveal next
unfolding signing_process_backend_nonce
signing_process_backend_nonce-Agreed lib laws state reveal next h =
    let (commitment, e1, h1) =
      >>=-eq-ok
        (or_throw state.peer_nonce_commitment
          "Must store backend commitment before processing reveal")
        _ h in
    let (peer, e2, h2) = >>=-eq-ok (or_throw (lib.from_hex reveal.nonce_public) "fromHex") _ h1 in
    let (matches, e3, h3) = >>=-eq-ok (verify_commitment lib commitment peer) _ h2 in
    let (u, e4, h4) =
      >>=-eq-ok (throw_if (not matches) "Backend nonce does not match commitment") _ h3 in
    let (combined, e5, h5) =
      >>=-eq-ok (or_throw (lib.multiply peer state.nonce_share) "multiply") _ h4 in
    record {
      peer = peer;
      commitment = commitment;
      combined = combined;
      received = or_throw-eq-ok _ _ e1;
      parsed = or_throw-eq-ok _ _ e2;
      committed =
          verify_commitment-eq lib commitment peer
            (e3 ∙ ap ok (not-eq-false matches (throw_if-eq-ok _ _ e4)));
      multiplied = or_throw-eq-ok _ _ e5;
      combined_kept = ap (λ s. s.combined_nonce) (sym (state_of h5));
      r_kept =
          ap (λ s. s.r_value) (sym (state_of h5))
          ∙ ap some
              (mod_once-eq-residue lib.order (order_pos lib laws) (pos (lib.affine_x combined)));
    }
  where
    state_of : {a b : SigningClientState lib} → ok a ≡ ok b → a ≡ b
    state_of e = cc

-- `x` is not a digit.
digit_not_x : (d : ℕ) → IsLowerHex d → (d == 120) ≡ false
unfolding hex_char
digit_not_x d (v, lt, e) = ground arith

replace_0x_absent : (s : Text) → All IsLowerHex s → replace_0x s ≡ s
unfolding replace_0x
replace_0x_absent [] h = refl
replace_0x_absent (c ∷ []) h = refl
replace_0x_absent (c ∷ d ∷ s) (hc, h) =
    let e = replace_0x_absent (d ∷ s) h in
    rw (e, digit_not_x d h.0) (ap (λ b. if b then s else c ∷ d ∷ s) (and_false (c == 48)))
  where
    and_false : (b : Bool) → (b && false) ≡ false
    and_false true = refl
    and_false false = refl

-- A text of digits, with and without `0x` in front.
abbrev pub message_text : Bool → ℕ → Text
message_text prefixed m =
    if prefixed then 48 ∷ 120 ∷ scalar_to_hex (pos m) else scalar_to_hex (pos m)

replace_0x-message_text : (p : Bool) (m : ℕ) → replace_0x (message_text p m) ≡ scalar_to_hex (pos m)
unfolding replace_0x
replace_0x-message_text true m = refl
replace_0x-message_text false m = replace_0x_absent _ (All-scalar_to_hex m)

-- The client's steps up to the agreed nonce.
abbrev pub nonce_run :
    (lib : Noble) → ℤ → KeyShare → Text → Text → Text → Throws (SigningClientState lib)
nonce_run lib nonce_share key_share message commitment_text nonce_text = do
  (initial, own) ← signing_init lib nonce_share key_share message
  committed ←
      signing_store_backend_commitment lib initial
        (record { party_id = 2; commitment = commitment_text })
  signing_process_backend_nonce lib committed (record { party_id = 2; nonce_public = nonce_text })

-- For a 32-byte message hash with or without `0x`, a client nonce `k_a` and a backend that commits to
-- and reveals `k_b * G`, the client's run does not throw; the state it ends in holds the key share,
-- the message hash, the nonce, the combined nonce `k_a * k_b * G` and its x coordinate up to the order.
pub nonce_run_completes :
    (lib : Noble) (laws : Lawful lib) (k_a k_b m : ℕ) (prefixed : Bool) (key_share : KeyShare)
    (hash : Bytes) (nonce_text : Text)
    → IsScalar lib.order k_a
    → IsScalar lib.order k_b
    → m < 2 ^ 256
    → commit_to_point lib (scale lib (pos k_b) lib.base) ≡ ok hash
    → lib.to_hex true (scale lib (pos k_b) lib.base) ≡ some nonce_text
    → (state : SigningClientState lib) × (nonce_run lib
          (pos k_a)
          key_share
          (message_text prefixed m)
          (lib.bytes_to_hex hash)
          nonce_text
        ≡ ok state)
      × (state.key_share ≡ key_share)
      × (state.message_hash ≡ pos m)
      × (state.nonce_share ≡ pos k_a)
      × (state.combined_nonce ≡ some (scale lib (pos k_a *ℤ pos k_b) lib.base))
      × (state.r_value
          ≡ some (
              pos
                (residue lib.order (pos (lib.affine_x (scale lib (pos k_a *ℤ pos k_b) lib.base))))))
unfolding signing_init signing_store_backend_commitment signing_process_backend_nonce
nonce_run_completes lib laws k_a k_b m prefixed key_share hash nonce_text ha hb fits committed
      written =
    let finite : (k : ℕ) → IsScalar lib.order k → scale lib (pos k) lib.base ≢ lib.infinity =
      λ k h e. scalar_nonzero lib laws k h.0 h.1 (scale-base_zero lib laws (pos k) e) in
    let (own, own_written, own_read) =
      laws.to_hex_finite true (scale lib (pos k_a) lib.base) (finite k_a ha) in
    let (raw, raw_written, _) =
      laws.to_raw_bytes_finite true (scale lib (pos k_a) lib.base) (finite k_a ha) in
    let (bytes, bytes_read, _, _, _) =
      laws.hex_to_bytes_lower (scalar_to_hex (pos m)) 32 (All-scalar_to_hex m)
        (length-scalar_to_hex m fits) in
    let combined = scale lib (pos k_a *ℤ pos k_b) lib.base in
    (
      record {
        party_id = key_share.party_id;
        key_share = key_share;
        message_hash = pos m;
        message_hash_bytes = bytes;
        nonce_share = pos k_a;
        nonce_public = scale lib (pos k_a) lib.base;
        nonce_commitment = lib.sha256 raw;
        peer_nonce_commitment = some hash;
        peer_nonce_public = some (scale lib (pos k_b) lib.base);
        combined_nonce = some combined;
        r_value = some (pos (residue lib.order (pos (lib.affine_x combined))));
      },
      rw (
        replace_0x-message_text prefixed m,
        bytes_read,
        parse-scalar m,
        multiply-base lib laws k_a ha,
        commit_of_raw lib (scale lib (pos k_a) lib.base) raw raw_written,
        own_written,
        laws.hex_to_bytes-bytes_to_hex hash (commit_to_point-IsByte lib laws _ hash committed),
        read_back lib laws (scale lib (pos k_b) lib.base) nonce_text (finite k_b hb) written,
        verify_commitment_self lib (scale lib (pos k_b) lib.base) hash committed,
        multiply-multiple lib laws (pos k_b) k_a ha,
        mod_once-eq-residue lib.order (order_pos lib laws) (pos (lib.affine_x combined)),
      ),
      refl,
      refl,
      refl,
      refl,
      refl,
    )
