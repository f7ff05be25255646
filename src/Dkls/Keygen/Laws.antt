-- ===== src/Dkls/Keygen/Laws.antt =====
-- What a completed key generation guarantees, and that honest parties complete it.
use nero_mpc_sdk.Base.{
  ℕ, ◌≡◌, ◌≢◌, refl, sym, ap, ap₂, ◌∙◌, arith, ◌==◌, ==_iff, Bool, true, false, not, if◌then◌else◌,
  [], ◌∷◌, length, some, inl, inr, Bool-cases, subst, All,
}
use nero_mpc_sdk.Base.Throws.{
  Throws, ok, ◌>>=◌, or_throw, >>=-eq-ok, or_throw-eq-ok, throw_if-eq-ok, throw_if,
}
use nero_mpc_sdk.Bigint.{ℤ, pos, ◌*ℤ◌}
use nero_mpc_sdk.Hex.{Text, Bytes, scalar_to_hex, hex_to_scalar, hex_to_scalar-scalar_to_hex}
use nero_mpc_sdk.Noble.{
  Noble, Lawful, IsByte, scale, scalar_nonzero, scale-base_zero, product_nonzero,
}
use nero_mpc_sdk.Dkls.Ot.Laws.{IsScalar, multiply-base, multiply-multiple}
use nero_mpc_sdk.Dkls.Keygen.{
  KeyShare, KeygenCommitment, KeygenPublicShare, KeygenClientState, SchnorrProof, same_bytes,
  commit_to_point, keygen_init_client, keygen_process_backend_commitment, verify_commitment,
  verify_schnorr_proof, keygen_complete,
}

same_bytes-eq : (a b : Bytes) → same_bytes a b ≡ true → a ≡ b
unfolding same_bytes
same_bytes-eq [] [] h = refl
same_bytes-eq [] (y ∷ b) h = cc
same_bytes-eq (x ∷ a) [] h = cc
same_bytes-eq (x ∷ a) (y ∷ b) h = elim (Bool-cases (x == y)) [
  | inl e ↦ ap₂ ◌∷◌ ((==_iff x y).0 e) (same_bytes-eq a b (ground arith))
  | inr e ↦ absurd (ground arith)
]

same_bytes_self : (a : Bytes) → same_bytes a a ≡ true
unfolding same_bytes
same_bytes_self [] = refl
same_bytes_self (x ∷ a) = rw ((==_iff x x).1 refl) (same_bytes_self a)

compare_bytes :
    (a b : Bytes) → (if length a == length b then same_bytes a b else false) ≡ true → a ≡ b
compare_bytes a b h = elim (Bool-cases (length a == length b)) [
  | inl e ↦ same_bytes-eq a b (ground arith)
  | inr e ↦ absurd (ground arith)
]

pub not-eq-false : (b : Bool) → not b ≡ false → b ≡ true
not-eq-false true h = refl
not-eq-false false h = cc

-- The client's side of key generation, against the backend's two messages.
abbrev pub keygen_run : (lib : Noble) → ℤ → KeygenCommitment → KeygenPublicShare → Throws KeyShare
keygen_run lib secret backend_commitment backend_public_share = do
  (initial, own) ← keygen_init_client lib secret
  committed ← keygen_process_backend_commitment lib initial backend_commitment
  keygen_complete lib committed backend_public_share

module _ (lib : Noble) where
  open lib use {Point, multiply, to_hex, from_hex}

  pub verify_commitment-eq :
      (commitment : Bytes) (point : Point)
      → verify_commitment lib commitment point ≡ ok true
      → commit_to_point lib point ≡ ok commitment
  unfolding verify_commitment
  verify_commitment-eq commitment point h =
      let (expected, e, same) = >>=-eq-ok (commit_to_point lib point) _ h in
      e ∙ ap ok (compare_bytes expected commitment (ok_of same))
    where
      ok_of : {a b : Bool} → ok a ≡ ok b → a ≡ b
      ok_of e = cc

  -- What the checks of `keygenComplete` establish about the peer and the key.
  pub record Completed (state : KeygenClientState lib) (backend : KeygenPublicShare)
      (share : KeyShare) : Type 0 where
    pub peer : Point
    pub commitment : Bytes
    pub joint : Point
    pub received : state.peer_commitment ≡ some commitment
    pub parsed : from_hex backend.public_share ≡ some peer
    pub committed : commit_to_point lib peer ≡ ok commitment
    pub proved : verify_schnorr_proof lib peer backend.proof ≡ true
    pub multiplied : multiply peer state.secret_share ≡ some joint
    pub written : to_hex true joint ≡ some share.joint_public_key

  -- If `keygenComplete` returns a key share, then a commitment had been received, the peer's point
  -- hashes to it, its Schnorr proof was accepted, and the joint key is that point times the secret.
  pub keygen_complete-Completed :
      (state : KeygenClientState lib) (backend : KeygenPublicShare) (share : KeyShare)
      → keygen_complete lib state backend ≡ ok share
      → Completed state backend share
  unfolding keygen_complete
  keygen_complete-Completed state backend share h =
      let (commitment, e1, h1) =
        >>=-eq-ok (or_throw state.peer_commitment "Missing peer commitment") _ h in
      let (peer, e2, h2) = >>=-eq-ok (or_throw (from_hex backend.public_share) "fromHex") _ h1 in
      let (matches, e3, h3) = >>=-eq-ok (verify_commitment lib commitment peer) _ h2 in
      let (u, e4, h4) =
        >>=-eq-ok (throw_if (not matches) "Backend public share does not match commitment") _ h3 in
      let (v, e5, h5) =
        >>=-eq-ok
          (throw_if (not (verify_schnorr_proof lib peer backend.proof))
            "Invalid Schnorr proof from backend")
          _ h4 in
      let (joint, e6, h6) =
        >>=-eq-ok (or_throw (multiply peer state.secret_share) "multiply") _ h5 in
      let (own, e7, h7) = >>=-eq-ok (or_throw (to_hex true state.public_share) "toHex") _ h6 in
      let (text, e8, h8) = >>=-eq-ok (or_throw (to_hex true joint) "toHex") _ h7 in
      record {
        peer = peer;
        commitment = commitment;
        joint = joint;
        received = or_throw-eq-ok _ _ e1;
        parsed = or_throw-eq-ok _ _ e2;
        committed =
            verify_commitment-eq commitment peer
              (e3 ∙ ap ok (not-eq-false matches (throw_if-eq-ok _ _ e4)));
        proved = not-eq-false _ (throw_if-eq-ok _ _ e5);
        multiplied = or_throw-eq-ok _ _ e6;
        written = or_throw-eq-ok _ _ e8 ∙ ap some (joint_of h8);
      }
    where
      joint_of : {a b : KeyShare} → ok a ≡ ok b → a.joint_public_key ≡ b.joint_public_key
      joint_of e = cc

module _ (lib : Noble) where
  pub commit_of_raw :
      (p : lib.Point) (raw : Bytes)
      → lib.to_raw_bytes true p ≡ some raw
      → commit_to_point lib p ≡ ok (lib.sha256 raw)
  unfolding commit_to_point
  commit_of_raw p raw e = rw e

  pub verify_commitment_self :
      (p : lib.Point) (hash : Bytes)
      → commit_to_point lib p ≡ ok hash
      → verify_commitment lib hash p ≡ ok true
  unfolding verify_commitment
  verify_commitment_self p hash e =
      rw (e, (==_iff (length hash) (length hash)).1 refl, same_bytes_self hash)

  pub commit_to_point-IsByte :
      Lawful lib
      → (p : lib.Point) (hash : Bytes) → commit_to_point lib p ≡ ok hash
      → All IsByte hash
  unfolding commit_to_point
  commit_to_point-IsByte laws p hash e =
      let (raw, e1, e2) = >>=-eq-ok (or_throw (lib.to_raw_bytes true p) "toRawBytes") _ e in
      subst (All IsByte) (ok_of e2) (laws.All-sha256 raw)
    where
      ok_of : {a b : Bytes} → ok a ≡ ok b → a ≡ b
      ok_of e = cc

  pub read_back :
      Lawful lib
      → (p : lib.Point) (text : Text) → p ≢ lib.infinity
      → lib.to_hex true p ≡ some text
      → lib.from_hex text ≡ some p
  read_back laws p text finite e =
      let (t, written, read) = laws.to_hex_finite true p finite in
      subst (λ s. lib.from_hex s ≡ some p) (some_of (sym written ∙ e)) read
    where
      some_of : {a b : Text} → some a ≡ some b → a ≡ b
      some_of e = cc

-- Two honest parties with secrets `x` and `y`: whatever accepted proof the backend sends with the
-- point `y * G` that it committed to, the client's run from `keygenInitClient` to `keygenComplete`
-- returns a key share of party 1 whose texts read back as `x`, `x * G` and the joint key `x * y * G`.
pub keygen_honest :
    (lib : Noble) (laws : Lawful lib) (x y : ℕ) (hash : Bytes) (public_text : Text)
    (proof : SchnorrProof)
    → IsScalar lib.order x
    → IsScalar lib.order y
    → commit_to_point lib (scale lib (pos y) lib.base) ≡ ok hash
    → lib.to_hex true (scale lib (pos y) lib.base) ≡ some public_text
    → verify_schnorr_proof lib (scale lib (pos y) lib.base) proof ≡ true
    → (share : KeyShare) × (keygen_run lib
          (pos x)
          (record { party_id = 2; commitment = lib.bytes_to_hex hash })
          (record { party_id = 2; public_share = public_text; proof = proof })
        ≡ ok share)
      × (share.party_id ≡ 1)
      × (hex_to_scalar share.secret_share ≡ some (pos x))
      × (lib.from_hex share.public_share ≡ some (scale lib (pos x) lib.base))
      × (lib.from_hex share.joint_public_key ≡ some (scale lib (pos x *ℤ pos y) lib.base))
unfolding keygen_init_client keygen_process_backend_commitment keygen_complete
keygen_honest lib laws x y hash public_text proof hx hy committed written accepted =
    let x_finite : scale lib (pos x) lib.base ≢ lib.infinity =
      λ e. scalar_nonzero lib laws x hx.0 hx.1 (scale-base_zero lib laws (pos x) e) in
    let y_finite : scale lib (pos y) lib.base ≢ lib.infinity =
      λ e. scalar_nonzero lib laws y hy.0 hy.1 (scale-base_zero lib laws (pos y) e) in
    let xy_finite : scale lib (pos x *ℤ pos y) lib.base ≢ lib.infinity = λ e.
      product_nonzero lib laws x (pos y) hx.0 hx.1 (scalar_nonzero lib laws y hy.0 hy.1)
        (scale-base_zero lib laws (pos x *ℤ pos y) e) in
    let (own, own_written, own_read) =
      laws.to_hex_finite true (scale lib (pos x) lib.base) x_finite in
    let (own_raw, own_bytes, _) =
      laws.to_raw_bytes_finite true (scale lib (pos x) lib.base) x_finite in
    let (joint, joint_written, joint_read) =
      laws.to_hex_finite true (scale lib (pos x *ℤ pos y) lib.base) xy_finite in
    (
      record {
        party_id = 1;
        secret_share = scalar_to_hex (pos x);
        public_share = own;
        joint_public_key = joint;
      },
      rw (
        multiply-base lib laws x hx,
        commit_of_raw lib (scale lib (pos x) lib.base) own_raw own_bytes,
        laws.hex_to_bytes-bytes_to_hex hash (commit_to_point-IsByte lib laws _ hash committed),
        read_back lib laws (scale lib (pos y) lib.base) public_text y_finite written,
        verify_commitment_self lib (scale lib (pos y) lib.base) hash committed,
        accepted,
        multiply-multiple lib laws (pos y) x hx,
        own_written,
        joint_written,
      ),
      refl,
      hex_to_scalar-scalar_to_hex x,
      own_read,
      joint_read,
    )
