-- ===== src/Dkls/Client/Honest.antt =====
-- A key generation with an honest backend leaves a key share that can be loaded
-- (src/protocols/dkls/dkls-client.ts).
use nero_mpc_sdk.Base.{ℕ, ◌≡◌, ◌≢◌, refl, true, false, none, some}
use nero_mpc_sdk.Base.Throws.{Throws, ok, throw}
use nero_mpc_sdk.Base.Steps.{continue, return, finally}
use nero_mpc_sdk.Bigint.{pos, ◌*ℤ◌}
use nero_mpc_sdk.Hex.{
  Text, Bytes, is_empty, hex_to_scalar, hex_to_scalar-scalar_to_hex, scalar_to_hex,
}
use nero_mpc_sdk.Noble.{Noble, Lawful, scale, scalar_nonzero, scale-base_zero, product_nonzero}
use nero_mpc_sdk.Dkls.Ot.Laws.{IsScalar, multiply-base, multiply-multiple}
use nero_mpc_sdk.Dkls.Address.{derive_ethereum_address}
use nero_mpc_sdk.Dkls.Keygen.{
  KeyShare, KeygenCommitment, KeygenPublicShare, SchnorrProof, commit_to_point, keygen_init_client,
  keygen_process_backend_commitment, keygen_generate_reveal, keygen_complete, verify_schnorr_proof,
}
use nero_mpc_sdk.Dkls.Keygen.Schnorr.{schnorr_honest}
use nero_mpc_sdk.Dkls.Keygen.Laws.{
  commit_of_raw, commit_to_point-IsByte, read_back, verify_commitment_self,
}
use nero_mpc_sdk.Dkls.Client.{
  Stored, KeygenApi, KeygenResult, DklsClient, new_dkls_client, take_entry, load_dkls_key_share,
  save_key_share, or_derived, keygen_steps, execute_keygen,
}

-- What `executeKeygen` returns once the address is derived.
module _ (lib : Noble) where
  abbrev pub finished : Text → KeyShare → Throws Text → Throws KeygenResult
  finished answered share (ok derived) = ok (record {
    wallet_address = or_derived lib answered derived;
    joint_public_key = share.joint_public_key;
  })
  finished answered share (throw message) = throw message

  settled :
      (client : DklsClient lib) (answered : Text) (share : KeyShare) (derived : Throws Text)
      → finally
          (λ s.
            continue
              (s, derived)
              (λ address. return (record {
                wallet_address = or_derived lib answered address;
                joint_public_key = share.joint_public_key;
              })))
          (λ c. record c { keygen_state = none })
          client
        ≡ (record client { keygen_state = none }, finished answered share derived)
  settled client answered share (ok derived) = refl
  settled client answered share (throw message) = refl

-- The backend: a commitment to `y * G`, that point with an accepted proof, and an address.
pub record Answers (lib : Noble) (api : KeygenApi) (session answered public_text : Text)
    (hash : Bytes) (proof : SchnorrProof) : Type 0 where
  pub init :
      api.keygen_init ≡ ok (session, record { party_id = 2; commitment = lib.bytes_to_hex hash })
  pub reveal :
      (commitment : KeygenCommitment)
      → api.keygen_commitment session commitment
        ≡ ok (record { party_id = 2; public_share = public_text; proof = proof })
  pub complete : (reveal : KeygenPublicShare) → api.keygen_complete session reveal ≡ ok answered

-- Honest parties with secrets `x` and `y`, a nonce `k` and a session that is not empty: whatever state
-- the client is in, it has afterwards no key generation under way, a client that is made anew over its
-- storage loads a key share whose texts read back as `x` and as the joint key `x * y * G`, and the
-- outcome is that of deriving the address of this joint key.
pub execute_keygen_honest :
    (lib : Noble) (laws : Lawful lib) (keccak_256 : Bytes → Bytes) (x y k : ℕ) (hash : Bytes)
    (public_text : Text) (proof : SchnorrProof) (api : KeygenApi) (session answered : Text)
    (client : DklsClient lib)
    → IsScalar lib.order x
    → IsScalar lib.order y
    → IsScalar lib.order k
    → commit_to_point lib (scale lib (pos y) lib.base) ≡ ok hash
    → lib.to_hex true (scale lib (pos y) lib.base) ≡ some public_text
    → verify_schnorr_proof lib (scale lib (pos y) lib.base) proof ≡ true
    → Answers lib api session answered public_text hash proof
    → is_empty session ≡ false
    → (share : KeyShare) × (after : DklsClient lib) × (execute_keygen lib keccak_256
          (pos x)
          (pos k)
          api
          client
        ≡ (
          after,
          finished lib answered share
              (derive_ethereum_address lib keccak_256 share.joint_public_key),
        ))
      × (after.keygen_state ≡ none)
      × ((load_dkls_key_share lib (new_dkls_client lib after.stored)).1 ≡ some share)
      × (hex_to_scalar share.secret_share ≡ some (pos x))
      × (lib.from_hex share.joint_public_key ≡ some (scale lib (pos x *ℤ pos y) lib.base))
unfolding execute_keygen keygen_steps keygen_init_client keygen_process_backend_commitment
    keygen_generate_reveal keygen_complete save_key_share load_dkls_key_share take_entry
    new_dkls_client
execute_keygen_honest lib laws keccak_256 x y k hash public_text proof api session answered client
      hx hy hk committed written accepted backend filled =
    let x_finite : scale lib (pos x) lib.base ≢ lib.infinity =
      λ e. scalar_nonzero lib laws x hx.0 hx.1 (scale-base_zero lib laws (pos x) e) in
    let y_finite : scale lib (pos y) lib.base ≢ lib.infinity =
      λ e. scalar_nonzero lib laws y hy.0 hy.1 (scale-base_zero lib laws (pos y) e) in
    let xy_finite : scale lib (pos x *ℤ pos y) lib.base ≢ lib.infinity = λ e.
      product_nonzero lib laws x (pos y) hx.0 hx.1 (scalar_nonzero lib laws y hy.0 hy.1)
        (scale-base_zero lib laws (pos x *ℤ pos y) e) in
    let (own, own_written, own_read) =
      laws.to_hex_finite true (scale lib (pos x) lib.base) x_finite in
    let (own_raw, own_bytes, own_from) =
      laws.to_raw_bytes_finite true (scale lib (pos x) lib.base) x_finite in
    let (joint, joint_written, joint_read) =
      laws.to_hex_finite true (scale lib (pos x *ℤ pos y) lib.base) xy_finite in
    let (own_proof, e, s, made, challenge, response, verified) =
      schnorr_honest lib laws k x hk hx in
    let share : KeyShare = record {
      party_id = 1;
      secret_share = scalar_to_hex (pos x);
      public_share = own;
      joint_public_key = joint;
    } in
    (
      share,
      record client {
        keygen_state = none;
        stored = some (Stored.with_session share session);
        key_share = some share;
        dkg_session_id = some session;
      },
      rw
          (
            multiply-base lib laws x hx,
            commit_of_raw lib (scale lib (pos x) lib.base) own_raw own_bytes,
            backend.init,
            laws.hex_to_bytes-bytes_to_hex hash (commit_to_point-IsByte lib laws _ hash committed),
            made,
            own_written,
            backend.reveal _,
            read_back lib laws (scale lib (pos y) lib.base) public_text y_finite written,
            verify_commitment_self lib (scale lib (pos y) lib.base) hash committed,
            accepted,
            multiply-multiple lib laws (pos y) x hx,
            joint_written,
            backend.complete _,
          )
          (settled lib _ answered share (derive_ethereum_address lib keccak_256 joint)),
      refl,
      rw filled,
      hex_to_scalar-scalar_to_hex x,
      joint_read,
    )
