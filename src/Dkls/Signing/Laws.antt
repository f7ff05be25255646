-- ===== src/Dkls/Signing/Laws.antt =====
-- The client's partial signature together with the backend's part.
use Prim.Native.String.{String}
use nero_mpc_sdk.Base.{ℕ, ◌^◌, ◌<◌, ◌≡◌, ◌≢◌, refl, ap, arith, some}
use nero_mpc_sdk.Base.Throws.{Throws, ok, ◌>>=◌}
use nero_mpc_sdk.Bigint.{
  ℤ, pos, ◌+ℤ◌, ◌*ℤ◌, ring_laws, residue, residue-lt, residue_congr, Cong, Cong-trans, Cong-of_eq,
  Cong-+ℤ, Cong-*ℤ, Cong-residue, Cong-of_residue,
}
use nero_mpc_sdk.Modular.{
  mod_once-eq-residue, mod_inverse_once, mod_inverse_once-eq, mod_inverse-Cong,
}
use nero_mpc_sdk.Hex.{scalar_to_hex}
use nero_mpc_sdk.Noble.{Noble, Lawful, order_pos}
use nero_mpc_sdk.Dkls.Ot.Laws.{IsScalar}
use nero_mpc_sdk.Dkls.Keygen.Schnorr.{parse-scalar}
use nero_mpc_sdk.Dkls.Batch.Loops.{Draws, IsGood}
use nero_mpc_sdk.Dkls.Mta.{mta_bob_round2, mta_bob_round4}
use nero_mpc_sdk.Dkls.Mta.Messages.{
  deserialize_mta_alice_round1, serialize_mta_bob_round2, deserialize_mta_alice_round3, conversion,
}
use nero_mpc_sdk.Dkls.Signing.{
  SigningClientState, PartialSignature, MtaDraw, init_mta_for_signing, process_mta_round2_response,
  compute_client_partial_signature, present,
}

combine_shares :
    {n : ℕ} (m r s1 y1 s2 y2 c d : ℤ)
    → Cong n (s1 +ℤ y1) c
    → Cong n (s2 +ℤ y2) d
    → Cong n ((m *ℤ s1 +ℤ r *ℤ s2) +ℤ (m *ℤ y1 +ℤ r *ℤ y2)) (m *ℤ c +ℤ r *ℤ d)
combine_shares m r s1 y1 s2 y2 c d h1 h2 =
    Cong-trans (Cong-of_eq {b = m *ℤ (s1 +ℤ y1) +ℤ r *ℤ (s2 +ℤ y2)} (simp ring_laws))
      (Cong-+ℤ (Cong-*ℤ (Cong-of_eq refl) h1) (Cong-*ℤ (Cong-of_eq refl) h2))

clear_nonces :
    {n : ℕ} (m r i k_a k_b u v x_a x_b : ℤ)
    → Cong n (i *ℤ k_a) (pos 1)
    → Cong n (u *ℤ k_b) (pos 1)
    → Cong n (v *ℤ k_b) x_b
    → Cong n ((m *ℤ (i *ℤ u) +ℤ r *ℤ ((x_a *ℤ i) *ℤ v)) *ℤ (k_a *ℤ k_b)) (m +ℤ r *ℤ (x_a *ℤ x_b))
clear_nonces m r i k_a k_b u v x_a x_b h_i h_u h_v =
    Cong-trans
      (Cong-of_eq {b = m *ℤ ((i *ℤ k_a) *ℤ (u *ℤ k_b)) +ℤ r *ℤ (x_a *ℤ ((i *ℤ k_a) *ℤ (v *ℤ k_b)))}
        (simp ring_laws))
      (Cong-trans
        (Cong-+ℤ (Cong-*ℤ (Cong-of_eq refl) (Cong-*ℤ h_i h_u))
          (Cong-*ℤ (Cong-of_eq refl) (Cong-*ℤ (Cong-of_eq refl) (Cong-*ℤ h_i h_v))))
        (Cong-of_eq (simp ring_laws)))

abbrev pub mta_draw : String → Draws → MtaDraw
mta_draw session_id draws = record {
  session_id = session_id;
  draw_a = λ i. pos (draws.sender_key i);
  draw_t = λ i. pos (draws.random_t i);
}

-- The client's three steps against a backend that follows the protocol with the multipliers `u` and
-- `v`; the result is the client's partial signature and the backend's two shares.
abbrev pub signing_exchange :
    (lib : Noble)
    → Draws
    → Draws
    → String
    → String
    → SigningClientState lib
    → ℤ
    → ℤ
    → Throws (PartialSignature × ℤ × ℤ)
signing_exchange lib draws1 draws2 id1 id2 state u v = do
  (mta_state, setup1, setup2) ←
      init_mta_for_signing lib (mta_draw id1 draws1) (mta_draw id2 draws2) state
  message1 ← deserialize_mta_alice_round1 lib setup1
  message2 ← deserialize_mta_alice_round1 lib setup2
  (bob1, answer1) ← mta_bob_round2 lib (λ i. pos (draws1.receiver_key i)) u message1
  (bob2, answer2) ← mta_bob_round2 lib (λ i. pos (draws2.receiver_key i)) v message2
  response1 ← serialize_mta_bob_round2 lib answer1
  response2 ← serialize_mta_bob_round2 lib answer2
  (mta_done, encrypted1, encrypted2) ← process_mta_round2_response lib mta_state response1 response2
  last1 ← deserialize_mta_alice_round3 lib encrypted1
  last2 ← deserialize_mta_alice_round3 lib encrypted2
  result1 ← mta_bob_round4 lib bob1 last1
  result2 ← mta_bob_round4 lib bob2 last2
  partial ← compute_client_partial_signature lib state mta_done
  ok (partial, result1.share, result2.share)

present-nonzero : (r : ℕ) → r ≢ 0 → present (some (pos r)) ≡ some (pos r)
unfolding present
present-nonzero r ne = ground arith

-- A client with key share `x_a`, nonce `k_a`, message `m` and a nonzero `r`, against a backend that
-- enters the inverse `u` of its nonce `k_b` and the quotient `v` of its key share `x_b` by `k_b`,
-- with good draws on both sides: no step throws, the partial signature is the 64-digit text of a
-- number `s_a` below the order, and with the backend's part it makes an ECDSA signature of the joint
-- key: `(s_a + m * y1 + r * y2) * (k_a * k_b)` is `m + r * (x_a * x_b)` up to the order.
pub signing_exchange_completes :
    (lib : Noble) (laws : Lawful lib) (draws1 draws2 : Draws) (id1 id2 : String)
    (state : SigningClientState lib) (k_a k_b x_a x_b r u v : ℕ) (m : ℤ)
    → IsScalar lib.order k_a
    → state.nonce_share ≡ pos k_a
    → state.key_share.secret_share ≡ scalar_to_hex (pos x_a)
    → state.message_hash ≡ m
    → state.r_value ≡ some (pos r)
    → r ≢ 0
    → residue lib.order (pos u *ℤ pos k_b) ≡ residue lib.order (pos 1)
    → residue lib.order (pos v *ℤ pos k_b) ≡ residue lib.order (pos x_b)
    → IsGood lib.order draws1 u
    → IsGood lib.order draws2 v
    → u < 2 ^ 256
    → v < 2 ^ 256
    → (s_a : ℕ) × (y1 : ℕ) × (y2 : ℕ) × (signing_exchange lib draws1 draws2 id1 id2 state
          (pos u)
          (pos v)
        ≡ ok (record { party_id = state.party_id; s = scalar_to_hex (pos s_a) }, pos y1, pos y2))
      × (s_a < lib.order)
      × (residue lib.order ((pos s_a +ℤ (m *ℤ pos y1 +ℤ pos r *ℤ pos y2)) *ℤ (pos k_a *ℤ pos k_b))
          ≡ residue lib.order (m +ℤ pos r *ℤ (pos x_a *ℤ pos x_b)))
unfolding init_mta_for_signing process_mta_round2_response compute_client_partial_signature
signing_exchange_completes lib laws draws1 draws2 id1 id2 state k_a k_b x_a x_b r u v m ka_scalar
      nonce secret message r_eq r_ne u_inverse v_quotient good1 good2 fits1 fits2 =
    let n = lib.order in
    let n_pos = order_pos lib laws in
    let i = mod_inverse_once (pos k_a) (pos n) in
    let w = residue n (pos x_a *ℤ i) in
    let c1 = conversion lib laws draws1 id1 i u good1 fits1 in
    let c2 = conversion lib laws draws2 id2 (pos w) v good2 fits2 in
    let sum = m *ℤ pos c1.alice_share +ℤ pos r *ℤ pos c2.alice_share in
    let inverse : Cong n (i *ℤ pos k_a) (pos 1) =
      Cong-trans (Cong-of_eq (ap (λ t. t *ℤ pos k_a) (mod_inverse_once-eq n (pos k_a) n_pos)))
        (mod_inverse-Cong n k_a laws.order_prime ka_scalar.0 ka_scalar.1) in
    (
      residue n sum,
      c1.bob_share,
      c2.bob_share,
      rw (
        secret,
        parse-scalar x_a,
        nonce,
        mod_once-eq-residue n n_pos (pos x_a *ℤ i),
        c1.round1,
        c2.round1,
        c1.written1,
        c2.written1,
        c1.read1,
        c2.read1,
        c1.round2,
        c2.round2,
        c1.written2,
        c2.written2,
        c1.read2,
        c1.round3,
        c2.read2,
        c2.round3,
        c1.read3,
        c2.read3,
        c1.round4,
        c2.round4,
        r_eq,
        present-nonzero r r_ne,
        message,
        mod_once-eq-residue n n_pos sum,
      ),
      residue-lt n sum n_pos,
      residue_congr n_pos (
          Cong-trans
            (Cong-*ℤ
              (Cong-trans (Cong-+ℤ (Cong-residue n sum n_pos) (Cong-of_eq refl)) (
                combine_shares m (pos r) _ _ _ _ (i *ℤ pos u) ((pos x_a *ℤ i) *ℤ pos v) c1.product (
                  Cong-trans c2.product
                    (Cong-*ℤ (Cong-residue n (pos x_a *ℤ i) n_pos) (Cong-of_eq refl)))))
              (Cong-of_eq refl))
            (clear_nonces m (pos r) i (pos k_a) (pos k_b) (pos u) (pos v) (pos x_a) (pos x_b)
              inverse (Cong-of_residue n_pos u_inverse) (Cong-of_residue n_pos v_quotient))),
    )
