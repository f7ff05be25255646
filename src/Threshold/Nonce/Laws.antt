-- ===== src/Threshold/Nonce/Laws.antt =====
-- Honest nonce commitments are accepted, and what an accepted one satisfies
-- (src/protocols/signing/nonce.ts).
use nero_mpc_sdk.Base.{
  ℕ, zero, suc, ◌^◌, ◌<◌, ◌≡◌, refl, arith, ltb, Bool, true, false, ◌&&◌, if◌then◌else◌, some, inl,
}
use nero_mpc_sdk.Base.Throws.{Throws, ok, throw, ◌>>=◌, or_false}
use nero_mpc_sdk.Bigint.{
  pos, ◌+ℤ◌, ◌*ℤ◌, ring_laws, residue, residue-lt, Cong, Cong-trans, Cong-of_eq, Cong-residue,
}
use nero_mpc_sdk.Modular.{mod_twice-eq-residue}
use nero_mpc_sdk.Hex.{scalar_to_hex, all_hex_lower, All-scalar_to_hex, length-scalar_to_hex}
use nero_mpc_sdk.Noble.{Noble, Lawful, order_pos, scale, scale-+ℤ, scale_congr}
use nero_mpc_sdk.Dkls.Ot.Laws.{IsScalar, multiply-base, multiply-multiple}
use nero_mpc_sdk.Dkls.Keygen.Schnorr.{parse-scalar}
use nero_mpc_sdk.Dkg.Commitments.Pedersen.{text_challenge-lt}
use nero_mpc_sdk.Dkg.Commitments.Knowledge.{multiple_text}
use nero_mpc_sdk.Threshold.Nonce.{
  NonceCommitment, hex_scalar_test, compute_nonce_challenge, create_nonce_proof,
  create_nonce_commitment, out_of_range, response_holds, check_responses, check_proof,
  verify_nonce_proof,
}

hex_scalar_test-scalar_to_hex :
    (n : ℕ) → n < 2 ^ 256 → hex_scalar_test (scalar_to_hex (pos n)) ≡ true
unfolding hex_scalar_test
hex_scalar_test-scalar_to_hex n h =
    rw (length-scalar_to_hex n h, all_hex_lower (scalar_to_hex (pos n)) (All-scalar_to_hex n))

module _ (lib : Noble) (laws : Lawful lib) where
  open lib use {Point, base, order, multiply, add, equals, to_hex, from_hex}

  -- The response to a challenge is accepted, unless the challenge is 0.
  response_holds_honest :
      (k x e s : ℕ)
      → IsScalar order s
      → e < order
      → Cong order (pos s) (pos k +ℤ pos e *ℤ pos x)
      → response_holds lib (pos s) (scale lib (pos k) base) (scale lib (pos x) base) (pos e)
        ≡ (if ltb 0 e then ok true else throw "multiply")
  unfolding response_holds
  response_holds_honest k x zero s hs he c = rw (
    multiply-base lib laws s hs,
    laws.multiply_out (scale lib (pos x) base) (pos 0) (inl (omega arith)),
  )
  response_holds_honest k x (suc e) s hs he c =
      rw
        (
          multiply-base lib laws s hs,
          multiply-multiple lib laws (pos x) (suc e) (omega arith),
          ← scale-+ℤ lib laws (pos k) (pos (suc e) *ℤ pos x) base,
          scale_congr lib laws base c,
          (laws.equals_iff (scale lib (pos k +ℤ pos (suc e) *ℤ pos x) base) _).1 refl,
        )
        (ground arith)

  -- Both equations for a common challenge `e`.
  both_hold :
      (commitment : NonceCommitment) (gamma k r1 r2 e s1 s2 : ℕ)
      → compute_nonce_challenge lib commitment.party_id commitment.d commitment.e
          commitment.proof.r1 commitment.proof.r2
        ≡ ok (pos e)
      → IsScalar order s1
      → IsScalar order s2
      → e < order
      → Cong order (pos s1) (pos r1 +ℤ pos e *ℤ pos gamma)
      → Cong order (pos s2) (pos r2 +ℤ pos e *ℤ pos k)
      → check_responses lib commitment
          (scale lib (pos gamma) base)
          (scale lib (pos k) base)
          (scale lib (pos r1) base)
          (scale lib (pos r2) base)
          (pos s1)
          (pos s2)
        ≡ (if ltb 0 e then ok true else throw "multiply")
  unfolding check_responses
  both_hold commitment gamma k r1 r2 e s1 s2 challenge h1 h2 he c1 c2 =
      rw
        (
          challenge,
          response_holds_honest r1 gamma e s1 h1 he c1,
          response_holds_honest r2 k e s2 h2 he c2,
        )
        (chained (ltb 0 e))
    where
      chained :
          (b : Bool)
          → ((if b then ok true else throw "multiply") >>= λ first.
              if first then (if b then ok true else throw "multiply") else ok false)
            ≡ (if b then ok true else throw "multiply")
      chained true = refl
      chained false = refl

  -- The range of the responses.
  ranges :
      (s1 s2 e : ℕ) (check : Throws Bool)
      → s1 < order
      → s2 < order
      → (0 < s1 → 0 < s2 → check ≡ (if ltb 0 e then ok true else throw "multiply"))
      → or_false (
          if out_of_range lib (pos s1)
          then ok false
          else if out_of_range lib (pos s2)
          then ok false
          else check)
        ≡ (ltb 0 s1 && (ltb 0 s2 && ltb 0 e))
  ranges zero s2 e check l1 l2 h = refl
  ranges (suc s1) zero e check l1 l2 h = ground arith
  ranges (suc s1) (suc s2) e check l1 l2 h =
      rw
        (
          in_range (suc s1) (omega arith),
          in_range (suc s2) (omega arith),
          h (omega arith) (omega arith),
        )
        (ground arith)
    where
      in_range : (s : ℕ) → IsScalar order s → out_of_range lib (pos s) ≡ false
      in_range s hs = ground arith

  -- The commitment that a party makes to a nonce `k`, `gamma`, with the drawn `r1` and `r2`, all from 1
  -- up to the order: it is made, and its proof is accepted exactly if neither the challenge nor one of
  -- the two responses is 0.
  pub create_nonce_commitment-verify :
      (r1 r2 k gamma party_id : ℕ)
      → IsScalar order r1
      → IsScalar order r2
      → IsScalar order k
      → IsScalar order gamma
      → (commitment : NonceCommitment) × (e : ℕ) × (create_nonce_commitment lib
            (pos r1)
            (pos r2)
            party_id
            (record { k = pos k; gamma = pos gamma })
          ≡ ok commitment)
        × (compute_nonce_challenge lib party_id commitment.d commitment.e commitment.proof.r1
              commitment.proof.r2
            ≡ ok (pos e))
        × (from_hex commitment.d ≡ some (scale lib (pos gamma) base))
        × (from_hex commitment.e ≡ some (scale lib (pos k) base))
        × (verify_nonce_proof lib commitment ≡ (
            ltb 0 (residue order (pos r1 +ℤ pos gamma *ℤ pos e))
            && (ltb 0 (residue order (pos r2 +ℤ pos k *ℤ pos e)) && ltb 0 e)))
  unfolding create_nonce_commitment create_nonce_proof verify_nonce_proof check_proof
      compute_nonce_challenge
  create_nonce_commitment-verify r1 r2 k gamma party_id h1 h2 hk hg =
      let n_pos = order_pos lib laws in
      let (d, d_written, d_read) = multiple_text lib laws gamma hg in
      let (en, e_written, e_read) = multiple_text lib laws k hk in
      let (r1_text, r1_written, r1_read) = multiple_text lib laws r1 h1 in
      let (r2_text, r2_written, r2_read) = multiple_text lib laws r2 h2 in
      let (e, challenge, e_lt) = text_challenge-lt lib laws _ in
      let s1 = residue order (pos r1 +ℤ pos gamma *ℤ pos e) in
      let s2 = residue order (pos r2 +ℤ pos k *ℤ pos e) in
      let s1_lt : s1 < order = residue-lt order _ n_pos in
      let s2_lt : s2 < order = residue-lt order _ n_pos in
      let commitment : NonceCommitment = record {
        party_id = party_id;
        d = d;
        e = en;
        proof = record {
          r1 = r1_text;
          r2 = r2_text;
          s1 = scalar_to_hex (pos s1);
          s2 = scalar_to_hex (pos s2);
        };
      } in
      (
        commitment,
        e,
        rw (
          multiply-base lib laws gamma hg,
          multiply-base lib laws k hk,
          multiply-base lib laws r1 h1,
          multiply-base lib laws r2 h2,
          d_written,
          e_written,
          r1_written,
          r2_written,
          challenge,
          mod_twice-eq-residue order n_pos (pos r1 +ℤ pos gamma *ℤ pos e),
          mod_twice-eq-residue order n_pos (pos r2 +ℤ pos k *ℤ pos e),
        ),
        challenge,
        d_read,
        e_read,
        rw
            (
              d_read,
              e_read,
              hex_scalar_test-scalar_to_hex s1 (omega (arith, s1_lt, laws.order_size)),
              hex_scalar_test-scalar_to_hex s2 (omega (arith, s2_lt, laws.order_size)),
              r1_read,
              r2_read,
              parse-scalar s1,
              parse-scalar s2,
            )
            (ranges s1 s2 e _ s1_lt s2_lt (λ p1 p2.
              both_hold commitment gamma k r1 r2 e s1 s2 challenge (p1, s1_lt) (p2, s2_lt) e_lt
                (swapped r1 gamma e) (swapped r2 k e))),
      )
    where
      swapped :
          (r x e : ℕ)
          → Cong order (pos (residue order (pos r +ℤ pos x *ℤ pos e))) (pos r +ℤ pos e *ℤ pos x)
      swapped r x e =
          Cong-trans (Cong-residue order _ (order_pos lib laws))
            (Cong-of_eq {b = pos r +ℤ pos e *ℤ pos x} (simp ring_laws))
