-- ===== src/Threshold/Verify.antt =====
-- The check of a partial signature (src/protocols/signing/partial-signature.ts).
use nero_mpc_sdk.Base.{
  ℕ, zero, suc, ◌<◌, ◌≡◌, refl, ◌∙◌, arith, ◌==◌, Bool, true, false, not, ◌&&◌, ◌||◌, if◌then◌else◌,
  List, [], ◌∷◌, Option, none, some, inl,
}
use nero_mpc_sdk.Base.Throws.{Throws, ok, throw, ◌>>=◌, or_throw}
use nero_mpc_sdk.Bigint.{
  ℤ, pos, ◌+ℤ◌, ◌*ℤ◌, leb_ℤ, ring_laws, residue, residue-lt, Cong, Cong-trans, Cong-symm,
  Cong-of_eq, Cong-+ℤ, Cong-*ℤ, Cong-residue,
}
use nero_mpc_sdk.Modular.{mod_twice, mod_twice-eq-residue, mod_inverse, mod_inverse-Cong}
use nero_mpc_sdk.Hex.{Text, same_text, same_text_self, is_empty}
use nero_mpc_sdk.Noble.{Noble, Lawful, order_pos, scale, scale-+ℤ, scale_congr}
use nero_mpc_sdk.Dkls.Ot.Laws.{IsScalar, multiply-base, multiply-multiple}
use nero_mpc_sdk.Dkg.Commitments.Knowledge.{multiple_text}
use nero_mpc_sdk.Threshold.{
  PartialSignatureData, compute_lagrange_coefficient, compute_partial_signature,
}

-- `expected && actual !== expected`.
unfoldable pub mismatch : Text → Text → Bool
mismatch expected actual = not (is_empty expected) && not (same_text actual expected)

module _ (lib : Noble) where
  open lib use {Point, base, order, multiply, add, equals, from_hex}

  -- The last part, from the points of the nonce and of the share on; `fromHex` that throws is
  -- caught and gives `false`.
  unfoldable pub check_partial : Option Point → Option Point → ℤ → ℤ → ℤ → ℤ → Throws Bool
  check_partial none p_i lambda sigma r message_hash = ok false
  check_partial (some r_i) none lambda sigma r message_hash = ok false
  check_partial (some r_i) (some p_i) lambda sigma r message_hash = do
    let r_times_lambda = mod_twice (r *ℤ lambda) (pos order)
    left_side ← or_throw (multiply r_i sigma) "multiply"
    message_point ← or_throw (multiply base message_hash) "multiply"
    scaled ← or_throw (multiply p_i r_times_lambda) "multiply"
    ok (equals left_side (add message_point scaled))

  unfoldable pub verify_partial_signature :
      PartialSignatureData → Text → Text → ℤ → ℤ → List ℕ → Throws Bool
  verify_partial_signature partial expected_public_share expected_nonce_commitment r message_hash
        participating_parties =
      let check =
        check_partial (from_hex partial.nonce_commitment) (from_hex partial.public_share)
          (compute_lagrange_coefficient lib partial.party_id participating_parties) partial.sigma r
          message_hash in
      if leb_ℤ partial.sigma (pos 0) || leb_ℤ (pos order) partial.sigma
      then ok false
      else if is_empty partial.public_share || is_empty partial.nonce_commitment
      then ok false
      else if mismatch expected_public_share partial.public_share
      then ok false
      else if mismatch expected_nonce_commitment partial.nonce_commitment
      then ok false
      else check

suc-zero : (n : ℕ) → (suc n == 0) ≡ false
suc-zero n = ground arith

module _ (lib : Noble) (laws : Lawful lib) where
  open lib use {base, order, from_hex}

  -- The two sides of the equation, in the exponent.
  exponents :
      (x k m : ℕ) (r l : ℤ)
      → IsScalar order k
      → Cong order
          (pos (
              residue order (
                mod_inverse (pos k) (pos order)
                *ℤ (pos m +ℤ r *ℤ pos (residue order (pos x *ℤ l)))))
            *ℤ pos k)
          (pos m +ℤ pos (residue order (r *ℤ l)) *ℤ pos x)
  exponents x k m r l hk =
      let n_pos = order_pos lib laws in
      let inverse = mod_inverse (pos k) (pos order) in
      let sum = pos m +ℤ r *ℤ pos (residue order (pos x *ℤ l)) in
      Cong-trans (Cong-*ℤ (Cong-residue order (inverse *ℤ sum) n_pos) (Cong-of_eq refl)) (
        Cong-trans (Cong-of_eq {b = (inverse *ℤ pos k) *ℤ sum} (simp ring_laws)) (
          Cong-trans
            (Cong-*ℤ (mod_inverse-Cong order k laws.order_prime hk.0 hk.1) (Cong-of_eq refl))
            (Cong-trans (Cong-of_eq {b = sum} (simp ring_laws)) (
              Cong-trans
                (Cong-+ℤ (Cong-of_eq refl)
                  (Cong-*ℤ (Cong-of_eq refl) (Cong-residue order (pos x *ℤ l) n_pos)))
                (Cong-trans (Cong-of_eq {b = pos m +ℤ (r *ℤ l) *ℤ pos x} (simp ring_laws)) (
                  Cong-+ℤ (Cong-of_eq refl) (
                    Cong-*ℤ (Cong-symm (Cong-residue order (r *ℤ l) n_pos)) (Cong-of_eq refl))))))))

  check_honest :
      (x k m sigma w : ℕ) (r l : ℤ)
      → IsScalar order m
      → IsScalar order sigma
      → w < order
      → residue order (r *ℤ l) ≡ w
      → Cong order (pos sigma *ℤ pos k) (pos m +ℤ pos w *ℤ pos x)
      → check_partial lib
          (some (scale lib (pos k) base))
          (some (scale lib (pos x) base))
          l
          (pos sigma)
          r
          (pos m)
        ≡ (if w == 0 then throw "multiply" else ok true)
  unfolding check_partial
  check_honest x k m sigma zero r l hm hs hw ew c = rw (
    mod_twice-eq-residue order (order_pos lib laws) (r *ℤ l),
    ew,
    multiply-multiple lib laws (pos k) sigma hs,
    multiply-base lib laws m hm,
    laws.multiply_out (scale lib (pos x) base) (pos 0) (inl (omega arith)),
  )
  check_honest x k m sigma (suc w) r l hm hs hw ew c = rw (
    mod_twice-eq-residue order (order_pos lib laws) (r *ℤ l),
    ew,
    multiply-multiple lib laws (pos k) sigma hs,
    multiply-base lib laws m hm,
    multiply-multiple lib laws (pos x) (suc w) (omega arith),
    ← scale-+ℤ lib laws (pos m) (pos (suc w) *ℤ pos x) base,
    scale_congr lib laws base c,
    (laws.equals_iff (scale lib (pos m +ℤ pos (suc w) *ℤ pos x) base) _).1 refl,
    suc-zero w,
  )

  texts_differ :
      (text : Text) (p : lib.Point)
      → from_hex [] ≡ none
      → from_hex text ≡ some p
      → is_empty text ≡ false
  unfolding is_empty
  texts_differ [] p e h = cc
  texts_differ (c ∷ text) p e h = refl

  mismatch_self : (text : Text) → mismatch text text ≡ false
  unfolding mismatch is_empty
  mismatch_self [] = refl
  mismatch_self (c ∷ text) = rw (same_text_self (c ∷ text))

  -- The guards that come before the points, for texts that are as expected.
  guards :
      (partial : PartialSignatureData) (r m : ℤ) (parties : List ℕ) (sigma : ℕ)
      → partial.sigma ≡ pos sigma
      → sigma < order
      → is_empty partial.public_share ≡ false
      → is_empty partial.nonce_commitment ≡ false
      → verify_partial_signature lib partial partial.public_share partial.nonce_commitment r m
          parties
        ≡ (if sigma == 0
            then ok false
            else check_partial lib
                (from_hex partial.nonce_commitment)
                (from_hex partial.public_share)
                (compute_lagrange_coefficient lib partial.party_id parties)
                (pos sigma)
                r
                m)
  unfolding verify_partial_signature
  guards partial r m parties sigma es lt e1 e2 =
      rw (es, e1, e2, mismatch_self partial.public_share, mismatch_self partial.nonce_commitment)
        (ground arith)

  -- A share `x`, a nonce `k` and a message hash `m`, all from 1 up to the order, with a library whose
  -- `fromHex` refuses the empty text: a partial signature is computed, and the check with the
  -- signer's own texts answers `false` if its `sigma` is 0, throws in `multiply` if `r` times the
  -- Lagrange coefficient is a multiple of the order, and otherwise answers `true`.
  pub compute_partial_signature-verify :
      (party_id x k m : ℕ) (r : ℤ) (parties : List ℕ)
      → from_hex [] ≡ none
      → IsScalar order x
      → IsScalar order k
      → IsScalar order m
      → (partial : PartialSignatureData) × (sigma : ℕ) × (compute_partial_signature lib party_id
            (pos x)
            (pos k)
            (pos m)
            r
            parties
          ≡ ok partial)
        × (partial.sigma ≡ pos sigma)
        × (verify_partial_signature lib partial partial.public_share partial.nonce_commitment r
              (pos m)
              parties
            ≡ (if sigma == 0
                then ok false
                else if residue order (r *ℤ compute_lagrange_coefficient lib party_id parties) == 0
                then throw "multiply"
                else ok true))
  unfolding compute_partial_signature
  compute_partial_signature-verify party_id x k m r parties refuses hx hk hm =
      let n_pos = order_pos lib laws in
      let l = compute_lagrange_coefficient lib party_id parties in
      let sum = pos m +ℤ r *ℤ pos (residue order (pos x *ℤ l)) in
      let sigma = residue order (mod_inverse (pos k) (pos order) *ℤ sum) in
      let (public_share, public_written, public_read) = multiple_text lib laws x hx in
      let (nonce_commitment, nonce_written, nonce_read) = multiple_text lib laws k hk in
      let partial : PartialSignatureData = record {
        party_id = party_id;
        sigma = pos sigma;
        public_share = public_share;
        nonce_commitment = nonce_commitment;
      } in
      (
        partial,
        sigma,
        rw (
          mod_twice-eq-residue order n_pos (pos x *ℤ l),
          mod_twice-eq-residue order n_pos (mod_inverse (pos k) (pos order) *ℤ sum),
          multiply-base lib laws x hx,
          public_written,
          multiply-base lib laws k hk,
          nonce_written,
        ),
        refl,
        guards partial r (pos m) parties sigma refl (residue-lt order _ n_pos)
              (texts_differ public_share _ refuses public_read)
              (texts_differ nonce_commitment _ refuses nonce_read)
            ∙ rw (nonce_read, public_read)
                (checked sigma (residue-lt order _ n_pos) l (exponents x k m r l hk)),
      )
    where
      checked :
          (sigma : ℕ)
          → sigma < order
          → (l : ℤ)
          → Cong order (pos sigma *ℤ pos k) (pos m +ℤ pos (residue order (r *ℤ l)) *ℤ pos x)
          → (if sigma == 0
              then ok false
              else check_partial lib
                  (some (scale lib (pos k) base))
                  (some (scale lib (pos x) base))
                  l
                  (pos sigma)
                  r
                  (pos m))
            ≡ (if sigma == 0
                then ok false
                else if residue order (r *ℤ l) == 0
                then throw "multiply"
                else ok true)
      checked zero lt l c = refl
      checked (suc sigma) lt l c = rw (suc-zero sigma) (
          check_honest x k m (suc sigma) (residue order (r *ℤ l)) r l hm (omega arith)
            (residue-lt order _ (order_pos lib laws)) refl c)
