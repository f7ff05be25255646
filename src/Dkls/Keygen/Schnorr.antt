-- ===== src/Dkls/Keygen/Schnorr.antt =====
-- Honest Schnorr proofs are accepted, and accepted proofs satisfy the group equation.
use nero_mpc_sdk.Base.{
  ℕ, zero, suc, ◌<◌, ◌≡◌, refl, ap, ◌∙◌, arith, ltb, ==_iff, Bool, true, false, ◌&&◌, if◌then◌else◌,
  ◌++◌, some, inl,
}
use nero_mpc_sdk.Base.Throws.{ok, throw, or_false}
use nero_mpc_sdk.Bigint.{pos, ◌+ℤ◌, ◌*ℤ◌, residue, residue-lt, Cong, Cong-residue}
use nero_mpc_sdk.Modular.{mod_once-eq-residue}
use nero_mpc_sdk.Hex.{
  Text, Bytes, scalar_to_hex, hex_to_scalar, hex_to_scalar-scalar_to_hex, parse_bigint16,
}
use nero_mpc_sdk.Noble.{
  Noble, Lawful, order_pos, scale, scale-+ℤ, scale_congr, scalar_nonzero, scale-base_zero,
  base_finite,
}
use nero_mpc_sdk.Dkls.Challenge.{hash_challenge-lt}
use nero_mpc_sdk.Dkls.Ot.Laws.{IsScalar, multiply-base, multiply-multiple, raw_multiple}
use nero_mpc_sdk.Dkls.Keygen.{
  SchnorrProof, schnorr_challenge, generate_schnorr_proof, check_equation, check_schnorr_proof,
  verify_schnorr_proof,
}

pub parse-scalar : (n : ℕ) → parse_bigint16 (scalar_to_hex (pos n)) ≡ some (pos n)
parse-scalar n = unfold hex_to_scalar in hex_to_scalar-scalar_to_hex n

module _ (lib : Noble) (laws : Lawful lib) where
  open lib use {base, order, multiply, add, equals, to_hex, from_hex}

  -- Between two multiples of the generator that have an encoding there is always a challenge.
  pub schnorr_challenge-lt :
      (k x : ℕ)
      → IsScalar order k
      → IsScalar order x
      → (e : ℕ) × (schnorr_challenge lib (scale lib (pos k) base) (scale lib (pos x) base)
          ≡ ok (pos e))
        × (e < order)
  unfolding schnorr_challenge
  schnorr_challenge-lt k x hk hx =
      let (raw_k, ek) = raw_multiple lib laws (pos k) (scalar_nonzero lib laws k hk.0 hk.1) in
      let (raw_x, ex) = raw_multiple lib laws (pos x) (scalar_nonzero lib laws x hx.0 hx.1) in
      let (raw_g, eg) = raw_base in
      let (e, he, lt) = hash_challenge-lt lib laws (raw_k ++ (raw_x ++ raw_g)) in
      (e, rw (ek, ex, eg) he, lt)
    where
      raw_base : (b : Bytes) × (lib.to_raw_bytes true base ≡ some b)
      raw_base = let r = laws.to_raw_bytes_finite true base (base_finite lib laws) in (r.0, r.1)

  -- The equation that is checked, for a response and a challenge that `multiply` takes.
  pub check_equation_honest :
      (k x e s : ℕ)
      → IsScalar order x
      → s < order
      → e < order
      → Cong order (pos s) (pos k +ℤ pos e *ℤ pos x)
      → check_equation lib (scale lib (pos k) base) (scale lib (pos x) base) (pos e) (pos s)
        ≡ (if ltb 0 s && ltb 0 e then ok true else throw "multiply")
  unfolding check_equation
  check_equation_honest k x e zero hx hs he c =
      rw (laws.multiply_out base (pos 0) (inl (omega arith)))
  check_equation_honest k x zero (suc s) hx hs he c =
      rw
        (
          multiply-base lib laws (suc s) (omega arith),
          laws.multiply_out (scale lib (pos x) base) (pos 0) (inl (omega arith)),
        )
        (ground arith)
  check_equation_honest k x (suc e) (suc s) hx hs he c =
      rw
        (
          multiply-base lib laws (suc s) (omega arith),
          multiply-multiple lib laws (pos x) (suc e) (omega arith),
          ← scale-+ℤ lib laws (pos k) (pos (suc e) *ℤ pos x) base,
          scale_congr lib laws base c,
          (laws.equals_iff (scale lib (pos k +ℤ pos (suc e) *ℤ pos x) base) _).1 refl,
        )
        (ground arith)

  check_honest :
      (k x e s : ℕ) (text : Text)
      → from_hex text ≡ some (scale lib (pos k) base)
      → schnorr_challenge lib (scale lib (pos k) base) (scale lib (pos x) base) ≡ ok (pos e)
      → IsScalar order x
      → s < order
      → e < order
      → Cong order (pos s) (pos k +ℤ pos e *ℤ pos x)
      → check_schnorr_proof lib (scale lib (pos x) base) (record {
        commitment = text;
        challenge = scalar_to_hex (pos e);
        response = scalar_to_hex (pos s);
      })
        ≡ (if ltb 0 s && ltb 0 e then ok true else throw "multiply")
  unfolding check_schnorr_proof
  check_honest k x e s text read challenge hx hs he c =
      rw (read, parse-scalar e, parse-scalar s, challenge, (==_iff e e).1 refl)
        (check_equation_honest k x e s hx hs he c)

  -- The proof that `generateSchnorrProof` makes with nonce `k` for the key `x * G` is accepted by
  -- `verifySchnorrProof` exactly if neither its challenge nor its response is 0 (`multiply` throws
  -- at 0, and the `catch` answers `false`); it is always made.
  pub schnorr_honest :
      (k x : ℕ)
      → IsScalar order k
      → IsScalar order x
      → (proof : SchnorrProof) × (e : ℕ) × (s : ℕ) × (generate_schnorr_proof lib
            (pos k)
            (pos x)
            (scale lib (pos x) base)
          ≡ ok proof)
        × (schnorr_challenge lib (scale lib (pos k) base) (scale lib (pos x) base) ≡ ok (pos e))
        × (s ≡ residue order (pos k +ℤ pos e *ℤ pos x))
        × (verify_schnorr_proof lib (scale lib (pos x) base) proof ≡ (ltb 0 s && ltb 0 e))
  unfolding generate_schnorr_proof verify_schnorr_proof
  schnorr_honest k x hk hx =
      let n_pos = order_pos lib laws in
      let (e, challenge, e_lt) = schnorr_challenge-lt k x hk hx in
      let s = residue order (pos k +ℤ pos e *ℤ pos x) in
      let (text, written, read) =
        laws.to_hex_finite true (scale lib (pos k) base)
          (λ z. scalar_nonzero lib laws k hk.0 hk.1 (scale-base_zero lib laws (pos k) z)) in
      (
        record {
          commitment = text;
          challenge = scalar_to_hex (pos e);
          response = scalar_to_hex (pos s);
        },
        e,
        s,
        rw (
          multiply-base lib laws k hk,
          challenge,
          written,
          mod_once-eq-residue order n_pos (pos k +ℤ pos e *ℤ pos x),
        ),
        challenge,
        refl,
        ap or_false (
              check_honest k x e s text read challenge hx (residue-lt order _ n_pos) e_lt
                (Cong-residue order _ n_pos))
            ∙ caught (ltb 0 s && ltb 0 e),
      )
    where
      caught : (b : Bool) → or_false (if b then ok true else throw "multiply") ≡ b
      caught true = refl
      caught false = refl
