-- ===== src/Dkg/Feldman.antt =====
-- A share is accepted exactly if it is the value of the committed polynomial (src/protocols/dkg/polynomial.ts).
use mathlib.Core.List.{map}
use nero_mpc_sdk.Base.{
  ℕ, ◌<◌, ◌≡◌, ◌≢◌, refl, sym, ap, ◌∙◌, arith, ==_iff, Bool, true, false, ◌==◌, Bool-cases, inl,
  inr, List, [], ◌∷◌, All,
}
use nero_mpc_sdk.Base.Throws.{ok}
use nero_mpc_sdk.Bigint.{
  ℤ, pos, ◌+ℤ◌, ◌*ℤ◌, ring_laws, residue, residue-lt, residue_small, residue_congr, Cong,
  Cong-trans, Cong-symm, Cong-of_eq, Cong-+ℤ, Cong-*ℤ, Cong-residue,
}
use nero_mpc_sdk.Modular.{mod_twice-eq-residue}
use nero_mpc_sdk.Hex.{Text}
use nero_mpc_sdk.Noble.{
  Noble, Lawful, order_pos, scale, scale_congr, scale-+ℤ, scale-base_injective, scale-base_zero,
  scalar_nonzero, product_nonzero,
}
use nero_mpc_sdk.Dkls.Ot.Laws.{IsScalar, multiply-base, multiply-multiple}
use nero_mpc_sdk.Dkg.{
  compute_commitments, verify_share_loop, verify_share_against_commitments, verify_vsss_loop,
  verify_vsss_commitment,
}
use nero_mpc_sdk.Dkg.Evaluate.{horner}

module _ (lib : Noble) (laws : Lawful lib) where
  open lib use {base, order, to_hex, from_hex, add, equals}

  -- The residue of a product of scalars is a scalar.
  pub residue_product-IsScalar :
      (q x : ℕ)
      → IsScalar order q
      → IsScalar order x
      → IsScalar order (residue order (pos q *ℤ pos x))
  residue_product-IsScalar q x hq hx =
      let n_pos = order_pos lib laws in
      (
        positive (residue order (pos q *ℤ pos x)) (λ e.
            product_nonzero lib laws q (pos x) hq.0 hq.1 (scalar_nonzero lib laws x hx.0 hx.1) (
              Cong-trans (Cong-symm (Cong-residue order (pos q *ℤ pos x) n_pos))
                (Cong-of_eq (ap pos e)))),
        residue-lt order _ n_pos,
      )
    where
      positive : (k : ℕ) → k ≢ 0 → 0 < k
      positive k h = omega arith

  next_sum :
      (a : ℤ) (q : ℕ) (x : ℤ) (c rest : ℤ) (w : ℕ)
      → Cong order (pos w) (pos q *ℤ x)
      → Cong order ((a +ℤ pos q *ℤ c) +ℤ pos w *ℤ rest) (a +ℤ pos q *ℤ (c +ℤ x *ℤ rest))
  next_sum a q x c rest w h =
      Cong-trans (Cong-+ℤ (Cong-of_eq refl) (Cong-*ℤ h (Cong-of_eq refl)))
        (Cong-of_eq {b = a +ℤ pos q *ℤ (c +ℤ x *ℤ rest)} (simp ring_laws))

  -- Commitments to scalars are written, and both loops read the polynomial off them in the exponent.
  pub record Committed (cs : List ℕ) (x : ℕ) : Type 0 where
    pub texts : List Text
    pub written : compute_commitments lib (map pos cs) ≡ ok texts
    pub vsss :
        (a : ℤ) (q : ℕ)
        → IsScalar order q
        → verify_vsss_loop lib texts (pos x) (scale lib a base) (pos q)
          ≡ ok (scale lib (a +ℤ pos q *ℤ horner (map pos cs) (pos x)) base)
    pub share :
        (a : ℤ) (q : ℕ)
        → IsScalar order q
        → verify_share_loop lib texts (pos x) (scale lib a base) (pos q)
          ≡ ok (
              scale lib
                (a +ℤ pos (residue order (pos q *ℤ pos x)) *ℤ horner (map pos cs) (pos x))
                base)

  pub committed :
      (cs : List ℕ) (x : ℕ) → All (IsScalar order) cs → IsScalar order x → Committed cs x
  unfolding compute_commitments verify_vsss_loop verify_share_loop horner
  committed [] x h hx = record {
    texts = [];
    written = refl;
    vsss = λ a q hq. ap ok (ap (λ t. scale lib t base) (simp ring_laws));
    share = λ a q hq. ap ok (ap (λ t. scale lib t base) (simp ring_laws));
  }
  committed (c ∷ cs) x (hc, h) hx =
      let n_pos = order_pos lib laws in
      let r = committed cs x h hx in
      let (text, text_written, text_read) =
        laws.to_hex_finite true (scale lib (pos c) base)
          (λ e. scalar_nonzero lib laws c hc.0 hc.1 (scale-base_zero lib laws (pos c) e)) in
      let rest = horner (map pos cs) (pos x) in
      record {
        texts = text ∷ r.texts;
        written = rw (multiply-base lib laws c hc, text_written, r.written);
        vsss = λ a q hq.
            let w = residue order (pos q *ℤ pos x) in
            rw
              (
                text_read,
                multiply-multiple lib laws (pos c) q hq,
                ← scale-+ℤ lib laws a (pos q *ℤ pos c) base,
                mod_twice-eq-residue order n_pos (pos q *ℤ pos x),
                r.vsss (a +ℤ pos q *ℤ pos c) w (residue_product-IsScalar q x hq hx),
              )
              (ap ok (
                scale_congr lib laws base (
                  next_sum a q (pos x) (pos c) rest w
                    (Cong-residue order (pos q *ℤ pos x) n_pos))));
        share = λ a q hq.
            let w = residue order (pos q *ℤ pos x) in
            let w2 = residue order (pos w *ℤ pos x) in
            rw
              (
                mod_twice-eq-residue order n_pos (pos q *ℤ pos x),
                text_read,
                multiply-multiple lib laws (pos c) w (residue_product-IsScalar q x hq hx),
                ← scale-+ℤ lib laws a (pos w *ℤ pos c) base,
                r.share (a +ℤ pos w *ℤ pos c) w (residue_product-IsScalar q x hq hx),
              )
              (ap ok (
                scale_congr lib laws base (
                  next_sum a w (pos x) (pos c) rest w2
                    (Cong-residue order (pos w *ℤ pos x) n_pos))));
      }

  -- Equality of a multiple of the generator with another, decided on residues.
  pub equals_multiples :
      (s : ℕ) (h : ℤ)
      → s < order
      → equals (scale lib (pos s) base) (scale lib h base) ≡ (s == residue order h)
  equals_multiples s h s_lt =
      let n_pos = order_pos lib laws in
      let iff = laws.equals_iff (scale lib (pos s) base) (scale lib h base) in
      elim (Bool-cases (s == residue order h)) [
        | inl e ↦
            iff.1 (
              scale_congr lib laws base (
                Cong-trans (Cong-of_eq (ap pos ((==_iff s (residue order h)).0 e)))
                  (Cong-residue order h n_pos)))
            ∙ sym e
        | inr e ↦ elim (Bool-cases (equals (scale lib (pos s) base) (scale lib h base))) [
          | inl f ↦ absurd (
              differ e (
                (==_iff s (residue order h)).1 (
                  sym (residue_small order s s_lt)
                  ∙ residue_congr n_pos (scale-base_injective lib laws (pos s) h (iff.0 f)))))
          | inr f ↦ f ∙ sym e
        ]
      ]
    where
      differ : {b : Bool} → b ≡ false → b ≡ true → ⊥
      differ e f = cc

  -- Coefficients `c, cs`, a party index `x` and a share `s`, all from 1 up to the order: the
  -- commitments are computed without an error, and against them both `verifyShareAgainstCommitments`
  -- and `verifyVSSSCommitment` return whether `s` is the value of the polynomial at `x` up to the order.
  pub verify_share_exact :
      (c : ℕ) (cs : List ℕ) (x s : ℕ)
      → All (IsScalar order) (c ∷ cs)
      → IsScalar order x
      → IsScalar order s
      → (texts : List Text) × (compute_commitments lib (map pos (c ∷ cs)) ≡ ok texts)
        × (verify_share_against_commitments lib (pos s) (pos x) texts
            ≡ ok (s == residue order (horner (map pos (c ∷ cs)) (pos x))))
        × (verify_vsss_commitment lib texts (pos s) x
            ≡ ok (s == residue order (horner (map pos (c ∷ cs)) (pos x))))
  unfolding compute_commitments verify_share_against_commitments verify_vsss_commitment horner
  verify_share_exact c cs x s (hc, h) hx hs =
      let n_pos = order_pos lib laws in
      let r = committed cs x h hx in
      let (text, text_written, text_read) =
        laws.to_hex_finite true (scale lib (pos c) base)
          (λ e. scalar_nonzero lib laws c hc.0 hc.1 (scale-base_zero lib laws (pos c) e)) in
      let value = pos c +ℤ pos x *ℤ horner (map pos cs) (pos x) in
      (
        text ∷ r.texts,
        rw (multiply-base lib laws c hc, text_written, r.written),
        rw (
          multiply-base lib laws s hs,
          text_read,
          r.share (pos c) 1 (one_scalar, laws.order_prime.0),
          scale_congr lib laws {b = value} base (
              Cong-+ℤ (Cong-of_eq refl) (
                Cong-*ℤ
                  (Cong-trans (Cong-residue order (pos 1 *ℤ pos x) n_pos)
                    (Cong-of_eq (simp ring_laws)))
                  (Cong-of_eq refl))),
          equals_multiples s value hs.1,
        ),
        rw (
          multiply-base lib laws s hs,
          text_read,
          r.vsss (pos c) x hx,
          equals_multiples s value hs.1,
        ),
      )
    where
      one_scalar : 0 < 1
      one_scalar = omega arith
