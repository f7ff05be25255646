-- ===== src/Dkg/Commitments/Pedersen.antt =====
-- Which openings of a Pedersen commitment are accepted (src/protocols/dkg/commitments.ts).
use nero_mpc_sdk.Base.{ℕ, ◌<◌, ◌≡◌, sym, ap, ◌∙◌, arith, ◌==◌, true}
use nero_mpc_sdk.Base.Throws.{ok}
use nero_mpc_sdk.Bigint.{ℤ, pos, ◌+ℤ◌, ◌*ℤ◌, residue, residue-lt, Cong, Cong-residue}
use nero_mpc_sdk.Modular.{mod_twice-eq-residue}
use nero_mpc_sdk.Hex.{Text, parse_bigint16-IsLowerHex}
use nero_mpc_sdk.Noble.{Noble, Lawful, order_pos, scale, scale_congr, scale-+ℤ, scale-base_zero}
use nero_mpc_sdk.Dkls.Ot.Laws.{IsScalar, multiply-base, multiply-multiple}
use nero_mpc_sdk.Dkg.Feldman.{equals_multiples}
use nero_mpc_sdk.Dkg.Commitments.{
  PedersenCommitment, text_challenge, get_h_point, create_pedersen_commitment,
  verify_pedersen_commitment,
}

-- The challenge is always computed, and lies below the order.
pub text_challenge-lt :
    (lib : Noble)
    → Lawful lib
    → (input : Text) → (e : ℕ) × (text_challenge lib input ≡ ok (pos e)) × (e < lib.order)
unfolding text_challenge
text_challenge-lt lib laws input =
    let hash = lib.sha256 (lib.utf8_to_bytes input) in
    let (lower, len) = laws.bytes_to_hex_lower hash (laws.All-sha256 (lib.utf8_to_bytes input)) in
    let (n, read) =
      parse_bigint16-IsLowerHex (lib.bytes_to_hex hash) lower
        (omega (arith, len, laws.length-sha256 (lib.utf8_to_bytes input))) in
    (
      residue lib.order (pos n),
      rw (read, mod_twice-eq-residue lib.order (order_pos lib laws) (pos n)),
      residue-lt lib.order (pos n) (order_pos lib laws),
    )

module _ (lib : Noble) (laws : Lawful lib) where
  open lib use {base, order, add, equals, to_hex, from_hex}

  -- Both points of an opening, added.
  opening_point :
      (h v b : ℕ)
      → add (scale lib (pos v) base) (scale lib (pos b *ℤ pos h) base)
        ≡ scale lib (pos v +ℤ pos b *ℤ pos h) base
  opening_point h v b = sym (scale-+ℤ lib laws (pos v) (pos b *ℤ pos h) base)

  -- If the second generator is `h * G` for a scalar `h`: a commitment to a scalar `v` with blinding
  -- `b` is made if `v + b * h` is no multiple of the order, and an opening to scalars `v'` and `b'`
  -- is then accepted exactly if `v' + b' * h` is congruent to `v + b * h`.
  pub pedersen_openings :
      (h v b v' b' : ℕ)
      → get_h_point lib ≡ ok (scale lib (pos h) base)
      → IsScalar order v
      → IsScalar order b
      → IsScalar order v'
      → IsScalar order b'
      → ¬ (Cong order (pos v +ℤ pos b *ℤ pos h) (pos 0))
      → (made : PedersenCommitment) × (create_pedersen_commitment lib (pos b) (pos v) ≡ ok made)
        × (verify_pedersen_commitment lib made.commitment (pos v') (pos b')
            ≡ ok (
                residue order (pos v' +ℤ pos b' *ℤ pos h)
                == residue order (pos v +ℤ pos b *ℤ pos h)))
  unfolding create_pedersen_commitment verify_pedersen_commitment
  pedersen_openings h v b v' b' eh hv hb hv' hb' finite =
      let (commitment, written, read) =
        laws.to_hex_finite true (scale lib (pos v +ℤ pos b *ℤ pos h) base)
          (λ e. finite (scale-base_zero lib laws (pos v +ℤ pos b *ℤ pos h) e)) in
      (
        record { commitment = commitment; value = pos v; blinding = pos b },
        rw (
          eh,
          multiply-base lib laws v hv,
          multiply-multiple lib laws (pos h) b hb,
          opening_point h v b,
          written,
        ),
        rw
            (
              eh,
              multiply-base lib laws v' hv',
              multiply-multiple lib laws (pos h) b' hb',
              opening_point h v' b',
              read,
            )
            (ap ok (same (pos v' +ℤ pos b' *ℤ pos h) (pos v +ℤ pos b *ℤ pos h))),
      )
    where
      same :
          (x y : ℤ)
          → equals (scale lib x base) (scale lib y base) ≡ (residue order x == residue order y)
      same x y =
          let n_pos = order_pos lib laws in
          ap (λ p. equals p (scale lib y base))
            (sym (scale_congr lib laws base (Cong-residue order x n_pos)))
          ∙ equals_multiples lib laws (residue order x) y (residue-lt order x n_pos)
