-- ===== src/Threshold.antt =====
-- Signing with additive shares (src/protocols/signing/partial-signature.ts).
pub mod Client
pub mod Combine
pub mod Nonce
pub mod Verify
mod Tests
use nero_mpc_sdk.Base.{
  ℕ, ◌+◌, ◌-◌, ◌*◌, ◌/◌, ◌%◌, ◌==◌, ltb, leb, Bool, true, false, not, ◌&&◌, if◌then◌else◌, List, [],
  ◌∷◌, ◌++◌, Option, none, some,
}
use nero_mpc_sdk.Base.Throws.{Throws, ok, throw, ◌>>=◌, ◌>>◌, throw_if, or_throw}
use nero_mpc_sdk.Bigint.{ℤ, pos, ◌+ℤ◌, ◌-ℤ◌, ◌*ℤ◌, tdiv, ltb_ℤ, beq_ℤ}
use nero_mpc_sdk.Modular.{mod_twice, mod_inverse}
use nero_mpc_sdk.Hex.{Text, scalar_to_hex, to_string16, pad_start, parse_bigint16}
use nero_mpc_sdk.Noble.{Noble}

pub record PartialSignatureData : Type 0 where
  pub party_id : ℕ
  pub sigma : ℤ
  pub public_share : Text
  pub nonce_commitment : Text

pub record Signature : Type 0 where
  pub r : ℤ
  pub s : ℤ
  pub v : ℕ

unfoldable pub format_signature : Signature → Text
format_signature signature =
    48
    ∷ 120
    ∷ (scalar_to_hex signature.r
        ++ (scalar_to_hex signature.s ++ pad_start 2 (to_string16 (pos signature.v))))

-- `0x` is cut off if the text starts with it.
unfoldable pub parse_message_hash : Text → Option ℤ
parse_message_hash (c ∷ d ∷ s) =
    if c == 48 && d == 120 then parse_bigint16 s else parse_bigint16 (c ∷ d ∷ s)
parse_message_hash hash = parse_bigint16 hash

module _ (lib : Noble) where
  open lib use {Point, base, order, multiply, add, equals, to_hex, from_hex}

  -- The two products of `computeLagrangeCoefficient`.
  unfoldable pub lagrange_loop : ℤ → List ℕ → ℤ → ℤ → ℤ × ℤ
  lagrange_loop i [] numerator denominator = (numerator, denominator)
  lagrange_loop i (j ∷ parties) numerator denominator =
      let next_numerator = mod_twice (numerator *ℤ (pos order -ℤ pos j)) (pos order) in
      let next_denominator =
        mod_twice (denominator *ℤ mod_twice (i -ℤ pos j) (pos order)) (pos order) in
      lagrange_loop i parties (if beq_ℤ (pos j) i then numerator else next_numerator)
        (if beq_ℤ (pos j) i then denominator else next_denominator)

  unfoldable pub compute_lagrange_coefficient : ℕ → List ℕ → ℤ
  compute_lagrange_coefficient party_id participating_parties =
      let (numerator, denominator) =
        lagrange_loop (pos party_id) participating_parties (pos 1) (pos 1) in
      mod_twice (numerator *ℤ mod_inverse denominator (pos order)) (pos order)

  unfoldable pub compute_partial_signature :
      ℕ → ℤ → ℤ → ℤ → ℤ → List ℕ → Throws PartialSignatureData
  compute_partial_signature party_id key_share nonce_k message_hash r participating_parties = do
    let lambda = compute_lagrange_coefficient party_id participating_parties
    let inverse = mod_inverse nonce_k (pos order)
    let adjusted_share = mod_twice (key_share *ℤ lambda) (pos order)
    let sigma = mod_twice (inverse *ℤ (message_hash +ℤ r *ℤ adjusted_share)) (pos order)
    public_point ← or_throw (multiply base key_share) "multiply"
    public_share ← or_throw (to_hex true public_point) "toHex"
    nonce_point ← or_throw (multiply base nonce_k) "multiply"
    nonce_commitment ← or_throw (to_hex true nonce_point) "toHex"
    ok (record {
      party_id = party_id;
      sigma = sigma;
      public_share = public_share;
      nonce_commitment = nonce_commitment;
    })

  unfoldable pub sum_partials : List PartialSignatureData → ℤ → ℤ
  sum_partials [] s = s
  sum_partials (partial ∷ partials) s =
      sum_partials partials (mod_twice (s +ℤ partial.sigma) (pos order))

  -- The last step: `s` is brought to the lower half, and `v` follows.
  unfoldable pub low_s : ℤ → ℤ → ℕ → Signature
  low_s r s v =
      if ltb_ℤ (tdiv (pos order) (pos 2)) s
      then record { r = r; s = pos order -ℤ s; v = (if v == 27 then 28 else 27) }
      else record { r = r; s = s; v = v }

  -- The last argument is the y coordinate of the combined nonce point.
  unfoldable pub combine_partial_signatures : List PartialSignatureData → ℤ → ℕ → Signature
  combine_partial_signatures partials r y =
      low_s r (sum_partials partials (pos 0)) (if y % 2 == 0 then 27 else 28)
