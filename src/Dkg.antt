-- ===== src/Dkg.antt =====
-- Distributed key generation with verifiable secret sharing (src/protocols/dkg): polynomials and
-- their commitments. The scalars that `generateRandomScalar` returns are arguments.
pub mod Client
pub mod Commitments
pub mod Evaluate
pub mod Exchange
pub mod Feldman
pub mod Lagrange
pub mod Recover
mod Tests
use nero_mpc_sdk.Base.{
  ℕ, zero, suc, ◌+◌, ◌%◌, ◌==◌, Bool, true, false, not, if◌then◌else◌, List, [], ◌∷◌, ◌++◌, Option,
  none, some,
}
use nero_mpc_sdk.Base.Throws.{Throws, ok, throw, ◌>>=◌, ◌>>◌, throw_if, or_throw}
use nero_mpc_sdk.Bigint.{ℤ, pos, negsuc, ◌+ℤ◌, ◌-ℤ◌, ◌*ℤ◌, beq_ℤ}
use nero_mpc_sdk.Modular.{mod_twice, mod_inverse}
use nero_mpc_sdk.Hex.{Text, Bytes}
use nero_mpc_sdk.Noble.{Noble}
use nero_mpc_sdk.Dkls.Keygen.Draw.{big_endian}

-- The `for` loop of `generatePolynomial` from index `i` on, with the rounds left.
unfoldable pub polynomial_loop : (ℕ → ℤ) → ℕ → ℕ → List ℤ
polynomial_loop draw zero i = []
polynomial_loop draw (suc left) i = draw i ∷ polynomial_loop draw left (suc i)

unfoldable pub generate_polynomial : (ℕ → ℤ) → ℤ → Throws (List ℤ)
generate_polynomial draw (pos degree) = ok (polynomial_loop draw (suc degree) 0)
generate_polynomial draw (negsuc degree) = throw "Invalid polynomial degree"

module _ (lib : Noble) where
  open lib use {Point, base, order, multiply, add, equals, to_hex, from_hex}

  -- The blocks are those that `crypto.getRandomValues` fills; `none` means that they ran out.
  unfoldable pub generate_random_scalar : List Bytes → Option ℤ
  generate_random_scalar [] = none
  generate_random_scalar (bytes ∷ draws) =
      let again = generate_random_scalar draws in
      let scalar = big_endian 0 bytes % order in if scalar == 0 then again else some (pos scalar)

  unfoldable pub evaluate_loop : List ℤ → ℤ → ℤ → ℤ → ℤ
  evaluate_loop [] x result x_power = result
  evaluate_loop (coeff ∷ coefficients) x result x_power =
      evaluate_loop coefficients x
        (mod_twice (result +ℤ mod_twice (coeff *ℤ x_power) (pos order)) (pos order))
        (mod_twice (x_power *ℤ x) (pos order))

  unfoldable pub evaluate_polynomial : List ℤ → ℤ → ℤ
  evaluate_polynomial coefficients x = evaluate_loop coefficients x (pos 0) (pos 1)

  unfoldable pub compute_commitments : List ℤ → Throws (List Text)
  compute_commitments [] = ok []
  compute_commitments (coeff ∷ coefficients) = do
    point ← or_throw (multiply base coeff) "multiply"
    text ← or_throw (to_hex true point) "toHex"
    rest ← compute_commitments coefficients
    ok (text ∷ rest)

  unfoldable pub verify_share_loop : List Text → ℤ → Point → ℤ → Throws Point
  verify_share_loop [] party_index expected_point index_power = ok expected_point
  verify_share_loop (text ∷ commitments) party_index expected_point index_power = do
    let next_power = mod_twice (index_power *ℤ party_index) (pos order)
    commitment_point ← or_throw (from_hex text) "fromHex"
    scaled ← or_throw (multiply commitment_point next_power) "multiply"
    verify_share_loop commitments party_index (add expected_point scaled) next_power

  -- Without commitments, `fromHex(undefined)` throws.
  unfoldable pub verify_share_against_commitments : ℤ → ℤ → List Text → Throws Bool
  verify_share_against_commitments share party_index [] = do
    share_point ← or_throw (multiply base share) "multiply"
    throw "fromHex"
  verify_share_against_commitments share party_index (text ∷ commitments) = do
    share_point ← or_throw (multiply base share) "multiply"
    first_point ← or_throw (from_hex text) "fromHex"
    expected_point ← verify_share_loop commitments party_index first_point (pos 1)
    ok (equals share_point expected_point)

  unfoldable pub verify_vsss_loop : List Text → ℤ → Point → ℤ → Throws Point
  verify_vsss_loop [] x expected_point x_power = ok expected_point
  verify_vsss_loop (text ∷ commitments) x expected_point x_power = do
    commitment_point ← or_throw (from_hex text) "fromHex"
    scaled ← or_throw (multiply commitment_point x_power) "multiply"
    verify_vsss_loop commitments x (add expected_point scaled)
        (mod_twice (x_power *ℤ x) (pos order))

  unfoldable pub verify_vsss_commitment : List Text → ℤ → ℕ → Throws Bool
  verify_vsss_commitment [] share receiver_party_id = do
    share_point ← or_throw (multiply base share) "multiply"
    throw "fromHex"
  verify_vsss_commitment (text ∷ commitments) share receiver_party_id = do
    share_point ← or_throw (multiply base share) "multiply"
    first_point ← or_throw (from_hex text) "fromHex"
    expected_point ←
        verify_vsss_loop commitments (pos receiver_party_id) first_point (pos receiver_party_id)
    ok (equals share_point expected_point)

  -- The first entry of a party's commitments.
  unfoldable pub first_point : List Text → Throws Point
  first_point [] = throw "fromHex"
  first_point (text ∷ commitments) = or_throw (from_hex text) "fromHex"

  unfoldable pub combine_loop : List (List Text) → Point → Throws Point
  combine_loop [] combined = ok combined
  combine_loop (party ∷ commitments) combined = do
    point ← first_point party
    combine_loop commitments (add combined point)

  -- Without parties, reading `commitments[0][0]` throws.
  unfoldable pub combine_public_keys : List (List Text) → Throws Text
  combine_public_keys [] = throw "TypeError"
  combine_public_keys (party ∷ commitments) = do
    first ← first_point party
    combined ← combine_loop commitments first
    or_throw (to_hex false combined) "toHex"

  -- The two products of `computeLagrangeCoefficient`.
  unfoldable pub lagrange_loop : ℤ → List ℤ → ℤ → ℤ → ℤ × ℤ
  lagrange_loop party_index [] numerator denominator = (numerator, denominator)
  lagrange_loop party_index (j ∷ indices) numerator denominator =
      let next_numerator = mod_twice (numerator *ℤ (pos order -ℤ j)) (pos order) in
      let next_denominator =
        mod_twice (denominator *ℤ mod_twice (party_index -ℤ j) (pos order)) (pos order) in
      lagrange_loop party_index indices (if beq_ℤ j party_index then numerator else next_numerator)
        (if beq_ℤ j party_index then denominator else next_denominator)

  unfoldable pub compute_lagrange_coefficient : ℤ → List ℤ → ℤ
  compute_lagrange_coefficient party_index participating_indices =
      let (numerator, denominator) =
        lagrange_loop party_index participating_indices (pos 1) (pos 1) in
      mod_twice (numerator *ℤ mod_inverse denominator (pos order)) (pos order)

  -- Over the values of the map of received shares.
  unfoldable pub aggregate_shares : List ℤ → ℤ → ℤ
  aggregate_shares [] combined = combined
  aggregate_shares (share ∷ received_shares) combined =
      aggregate_shares received_shares (mod_twice (combined +ℤ share) (pos order))
