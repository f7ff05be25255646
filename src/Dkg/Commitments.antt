-- ===== src/Dkg/Commitments.antt =====
-- Pedersen commitments, and the commitments of a party with their proof of knowledge
-- (src/protocols/dkg/commitments.ts). The scalars that the code draws are arguments. The proof, which
-- the code writes with JSON.stringify and reads with JSON.parse, is the record of its two texts.
pub mod Pedersen
pub mod Knowledge
pub mod Joint
mod Tests
use nero_mpc_sdk.Base.{ℕ, Bool, true, false, List, [], ◌∷◌, ◌++◌, map}
use nero_mpc_sdk.Base.Throws.{Throws, ok, throw, ◌>>=◌, or_throw}
use nero_mpc_sdk.Bigint.{ℤ, pos, ◌+ℤ◌, ◌*ℤ◌}
use nero_mpc_sdk.Modular.{mod_twice}
use nero_mpc_sdk.Hex.{Text, text, to_string10, scalar_to_hex, parse_bigint16}
use nero_mpc_sdk.Noble.{Noble}
use nero_mpc_sdk.Dkg.{compute_commitments, first_point, combine_loop}

pub record PedersenCommitment : Type 0 where
  pub commitment : Text
  pub value : ℤ
  pub blinding : ℤ

pub record KnowledgeProof : Type 0 where
  pub r : Text
  pub s : Text

pub record VsssCommitment : Type 0 where
  pub party_id : ℕ
  pub coefficient_commitments : List Text
  pub proof_of_knowledge : KnowledgeProof

module _ (lib : Noble) where
  open lib use {
    Point, base, order, multiply, add, equals, to_hex, from_hex, sha256, utf8_to_bytes,
    bytes_to_hex,
  }

  -- mod(BigInt(`0x${bytesToHex(sha256(utf8ToBytes(input)))}`), CURVE_ORDER).
  unfoldable pub text_challenge : Text → Throws ℤ
  text_challenge input = do
    number ← or_throw (parse_bigint16 (bytes_to_hex (sha256 (utf8_to_bytes input)))) "BigInt"
    ok (mod_twice number (pos order))

  -- The memo `H_POINT` holds the value that is computed here each time.
  unfoldable pub get_h_point : Throws Point
  get_h_point = do
    scalar ← text_challenge (text "NERO_MPC_PEDERSEN_H_GENERATOR")
    or_throw (multiply base scalar) "multiply"

  unfoldable pub create_pedersen_commitment : ℤ → ℤ → Throws PedersenCommitment
  create_pedersen_commitment blinding value = do
    h ← get_h_point
    value_point ← or_throw (multiply base value) "multiply"
    blinding_point ← or_throw (multiply h blinding) "multiply"
    commitment ← or_throw (to_hex true (add value_point blinding_point)) "toHex"
    ok (record { commitment = commitment; value = value; blinding = blinding })

  unfoldable pub verify_pedersen_commitment : Text → ℤ → ℤ → Throws Bool
  verify_pedersen_commitment commitment value blinding = do
    h ← get_h_point
    value_point ← or_throw (multiply base value) "multiply"
    blinding_point ← or_throw (multiply h blinding) "multiply"
    commitment_point ← or_throw (from_hex commitment) "fromHex"
    ok (equals (add value_point blinding_point) commitment_point)

  unfoldable pub compute_challenge : ℕ → Text → Text → Throws ℤ
  compute_challenge party_id commitment r =
      text_challenge (to_string10 party_id ++ (text ":" ++ (commitment ++ (text ":" ++ r))))

  -- The first argument is the scalar `k` that is drawn.
  unfoldable pub create_proof_of_knowledge : ℤ → ℕ → ℤ → Text → Throws KnowledgeProof
  create_proof_of_knowledge k party_id secret public_commitment = do
    nonce_point ← or_throw (multiply base k) "multiply"
    r ← or_throw (to_hex true nonce_point) "toHex"
    challenge ← compute_challenge party_id public_commitment r
    let response = mod_twice (k +ℤ secret *ℤ challenge) (pos order)
    ok (record { r = r; s = scalar_to_hex response })

  unfoldable pub verify_proof_of_knowledge : KnowledgeProof → ℕ → Text → Throws Bool
  verify_proof_of_knowledge proof party_id public_commitment = do
    r_point ← or_throw (from_hex proof.r) "fromHex"
    response ← or_throw (parse_bigint16 proof.s) "BigInt"
    challenge ← compute_challenge party_id public_commitment proof.r
    left_side ← or_throw (multiply base response) "multiply"
    commitment_point ← or_throw (from_hex public_commitment) "fromHex"
    scaled ← or_throw (multiply commitment_point challenge) "multiply"
    ok (equals left_side (add r_point scaled))

  -- Without coefficients, the product of `undefined` and a BigInt throws. The texts of the
  -- commitments are those of `computeCommitments`.
  unfoldable pub create_vsss_commitments : ℤ → ℕ → List ℤ → Throws VsssCommitment
  create_vsss_commitments k party_id [] = throw "TypeError"
  create_vsss_commitments k party_id (secret ∷ coefficients) = do
    first ← or_throw (multiply base secret) "multiply"
    first_text ← or_throw (to_hex true first) "toHex"
    others ← compute_commitments lib coefficients
    proof ← create_proof_of_knowledge k party_id secret first_text
    ok (record {
      party_id = party_id;
      coefficient_commitments = first_text ∷ others;
      proof_of_knowledge = proof;
    })

  -- Without parties, reading `commitments[0]` throws.
  unfoldable pub combine_vsss_commitments : List VsssCommitment → Throws Text
  combine_vsss_commitments [] = throw "TypeError"
  combine_vsss_commitments (party ∷ commitments) = do
    first ← first_point lib party.coefficient_commitments
    combined ← combine_loop lib (map (λ c. c.coefficient_commitments) commitments) first
    or_throw (to_hex false combined) "toHex"
