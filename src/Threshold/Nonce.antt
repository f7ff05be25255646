-- ===== src/Threshold/Nonce.antt =====
-- Nonces of the additive signing and their proofs (src/protocols/signing/nonce.ts). The scalars that
-- the code draws are arguments. The proof, which the code writes with JSON.stringify and reads with
-- JSON.parse, is the record of its four texts.
pub mod Laws
use nero_mpc_sdk.Base.{
  ℕ, Bool, true, false, not, ◌&&◌, ◌||◌, leb, if◌then◌else◌, List, [], ◌∷◌, ◌++◌, Option, none,
  some, length,
}
use nero_mpc_sdk.Base.Throws.{Throws, ok, throw, ◌>>=◌, or_throw, or_false}
use nero_mpc_sdk.Bigint.{ℤ, pos, ◌+ℤ◌, ◌*ℤ◌, leb_ℤ}
use nero_mpc_sdk.Modular.{mod_twice}
use nero_mpc_sdk.Hex.{Text, text, all_hex, to_string10, scalar_to_hex, parse_bigint16}
use nero_mpc_sdk.Noble.{Noble}
use nero_mpc_sdk.Dkg.{generate_random_scalar}
use nero_mpc_sdk.Dkg.Commitments.{text_challenge}

pub record NonceShare : Type 0 where
  pub k : ℤ
  pub gamma : ℤ

pub record NonceProof : Type 0 where
  pub r1 : Text
  pub r2 : Text
  pub s1 : Text
  pub s2 : Text

-- The points `D` of `gamma` and `E` of `k`, as texts.
pub record NonceCommitment : Type 0 where
  pub party_id : ℕ
  pub d : Text
  pub e : Text
  pub proof : NonceProof

-- What `computeR` returns, with the coordinates of `rPoint`.
pub record NoncePoint : Type 0 where
  pub r : ℤ
  pub text : Text
  pub x : ℕ
  pub y : ℕ

-- /^[0-9a-fA-F]{1,64}$/.test(s).
unfoldable pub hex_scalar_test : Text → Bool
hex_scalar_test s = leb 1 (length s) && (leb (length s) 64 && all_hex s)

module _ (lib : Noble) where
  open lib use {Point, base, order, multiply, add, equals, to_hex, from_hex, affine_x, affine_y}

  -- The two drawings, one after the other.
  unfoldable pub generate_nonce_share : List (List ℕ) → List (List ℕ) → Throws NonceShare
  generate_nonce_share draws_k draws_gamma = do
    k ← or_throw (generate_random_scalar lib draws_k) "getRandomValues"
    gamma ← or_throw (generate_random_scalar lib draws_gamma) "getRandomValues"
    ok (record { k = k; gamma = gamma })

  unfoldable pub compute_nonce_challenge : ℕ → Text → Text → Text → Text → Throws ℤ
  compute_nonce_challenge party_id d e r1 r2 = text_challenge lib (
      to_string10 party_id
      ++ (text ":" ++ (d ++ (text ":" ++ (e ++ (text ":" ++ (r1 ++ (text ":" ++ r2))))))))

  -- The first two arguments are the scalars `r1` and `r2` that are drawn.
  unfoldable pub create_nonce_proof : ℤ → ℤ → ℕ → ℤ → ℤ → Point → Point → Throws NonceProof
  create_nonce_proof r1 r2 party_id k gamma d e = do
    r1_point ← or_throw (multiply base r1) "multiply"
    r2_point ← or_throw (multiply base r2) "multiply"
    d_text ← or_throw (to_hex true d) "toHex"
    e_text ← or_throw (to_hex true e) "toHex"
    r1_text ← or_throw (to_hex true r1_point) "toHex"
    r2_text ← or_throw (to_hex true r2_point) "toHex"
    challenge ← compute_nonce_challenge party_id d_text e_text r1_text r2_text
    ok (record {
      r1 = r1_text;
      r2 = r2_text;
      s1 = scalar_to_hex (mod_twice (r1 +ℤ gamma *ℤ challenge) (pos order));
      s2 = scalar_to_hex (mod_twice (r2 +ℤ k *ℤ challenge) (pos order));
    })

  unfoldable pub create_nonce_commitment : ℤ → ℤ → ℕ → NonceShare → Throws NonceCommitment
  create_nonce_commitment r1 r2 party_id nonce = do
    d ← or_throw (multiply base nonce.gamma) "multiply"
    e ← or_throw (multiply base nonce.k) "multiply"
    proof ← create_nonce_proof r1 r2 party_id nonce.k nonce.gamma d e
    d_text ← or_throw (to_hex true d) "toHex"
    e_text ← or_throw (to_hex true e) "toHex"
    ok (record { party_id = party_id; d = d_text; e = e_text; proof = proof })

  unfoldable pub verify_nonce_commitment : NonceCommitment → Bool
  verify_nonce_commitment commitment = or_false (do
    d ← or_throw (from_hex commitment.d) "fromHex"
    e ← or_throw (from_hex commitment.e) "fromHex"
    ok true)

  -- `scalar <= 0n || scalar >= CURVE_ORDER`.
  abbrev pub out_of_range : ℤ → Bool
  out_of_range scalar = leb_ℤ scalar (pos 0) || leb_ℤ (pos order) scalar

  -- G * s = R + P * challenge.
  unfoldable pub response_holds : ℤ → Point → Point → ℤ → Throws Bool
  response_holds s r p challenge = do
    left_side ← or_throw (multiply base s) "multiply"
    scaled ← or_throw (multiply p challenge) "multiply"
    ok (equals left_side (add r scaled))

  -- The two equations, the second only if the first holds.
  unfoldable pub check_responses :
      NonceCommitment → Point → Point → Point → Point → ℤ → ℤ → Throws Bool
  check_responses commitment d e r1 r2 s1 s2 = do
    challenge ←
        compute_nonce_challenge commitment.party_id commitment.d commitment.e commitment.proof.r1
          commitment.proof.r2
    first ← response_holds s1 r1 d challenge
    let second = response_holds s2 r2 e challenge
    if first then second else ok false

  -- From the reading of the proof's texts on.
  unfoldable pub check_proof : NonceCommitment → Point → Point → Throws Bool
  check_proof commitment d e = do
    r1 ← or_throw (from_hex commitment.proof.r1) "fromHex"
    r2 ← or_throw (from_hex commitment.proof.r2) "fromHex"
    s1 ← or_throw (parse_bigint16 commitment.proof.s1) "BigInt"
    s2 ← or_throw (parse_bigint16 commitment.proof.s2) "BigInt"
    let check = check_responses commitment d e r1 r2 s1 s2
    if out_of_range s1 then ok false else if out_of_range s2 then ok false else check

  unfoldable pub verify_nonce_proof : NonceCommitment → Bool
  verify_nonce_proof commitment = or_false (do
    d ← or_throw (from_hex commitment.d) "fromHex"
    e ← or_throw (from_hex commitment.e) "fromHex"
    let check = check_proof commitment d e
    if not (hex_scalar_test commitment.proof.s1) || not (hex_scalar_test commitment.proof.s2)
        then ok false
        else check)

  unfoldable pub combine_nonce_loop : List NonceCommitment → Point → Point → Throws (Point × Point)
  combine_nonce_loop [] combined_d combined_e = ok (combined_d, combined_e)
  combine_nonce_loop (commitment ∷ commitments) combined_d combined_e = do
    d ← or_throw (from_hex commitment.d) "fromHex"
    e ← or_throw (from_hex commitment.e) "fromHex"
    combine_nonce_loop commitments (add combined_d d) (add combined_e e)

  -- The texts `R` and `combinedGamma`; without commitments, reading `commitments[0]` throws.
  unfoldable pub combine_nonce_commitments : List NonceCommitment → Throws (Text × Text)
  combine_nonce_commitments [] = throw "TypeError"
  combine_nonce_commitments (commitment ∷ commitments) = do
    d ← or_throw (from_hex commitment.d) "fromHex"
    e ← or_throw (from_hex commitment.e) "fromHex"
    (combined_d, combined_e) ← combine_nonce_loop commitments d e
    r ← or_throw (to_hex true combined_e) "toHex"
    combined_gamma ← or_throw (to_hex true combined_d) "toHex"
    ok (r, combined_gamma)

  unfoldable pub compute_r : Text → Throws NoncePoint
  compute_r combined_e = do
    r ← or_throw (from_hex combined_e) "fromHex"
    r_text ← or_throw (to_hex true r) "toHex"
    ok (record {
      r = mod_twice (pos (affine_x r)) (pos order);
      text = r_text;
      x = affine_x r;
      y = affine_y r;
    })
