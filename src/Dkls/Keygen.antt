-- ===== src/Dkls/Keygen.antt =====
-- Key generation with commitments and Schnorr proofs (src/protocols/dkls/crypto.ts, the first
-- half). The scalars that `randomScalar` returns are arguments.
pub mod Draw
pub mod Schnorr
pub mod Laws
mod Tests
use nero_mpc_sdk.Base.{
  ℕ, zero, suc, ◌+◌, ◌*◌, ◌%◌, ◌==◌, Bool, true, false, not, ◌&&◌, if◌then◌else◌, List, [], ◌∷◌,
  ◌++◌, length, Option, none, some,
}
use nero_mpc_sdk.Base.Throws.{Throws, ok, throw, ◌>>=◌, ◌>>◌, throw_if, or_throw, or_false}
use nero_mpc_sdk.Bigint.{ℤ, pos, ◌+ℤ◌, ◌*ℤ◌, beq_ℤ}
use nero_mpc_sdk.Modular.{mod_once}
use nero_mpc_sdk.Hex.{Text, Bytes, scalar_to_hex, parse_bigint16}
use nero_mpc_sdk.Noble.{Noble}
use nero_mpc_sdk.Dkls.Challenge.{hash_challenge}

pub record KeygenCommitment : Type 0 where
  pub party_id : ℕ
  pub commitment : Text

pub record SchnorrProof : Type 0 where
  pub commitment : Text
  pub challenge : Text
  pub response : Text

pub record KeygenPublicShare : Type 0 where
  pub party_id : ℕ
  pub public_share : Text
  pub proof : SchnorrProof

pub record KeyShare : Type 0 where
  pub party_id : ℕ
  pub secret_share : Text
  pub public_share : Text
  pub joint_public_key : Text

-- The comparison loop of `verifyCommitment`, over lists of one length.
unfoldable pub same_bytes : Bytes → Bytes → Bool
same_bytes [] [] = true
same_bytes (x ∷ a) (y ∷ b) = if x == y then same_bytes a b else false
same_bytes _ _ = false

module _ (lib : Noble) where
  open lib use {
    Point, base, order, multiply, add, equals, to_hex, from_hex, to_raw_bytes, sha256, bytes_to_hex,
    hex_to_bytes,
  }

  unfoldable pub commit_to_point : Point → Throws Bytes
  commit_to_point point = do raw ← or_throw (to_raw_bytes true point) "toRawBytes"; ok (sha256 raw)

  pub record KeygenClientState : Type 0 where
    pub party_id : ℕ
    pub secret_share : ℤ
    pub public_share : Point
    pub commitment : Bytes
    pub peer_commitment : Option Bytes
    pub peer_public_share : Option Point
    pub joint_public_key : Option Point

  unfoldable pub keygen_init_client : ℤ → Throws (KeygenClientState × KeygenCommitment)
  keygen_init_client secret_share = do
    public_share ← or_throw (multiply base secret_share) "multiply"
    commitment ← commit_to_point public_share
    ok (
      record {
        party_id = 1;
        secret_share = secret_share;
        public_share = public_share;
        commitment = commitment;
        peer_commitment = none;
        peer_public_share = none;
        joint_public_key = none;
      },
      record { party_id = 1; commitment = bytes_to_hex commitment },
    )

  unfoldable pub keygen_process_backend_commitment :
      KeygenClientState → KeygenCommitment → Throws KeygenClientState
  keygen_process_backend_commitment state backend = do
    throw_if (backend.party_id == state.party_id) "Cannot process own commitment"
    bytes ← or_throw (hex_to_bytes backend.commitment) "hexToBytes"
    ok (record state { peer_commitment = some bytes })

  -- The hash of the nonce, the public key and the generator.
  unfoldable pub schnorr_challenge : Point → Point → Throws ℤ
  schnorr_challenge nonce public_key = do
    raw_nonce ← or_throw (to_raw_bytes true nonce) "toRawBytes"
    raw_key ← or_throw (to_raw_bytes true public_key) "toRawBytes"
    raw_base ← or_throw (to_raw_bytes true base) "toRawBytes"
    hash_challenge lib (raw_nonce ++ (raw_key ++ raw_base))

  unfoldable pub generate_schnorr_proof : ℤ → ℤ → Point → Throws SchnorrProof
  generate_schnorr_proof k secret_key public_key = do
    nonce ← or_throw (multiply base k) "multiply"
    challenge ← schnorr_challenge nonce public_key
    commitment ← or_throw (to_hex true nonce) "toHex"
    ok (record {
      commitment = commitment;
      challenge = scalar_to_hex challenge;
      response = scalar_to_hex (mod_once (k +ℤ challenge *ℤ secret_key) (pos order));
    })

  unfoldable pub keygen_generate_reveal : ℤ → KeygenClientState → Throws KeygenPublicShare
  keygen_generate_reveal k state = do
    received ←
        or_throw state.peer_commitment "Must receive peer commitment before generating reveal"
    proof ← generate_schnorr_proof k state.secret_share state.public_share
    public_share ← or_throw (to_hex true state.public_share) "toHex"
    ok (record { party_id = state.party_id; public_share = public_share; proof = proof })

  unfoldable pub verify_commitment : Bytes → Point → Throws Bool
  verify_commitment commitment point = do
    expected ← commit_to_point point
    ok (if length expected == length commitment then same_bytes expected commitment else false)

  -- `G * response` against `R + publicKey * challenge`.
  unfoldable pub check_equation : Point → Point → ℤ → ℤ → Throws Bool
  check_equation nonce public_key challenge response = do
    left ← or_throw (multiply base response) "multiply"
    scaled ← or_throw (multiply public_key challenge) "multiply"
    ok (equals left (add nonce scaled))

  -- The body of the `try`.
  unfoldable pub check_schnorr_proof : Point → SchnorrProof → Throws Bool
  check_schnorr_proof public_key proof = do
    nonce ← or_throw (from_hex proof.commitment) "fromHex"
    challenge ← or_throw (parse_bigint16 proof.challenge) "BigInt"
    response ← or_throw (parse_bigint16 proof.response) "BigInt"
    expected_challenge ← schnorr_challenge nonce public_key
    if not (beq_ℤ challenge expected_challenge)
        then ok false
        else check_equation nonce public_key challenge response

  -- `catch` answers `false`.
  unfoldable pub verify_schnorr_proof : Point → SchnorrProof → Bool
  verify_schnorr_proof public_key proof = or_false (check_schnorr_proof public_key proof)

  unfoldable pub keygen_complete : KeygenClientState → KeygenPublicShare → Throws KeyShare
  keygen_complete state backend = do
    peer_commitment ← or_throw state.peer_commitment "Missing peer commitment"
    peer_public_key ← or_throw (from_hex backend.public_share) "fromHex"
    matches ← verify_commitment peer_commitment peer_public_key
    throw_if (not matches) "Backend public share does not match commitment"
    throw_if (not (verify_schnorr_proof peer_public_key backend.proof))
        "Invalid Schnorr proof from backend"
    joint_public_key ← or_throw (multiply peer_public_key state.secret_share) "multiply"
    public_share ← or_throw (to_hex true state.public_share) "toHex"
    joint ← or_throw (to_hex true joint_public_key) "toHex"
    ok (record {
      party_id = state.party_id;
      secret_share = scalar_to_hex state.secret_share;
      public_share = public_share;
      joint_public_key = joint;
    })
