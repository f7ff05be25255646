-- ===== src/Dkls/Signing.antt =====
-- Signing (src/protocols/dkls/crypto.ts, the second half). Drawn scalars and session identifiers
-- are arguments.
pub mod Nonce
pub mod Laws
mod Tests
use Prim.Native.String.{String}
use nero_mpc_sdk.Base.{
  ℕ, ◌==◌, Bool, true, false, not, ◌&&◌, if◌then◌else◌, List, [], ◌∷◌, Option, none, some,
}
use nero_mpc_sdk.Base.Throws.{Throws, ok, throw, ◌>>=◌, ◌>>◌, throw_if, or_throw}
use nero_mpc_sdk.Bigint.{ℤ, pos, ◌+ℤ◌, ◌*ℤ◌, beq_ℤ}
use nero_mpc_sdk.Modular.{mod_once, mod_inverse_once}
use nero_mpc_sdk.Hex.{Text, Bytes, scalar_to_hex, parse_bigint16, replace_0x}
use nero_mpc_sdk.Noble.{Noble}
use nero_mpc_sdk.Dkls.Keygen.{KeyShare, KeygenCommitment, commit_to_point, verify_commitment}
use nero_mpc_sdk.Dkls.Mta.{MtaAliceState, mta_alice_round1, mta_alice_round3}
use nero_mpc_sdk.Dkls.Mta.Messages.{
  MtaAliceRound1Text, MtaBobRound2Text, MtaAliceRound3Text, serialize_mta_alice_round1,
  deserialize_mta_bob_round2, serialize_mta_alice_round3,
}

pub record NonceCommitment : Type 0 where
  pub party_id : ℕ
  pub nonce_public : Text
  pub commitment : Text

pub record NonceReveal : Type 0 where
  pub party_id : ℕ
  pub nonce_public : Text

pub record PartialSignature : Type 0 where
  pub party_id : ℕ
  pub s : Text

unfoldable pub serialize_key_share : KeyShare → KeyShare
serialize_key_share key_share = record {
  party_id = key_share.party_id;
  secret_share = key_share.secret_share;
  public_share = key_share.public_share;
  joint_public_key = key_share.joint_public_key;
}

-- What `mtaAliceRound1` draws: its session identifier, the keys of its transfers and their values.
pub record MtaDraw : Type 0 where
  pub session_id : String
  pub draw_a : ℕ → ℤ
  pub draw_t : ℕ → ℤ

-- `!signingState.rValue` also holds of 0.
unfoldable pub present : Option ℤ → Option ℤ
present none = none
present (some r) = if beq_ℤ r (pos 0) then none else some r

module _ (lib : Noble) where
  open lib use {
    Point, base, order, multiply, to_hex, from_hex, affine_x, bytes_to_hex, hex_to_bytes,
  }

  pub record SigningClientState : Type 0 where
    pub party_id : ℕ
    pub key_share : KeyShare
    pub message_hash : ℤ
    pub message_hash_bytes : Bytes
    pub nonce_share : ℤ
    pub nonce_public : Point
    pub nonce_commitment : Bytes
    pub peer_nonce_commitment : Option Bytes
    pub peer_nonce_public : Option Point
    pub combined_nonce : Option Point
    pub r_value : Option ℤ

  unfoldable pub signing_init : ℤ → KeyShare → Text → Throws (SigningClientState × NonceCommitment)
  signing_init nonce_share key_share message_hash = do
    message_hash_bytes ← or_throw (hex_to_bytes (replace_0x message_hash)) "hexToBytes"
    message_hash_bigint ← or_throw (parse_bigint16 (replace_0x message_hash)) "BigInt"
    nonce_public ← or_throw (multiply base nonce_share) "multiply"
    nonce_commitment ← commit_to_point lib nonce_public
    nonce_text ← or_throw (to_hex true nonce_public) "toHex"
    ok (
      record {
        party_id = key_share.party_id;
        key_share = key_share;
        message_hash = message_hash_bigint;
        message_hash_bytes = message_hash_bytes;
        nonce_share = nonce_share;
        nonce_public = nonce_public;
        nonce_commitment = nonce_commitment;
        peer_nonce_commitment = none;
        peer_nonce_public = none;
        combined_nonce = none;
        r_value = none;
      },
      record {
        party_id = key_share.party_id;
        nonce_public = nonce_text;
        commitment = bytes_to_hex nonce_commitment;
      },
    )

  unfoldable pub signing_store_backend_commitment :
      SigningClientState → KeygenCommitment → Throws SigningClientState
  signing_store_backend_commitment state backend_commitment = do
    bytes ← or_throw (hex_to_bytes backend_commitment.commitment) "hexToBytes"
    ok (record state { peer_nonce_commitment = some bytes })

  unfoldable pub signing_process_backend_nonce :
      SigningClientState → NonceReveal → Throws SigningClientState
  signing_process_backend_nonce state backend_nonce_reveal = do
    peer_nonce_commitment ←
        or_throw state.peer_nonce_commitment
          "Must store backend commitment before processing reveal"
    peer_nonce_public ← or_throw (from_hex backend_nonce_reveal.nonce_public) "fromHex"
    matches ← verify_commitment lib peer_nonce_commitment peer_nonce_public
    throw_if (not matches) "Backend nonce does not match commitment"
    combined_nonce ← or_throw (multiply peer_nonce_public state.nonce_share) "multiply"
    ok (record state {
      peer_nonce_public = some peer_nonce_public;
      combined_nonce = some combined_nonce;
      r_value = some (mod_once (pos (affine_x combined_nonce)) (pos order));
    })

  pub record MtaClientState : Type 0 where
    pub mta1_state : MtaAliceState lib
    pub mta2_state : MtaAliceState lib
    pub mta1_share : Option ℤ
    pub mta2_share : Option ℤ

  unfoldable pub init_mta_for_signing :
      MtaDraw
      → MtaDraw
      → SigningClientState
      → Throws (MtaClientState × MtaAliceRound1Text × MtaAliceRound1Text)
  init_mta_for_signing draw1 draw2 signing_state = do
    secret_share ← or_throw (parse_bigint16 signing_state.key_share.secret_share) "BigInt"
    let inverse = mod_inverse_once signing_state.nonce_share (pos order)
    let share_over_nonce = mod_once (secret_share *ℤ inverse) (pos order)
    (mta1_state, mta1_message) ←
        mta_alice_round1 lib draw1.session_id draw1.draw_a draw1.draw_t inverse
    (mta2_state, mta2_message) ←
        mta_alice_round1 lib draw2.session_id draw2.draw_a draw2.draw_t share_over_nonce
    mta1_setup ← serialize_mta_alice_round1 lib mta1_message
    mta2_setup ← serialize_mta_alice_round1 lib mta2_message
    ok (
      record {
        mta1_state = mta1_state;
        mta2_state = mta2_state;
        mta1_share = none;
        mta2_share = none;
      },
      mta1_setup,
      mta2_setup,
    )

  unfoldable pub process_mta_round2_response :
      MtaClientState
      → MtaBobRound2Text
      → MtaBobRound2Text
      → Throws (MtaClientState × MtaAliceRound3Text × MtaAliceRound3Text)
  process_mta_round2_response mta_state mta1_response mta2_response = do
    mta1_bob_msg ← deserialize_mta_bob_round2 lib mta1_response
    (updated_mta1_state, mta1_message, mta1_result) ←
        mta_alice_round3 lib mta_state.mta1_state mta1_bob_msg
    mta2_bob_msg ← deserialize_mta_bob_round2 lib mta2_response
    (updated_mta2_state, mta2_message, mta2_result) ←
        mta_alice_round3 lib mta_state.mta2_state mta2_bob_msg
    ok (
      record {
        mta1_state = updated_mta1_state;
        mta2_state = updated_mta2_state;
        mta1_share = some mta1_result.share;
        mta2_share = some mta2_result.share;
      },
      serialize_mta_alice_round3 lib mta1_message,
      serialize_mta_alice_round3 lib mta2_message,
    )

  unfoldable pub compute_client_partial_signature :
      SigningClientState → MtaClientState → Throws PartialSignature
  compute_client_partial_signature signing_state mta_state = do
    mta1_share ← or_throw mta_state.mta1_share "MtA shares not computed yet"
    mta2_share ← or_throw mta_state.mta2_share "MtA shares not computed yet"
    r ← or_throw (present signing_state.r_value) "Signing state missing rValue"
    ok (record {
      party_id = signing_state.party_id;
      s =
          scalar_to_hex
            (mod_once (signing_state.message_hash *ℤ mta1_share +ℤ r *ℤ mta2_share) (pos order));
    })
