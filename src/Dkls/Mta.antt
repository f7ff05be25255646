-- ===== src/Dkls/Mta.antt =====
-- Multiplicative-to-additive conversion and its proof of knowledge
-- (src/protocols/dkls/mta-protocol.ts). Session identifiers and scalars that the code draws are
-- arguments; the serialisations are those of Dkls/Wire.
pub mod Laws
pub mod Messages
mod Tests
use text.Mathlib.Text.{◌==◌ as str_eq}
use Prim.Native.String.{String}
use nero_mpc_sdk.Base.{
  ℕ, Bool, true, false, not, if◌then◌else◌, List, [], ◌∷◌, ◌++◌, Option, none, some,
}
use nero_mpc_sdk.Base.Throws.{Throws, ok, throw, ◌>>=◌, ◌>>◌, throw_if, or_throw, or_false}
use nero_mpc_sdk.Bigint.{ℤ, pos, ◌+ℤ◌, ◌*ℤ◌, beq_ℤ}
use nero_mpc_sdk.Modular.{mod_once}
use nero_mpc_sdk.Hex.{Bytes, parse_bigint16}
use nero_mpc_sdk.Noble.{Noble}
use nero_mpc_sdk.Dkls.Challenge.{hash_challenge}
use nero_mpc_sdk.Dkls.Ot.{OtSenderEncrypted}
use nero_mpc_sdk.Dkls.Batch.{
  BatchSenderState, BatchReceiverState, batch_sender_init, batch_receiver_respond,
  batch_sender_complete, batch_receiver_complete,
}

module _ (lib : Noble) where
  open lib use {
    Point, base, order, multiply, add, equals, to_raw_bytes, from_bytes, sha256, bytes_to_hex,
  }

  pub record MtaAliceState : Type 0 where
    pub session_id : String
    pub input_a : ℤ
    pub cot_state : BatchSenderState lib
    pub share : Option ℤ

  pub record MtaBobState : Type 0 where
    pub session_id : String
    pub input_b : ℤ
    pub cot_state : Option (BatchReceiverState lib)
    pub share : Option ℤ

  pub record MtaAliceRound1 : Type 0 where
    pub session_id : String
    pub setup : List Point

  pub record MtaBobRound2 : Type 0 where
    pub session_id : String
    pub response : List Point

  pub record MtaAliceRound3 : Type 0 where
    pub session_id : String
    pub encrypted : List (OtSenderEncrypted lib)

  pub record MtaResult : Type 0 where
    pub session_id : String
    pub share : ℤ

  unfoldable pub mta_alice_round1 :
      String → (ℕ → ℤ) → (ℕ → ℤ) → ℤ → Throws (MtaAliceState × MtaAliceRound1)
  mta_alice_round1 session_id draw_a draw_t input_a = do
    (cot_state, setup) ← batch_sender_init lib draw_a draw_t input_a
    ok (
      record { session_id = session_id; input_a = input_a; cot_state = cot_state; share = none },
      record { session_id = session_id; setup = setup },
    )

  unfoldable pub mta_bob_round2 : (ℕ → ℤ) → ℤ → MtaAliceRound1 → Throws (MtaBobState × MtaBobRound2)
  mta_bob_round2 draw_b input_b alice_message = do
    (cot_state, response) ← batch_receiver_respond lib draw_b alice_message.setup input_b
    ok (
      record {
        session_id = alice_message.session_id;
        input_b = input_b;
        cot_state = some cot_state;
        share = none;
      },
      record { session_id = alice_message.session_id; response = response },
    )

  unfoldable pub mta_alice_round3 :
      MtaAliceState → MtaBobRound2 → Throws (MtaAliceState × MtaAliceRound3 × MtaResult)
  mta_alice_round3 state bob_message = do
    throw_if (not (str_eq state.session_id bob_message.session_id)) "Session ID mismatch"
    (sender_share, encrypted) ← batch_sender_complete lib state.cot_state bob_message.response
    ok (
      record state { share = some sender_share },
      record { session_id = state.session_id; encrypted = encrypted },
      record { session_id = state.session_id; share = sender_share },
    )

  unfoldable pub mta_bob_round4 : MtaBobState → MtaAliceRound3 → Throws MtaResult
  mta_bob_round4 state alice_message = do
    throw_if (not (str_eq state.session_id alice_message.session_id)) "Session ID mismatch"
    cot_state ← or_throw state.cot_state "Bob's COT state not initialized"
    share ← batch_receiver_complete lib cot_state alice_message.encrypted
    ok (record { session_id = state.session_id; share = share })

  unfoldable pub verify_mta_result : ℤ → ℤ → ℤ → ℤ → Bool
  verify_mta_result input_a input_b alice_share bob_share =
      let expected = mod_once (input_a *ℤ input_b) (pos order) in
      let actual = mod_once (alice_share +ℤ bob_share) (pos order) in beq_ℤ expected actual

  -- Both parties in one process; the result is Alice's share and Bob's.
  unfoldable pub execute_mta : String → (ℕ → ℤ) → (ℕ → ℤ) → (ℕ → ℤ) → ℤ → ℤ → Throws (ℤ × ℤ)
  execute_mta session_id draw_a draw_t draw_b input_a input_b = do
    (alice1, message1) ← mta_alice_round1 session_id draw_a draw_t input_a
    (bob2, message2) ← mta_bob_round2 draw_b input_b message1
    (alice3, message3, alice_result) ← mta_alice_round3 alice1 message2
    bob_result ← mta_bob_round4 bob2 message3
    ok (alice_result.share, bob_result.share)

  pub record MtawcBobProof : Type 0 where
    pub commitment : Bytes
    pub response : ℤ

  unfoldable pub mtawc_bob_generate_proof : ℤ → ℤ → Point → Throws MtawcBobProof
  mtawc_bob_generate_proof k input_b public_b = do
    nonce ← or_throw (multiply base k) "multiply"
    commitment_bytes ← or_throw (to_raw_bytes true nonce) "toRawBytes"
    public_bytes ← or_throw (to_raw_bytes true public_b) "toRawBytes"
    challenge ← hash_challenge lib (commitment_bytes ++ public_bytes)
    ok (record {
      commitment = commitment_bytes;
      response = mod_once (k +ℤ challenge *ℤ input_b) (pos order);
    })

  -- The body of the `try`.
  unfoldable pub mtawc_alice_check : Point → MtawcBobProof → Throws Bool
  mtawc_alice_check public_b proof = do
    nonce ← or_throw (from_bytes proof.commitment) "fromHex"
    public_bytes ← or_throw (to_raw_bytes true public_b) "toRawBytes"
    challenge ← hash_challenge lib (proof.commitment ++ public_bytes)
    left ← or_throw (multiply base proof.response) "multiply"
    scaled ← or_throw (multiply public_b challenge) "multiply"
    ok (equals left (add nonce scaled))

  -- `catch` answers `false`.
  unfoldable pub mtawc_alice_verify_proof : Point → MtawcBobProof → Bool
  mtawc_alice_verify_proof public_b proof = or_false (mtawc_alice_check public_b proof)
