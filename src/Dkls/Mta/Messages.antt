-- ===== src/Dkls/Mta/Messages.antt =====
-- The messages of a conversion as texts (src/protocols/dkls/mta-protocol.ts), and one conversion
-- whose messages all pass through their texts.
use text.Mathlib.TextPositions.{eq_refl}
use Prim.Native.String.{String}
use nero_mpc_sdk.Base.{ℕ, ◌^◌, ◌<◌, ◌≡◌, List, none, some}
use nero_mpc_sdk.Base.Throws.{Throws, ok, ◌>>=◌}
use nero_mpc_sdk.Bigint.{ℤ, pos, ◌+ℤ◌, ◌*ℤ◌, Cong}
use nero_mpc_sdk.Hex.{Text}
use nero_mpc_sdk.Noble.{Noble, Lawful}
use nero_mpc_sdk.Dkls.Wire.{
  EncryptedText, serialize_batch_cot_setup, deserialize_batch_cot_setup,
  serialize_batch_cot_response, deserialize_batch_cot_response, serialize_batch_cot_encrypted,
  deserialize_batch_cot_encrypted, setup_round_trip, response_round_trip, encrypted_round_trip,
}
use nero_mpc_sdk.Dkls.Batch.Loops.{Draws, IsGood}
use nero_mpc_sdk.Dkls.Batch.Laws.{batch_end}
use nero_mpc_sdk.Dkls.Mta.{
  MtaAliceState, MtaBobState, MtaAliceRound1, MtaBobRound2, MtaAliceRound3, mta_alice_round1,
  mta_bob_round2, mta_alice_round3, mta_bob_round4,
}

pub record MtaAliceRound1Text : Type 0 where
  pub session_id : String
  pub setup : List Text

pub record MtaBobRound2Text : Type 0 where
  pub session_id : String
  pub response : List Text

pub record MtaAliceRound3Text : Type 0 where
  pub session_id : String
  pub encrypted : List EncryptedText

module _ (lib : Noble) where
  unfoldable pub serialize_mta_alice_round1 : MtaAliceRound1 lib → Throws MtaAliceRound1Text
  serialize_mta_alice_round1 msg = do
    setup ← serialize_batch_cot_setup lib msg.setup
    ok (record { session_id = msg.session_id; setup = setup })

  unfoldable pub deserialize_mta_alice_round1 : MtaAliceRound1Text → Throws (MtaAliceRound1 lib)
  deserialize_mta_alice_round1 serialized = do
    setup ← deserialize_batch_cot_setup lib serialized.setup
    ok (record { session_id = serialized.session_id; setup = setup })

  unfoldable pub serialize_mta_bob_round2 : MtaBobRound2 lib → Throws MtaBobRound2Text
  serialize_mta_bob_round2 msg = do
    response ← serialize_batch_cot_response lib msg.response
    ok (record { session_id = msg.session_id; response = response })

  unfoldable pub deserialize_mta_bob_round2 : MtaBobRound2Text → Throws (MtaBobRound2 lib)
  deserialize_mta_bob_round2 serialized = do
    response ← deserialize_batch_cot_response lib serialized.response
    ok (record { session_id = serialized.session_id; response = response })

  unfoldable pub serialize_mta_alice_round3 : MtaAliceRound3 lib → MtaAliceRound3Text
  serialize_mta_alice_round3 msg = record {
    session_id = msg.session_id;
    encrypted = serialize_batch_cot_encrypted lib msg.encrypted;
  }

  unfoldable pub deserialize_mta_alice_round3 : MtaAliceRound3Text → Throws (MtaAliceRound3 lib)
  deserialize_mta_alice_round3 serialized = do
    encrypted ← deserialize_batch_cot_encrypted lib serialized.encrypted
    ok (record { session_id = serialized.session_id; encrypted = encrypted })

module _ (lib : Noble) (laws : Lawful lib) (draws : Draws) (session_id : String) (a : ℤ) (b : ℕ)
    (good : IsGood lib.order draws b) (fits : b < 2 ^ 256) where
  -- A conversion of `a` and `b`, step by step.
  pub record Conversion : Type 0 where
    pub alice : MtaAliceState lib
    pub bob : MtaBobState lib
    pub message1 : MtaAliceRound1 lib
    pub message2 : MtaBobRound2 lib
    pub message3 : MtaAliceRound3 lib
    pub text1 : MtaAliceRound1Text
    pub text2 : MtaBobRound2Text
    pub alice_share : ℕ
    pub bob_share : ℕ
    pub round1 :
        mta_alice_round1 lib session_id
          (λ i. pos (draws.sender_key i))
          (λ i. pos (draws.random_t i))
          a
        ≡ ok (alice, message1)
    pub round2 :
        mta_bob_round2 lib (λ i. pos (draws.receiver_key i)) (pos b) message1 ≡ ok (bob, message2)
    pub round3 :
        mta_alice_round3 lib alice message2
        ≡ ok (
          record alice { share = some (pos alice_share) },
          message3,
          record { session_id = session_id; share = pos alice_share },
        )
    pub round4 :
        mta_bob_round4 lib bob message3
        ≡ ok (record { session_id = session_id; share = pos bob_share })
    pub written1 : serialize_mta_alice_round1 lib message1 ≡ ok text1
    pub read1 : deserialize_mta_alice_round1 lib text1 ≡ ok message1
    pub written2 : serialize_mta_bob_round2 lib message2 ≡ ok text2
    pub read2 : deserialize_mta_bob_round2 lib text2 ≡ ok message2
    pub read3 :
        deserialize_mta_alice_round3 lib (serialize_mta_alice_round3 lib message3) ≡ ok message3
    pub product : Cong lib.order (pos alice_share +ℤ pos bob_share) (a *ℤ pos b)

  pub conversion : Conversion
  unfolding mta_alice_round1 mta_bob_round2 mta_alice_round3 mta_bob_round4
      serialize_mta_alice_round1 deserialize_mta_alice_round1 serialize_mta_bob_round2
      deserialize_mta_bob_round2 serialize_mta_alice_round3 deserialize_mta_alice_round3
  conversion =
      let e = batch_end lib laws draws a b good fits in
      let (setup_text, setup_written, setup_read) =
        setup_round_trip lib laws e.setups e.setups_finite in
      let (response_text, response_written, response_read) =
        response_round_trip lib laws e.responses e.responses_finite in
      record {
        alice = record { session_id = session_id; input_a = a; cot_state = e.sender; share = none };
        bob = record {
          session_id = session_id;
          input_b = pos b;
          cot_state = some e.receiver;
          share = none;
        };
        message1 = record { session_id = session_id; setup = e.setups };
        message2 = record { session_id = session_id; response = e.responses };
        message3 = record { session_id = session_id; encrypted = e.messages };
        text1 = record { session_id = session_id; setup = setup_text };
        text2 = record { session_id = session_id; response = response_text };
        alice_share = e.sender_share;
        bob_share = e.receiver_share;
        round1 = rw e.init;
        round2 = rw e.respond;
        round3 = rw (eq_refl session_id, e.complete);
        round4 = rw (eq_refl session_id, e.receive);
        written1 = rw setup_written;
        read1 = rw setup_read;
        written2 = rw response_written;
        read2 = rw response_read;
        read3 = rw (encrypted_round_trip lib laws e.messages e.messages_bytes);
        product = e.product;
      }
