-- ===== src/Dkls/Batch.antt =====
-- The batch of correlated transfers, one for each bit of a scalar
-- (src/protocols/dkls/oblivious-transfer.ts, from `SCALAR_BITS` on). The scalars that
-- `randomScalar` returns in round `j` are the values at `j` of functions.
pub mod Round
pub mod Bits
pub mod Loops
pub mod Laws
mod Tests
use nero_mpc_sdk.Base.{
  ℕ, zero, suc, ◌+◌, ◌-◌, ◌/◌, ◌%◌, ◌^◌, Bool, if◌then◌else◌, List, [], ◌∷◌, Option, none, some,
}
use nero_mpc_sdk.Base.Throws.{Throws, ok, throw, ◌>>=◌, or_throw}
use nero_mpc_sdk.Bigint.{ℤ, pos, negsuc, ◌+ℤ◌, ◌-ℤ◌, ◌*ℤ◌, beq_ℤ}
use nero_mpc_sdk.Modular.{mod_once}
use nero_mpc_sdk.Hex.{Text}
use nero_mpc_sdk.Noble.{Noble}
use nero_mpc_sdk.Dkls.Ot.{
  OtSenderEncrypted, CotSenderState, CotReceiverState, cot_sender_init, cot_receiver_respond,
  cot_sender_complete, cot_receiver_complete,
}

-- `Number((b >> BigInt(j)) & 1n)`; a negative number has ones on the left.
unfoldable pub bit : ℤ → ℕ → ℕ
bit (pos b) j = b / 2 ^ j % 2
bit (negsuc b) j = 1 - b / 2 ^ j % 2

abbrev pub scalar_bits : ℕ
scalar_bits = 256

module _ (lib : Noble) where
  open lib use {Point, order}

  pub record BatchSenderState : Type 0 where
    pub input_a : ℤ
    pub cot_states : List (CotSenderState lib)

  pub record BatchReceiverState : Type 0 where
    pub input_b : ℤ
    pub cot_states : List (CotReceiverState lib)

  -- Each loop takes the rounds left and, where it reads one, the index `j`.
  unfoldable pub sender_init_loop :
      (ℕ → ℤ) → (ℕ → ℤ) → ℤ → ℕ → ℕ → Throws (List (CotSenderState lib) × List Point)
  sender_init_loop draw_a draw_t input_a zero j = ok ([], [])
  sender_init_loop draw_a draw_t input_a (suc left) j = do
    let correlation = mod_once (input_a *ℤ pos (2 ^ j)) (pos order)
    (state, setup) ← cot_sender_init lib (draw_a j) (draw_t j) correlation
    (states, setups) ← sender_init_loop draw_a draw_t input_a left (suc j)
    ok (state ∷ states, setup ∷ setups)

  unfoldable pub batch_sender_init : (ℕ → ℤ) → (ℕ → ℤ) → ℤ → Throws (BatchSenderState × List Point)
  batch_sender_init draw_a draw_t input_a = do
    (states, setups) ← sender_init_loop draw_a draw_t input_a scalar_bits 0
    ok (record { input_a = input_a; cot_states = states }, setups)

  -- A list that is too short gives `undefined`, whose use throws.
  unfoldable pub receiver_respond_loop :
      (ℕ → ℤ) → ℤ → ℕ → ℕ → List Point → Throws (List (CotReceiverState lib) × List Point)
  receiver_respond_loop draw_b input_b zero j setups = ok ([], [])
  receiver_respond_loop draw_b input_b (suc left) j [] = throw "undefined"
  receiver_respond_loop draw_b input_b (suc left) j (setup ∷ setups) = do
    (state, response) ← cot_receiver_respond lib (draw_b j) setup (bit input_b j)
    (states, responses) ← receiver_respond_loop draw_b input_b left (suc j) setups
    ok (state ∷ states, response ∷ responses)

  unfoldable pub batch_receiver_respond :
      (ℕ → ℤ) → List Point → ℤ → Throws (BatchReceiverState × List Point)
  batch_receiver_respond draw_b setups input_b = do
    (states, responses) ← receiver_respond_loop draw_b input_b scalar_bits 0 setups
    ok (record { input_b = input_b; cot_states = states }, responses)

  unfoldable pub sender_complete_loop :
      ℕ → List (CotSenderState lib) → List Point → ℤ → Throws (ℤ × List (OtSenderEncrypted lib))
  sender_complete_loop zero states responses total_random = ok (total_random, [])
  sender_complete_loop (suc left) (state ∷ states) (response ∷ responses) total_random = do
    (sender_share, encrypted) ← cot_sender_complete lib state response
    (total, rest) ←
        sender_complete_loop left states responses
          (mod_once (total_random +ℤ sender_share) (pos order))
    ok (total, encrypted ∷ rest)
  sender_complete_loop (suc left) _ _ total_random = throw "undefined"

  -- The sender's share and the encrypted messages.
  unfoldable pub batch_sender_complete :
      BatchSenderState → List Point → Throws (ℤ × List (OtSenderEncrypted lib))
  batch_sender_complete state responses = do
    (total_random, encrypted) ← sender_complete_loop scalar_bits state.cot_states responses (pos 0)
    ok (mod_once (pos order -ℤ total_random) (pos order), encrypted)

  unfoldable pub receiver_complete_loop :
      ℕ → List (CotReceiverState lib) → List (OtSenderEncrypted lib) → ℤ → Throws ℤ
  receiver_complete_loop zero states encrypted total_share = ok total_share
  receiver_complete_loop (suc left) (state ∷ states) (message ∷ encrypted) total_share = do
    share ← cot_receiver_complete lib state message
    receiver_complete_loop left states encrypted (mod_once (total_share +ℤ share) (pos order))
  receiver_complete_loop (suc left) _ _ total_share = throw "undefined"

  unfoldable pub batch_receiver_complete :
      BatchReceiverState → List (OtSenderEncrypted lib) → Throws ℤ
  batch_receiver_complete state encrypted =
      receiver_complete_loop scalar_bits state.cot_states encrypted (pos 0)

  unfoldable pub verify_batch_cot : ℤ → ℤ → ℤ → ℤ → Bool
  verify_batch_cot input_a input_b sender_share receiver_share =
      let expected = mod_once (input_a *ℤ input_b) (pos order) in
      let actual = mod_once (sender_share +ℤ receiver_share) (pos order) in beq_ℤ expected actual
