-- ===== src/Dkls/Ot.antt =====
-- Oblivious transfer and correlated oblivious transfer (src/protocols/dkls/oblivious-transfer.ts,
-- up to the batches). A scalar drawn by `randomScalar` is an argument.
pub mod Pad
pub mod Laws
mod Tests
use Prim.Native.Nat.{bit_xor}
use nero_mpc_sdk.Base.{
  ℕ, zero, suc, ◌==◌, Bool, true, false, not, ◌&&◌, ◌||◌, if◌then◌else◌, List, [], ◌∷◌, length,
}
use nero_mpc_sdk.Base.Throws.{Throws, ok, throw, ◌>>=◌, ◌>>◌, throw_if, or_throw}
use nero_mpc_sdk.Bigint.{ℤ, pos, ◌+ℤ◌, beq_ℤ}
use nero_mpc_sdk.Modular.{mod_once}
use nero_mpc_sdk.Hex.{Bytes, scalar_to_hex, parse_bigint16}
use nero_mpc_sdk.Noble.{Noble}

-- `a[i] ^ b[i]`, where a missing `b[i]` counts as 0.
unfoldable pub xor_bytes : Bytes → Bytes → Bytes
xor_bytes [] b = []
xor_bytes (x ∷ a) [] = x ∷ xor_bytes a []
xor_bytes (x ∷ a) (y ∷ b) = bit_xor x y ∷ xor_bytes a b

module _ (lib : Noble) where
  open lib use {
    Point, base, add, subtract, multiply, to_raw_bytes, sha256, hex_to_bytes, bytes_to_hex,
  }

  unfoldable pub scalar_to_bytes : ℤ → Throws Bytes
  scalar_to_bytes s = or_throw (hex_to_bytes (scalar_to_hex s)) "hexToBytes"

  unfoldable pub bytes_to_scalar : Bytes → Throws ℤ
  bytes_to_scalar b = or_throw (parse_bigint16 (bytes_to_hex b)) "BigInt"

  pub record OtSenderState : Type 0 where
    pub private_key : ℤ
    pub public_key : Point

  pub record OtReceiverState : Type 0 where
    pub choice_bit : ℕ
    pub private_key : ℤ
    pub sender_public_key : Point

  -- The fields `e0` and `e1`.
  pub record OtSenderEncrypted : Type 0 where
    pub e0 : Bytes
    pub e1 : Bytes

  -- The state and the `A` of the set-up.
  unfoldable pub ot_sender_init : ℤ → Throws (OtSenderState × Point)
  ot_sender_init a = do
    public_key ← or_throw (multiply base a) "multiply"
    ok (record { private_key = a; public_key = public_key }, public_key)

  -- The state and the `B` of the response to a set-up `A`.
  unfoldable pub ot_receiver_respond : ℤ → Point → ℕ → Throws (OtReceiverState × Point)
  ot_receiver_respond b setup choice_bit = do
    throw_if (not (choice_bit == 0) && not (choice_bit == 1)) "Choice bit must be 0 or 1"
    own ← or_throw (multiply base b) "multiply"
    ok (
      record { choice_bit = choice_bit; private_key = b; sender_public_key = setup },
      if choice_bit == 0 then own else add setup own,
    )

  unfoldable pub ot_sender_encrypt :
      OtSenderState → Point → Bytes → Bytes → Throws OtSenderEncrypted
  ot_sender_encrypt state response m0 m1 = do
    throw_if (not (length m0 == 32) || not (length m1 == 32)) "Messages must be 32 bytes"
    shared ← or_throw (multiply response state.private_key) "multiply"
    shifted ← or_throw (multiply (subtract response state.public_key) state.private_key) "multiply"
    raw0 ← or_throw (to_raw_bytes true shared) "toRawBytes"
    raw1 ← or_throw (to_raw_bytes true shifted) "toRawBytes"
    ok (record { e0 = xor_bytes m0 (sha256 raw0); e1 = xor_bytes m1 (sha256 raw1) })

  unfoldable pub ot_receiver_decrypt : OtReceiverState → OtSenderEncrypted → Throws Bytes
  ot_receiver_decrypt state encrypted = do
    shared ← or_throw (multiply state.sender_public_key state.private_key) "multiply"
    raw ← or_throw (to_raw_bytes true shared) "toRawBytes"
    ok (xor_bytes (if state.choice_bit == 0 then encrypted.e0 else encrypted.e1) (sha256 raw))

  pub record CotSenderState : Type 0 where
    pub correlation : ℤ
    pub ot_state : OtSenderState
    pub random_t : ℤ

  pub record CotReceiverState : Type 0 where
    pub choice_bit : ℕ
    pub ot_state : OtReceiverState

  unfoldable pub cot_sender_init : ℤ → ℤ → ℤ → Throws (CotSenderState × Point)
  cot_sender_init a random_t correlation = do
    (ot_state, setup) ← ot_sender_init a
    ok (record { correlation = correlation; ot_state = ot_state; random_t = random_t }, setup)

  unfoldable pub cot_receiver_respond : ℤ → Point → ℕ → Throws (CotReceiverState × Point)
  cot_receiver_respond b setup choice_bit = do
    (ot_state, response) ← ot_receiver_respond b setup choice_bit
    ok (record { choice_bit = choice_bit; ot_state = ot_state }, response)

  -- The sender's share and the two encrypted messages.
  unfoldable pub cot_sender_complete : CotSenderState → Point → Throws (ℤ × OtSenderEncrypted)
  cot_sender_complete state response = do
    m0 ← scalar_to_bytes state.random_t
    m1 ← scalar_to_bytes (mod_once (state.random_t +ℤ state.correlation) (pos lib.order))
    encrypted ← ot_sender_encrypt state.ot_state response m0 m1
    ok (state.random_t, encrypted)

  unfoldable pub cot_receiver_complete : CotReceiverState → OtSenderEncrypted → Throws ℤ
  cot_receiver_complete state encrypted = do
    decrypted ← ot_receiver_decrypt state.ot_state encrypted
    bytes_to_scalar decrypted
