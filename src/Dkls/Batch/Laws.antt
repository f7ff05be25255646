-- ===== src/Dkls/Batch/Laws.antt =====
-- The shares of a whole batch add up to the product.
use nero_mpc_sdk.Base.{ℕ, ◌*◌, ◌/◌, ◌^◌, ◌<◌, ◌≡◌, refl, ap, arith, All, true, List, ==_iff}
use nero_mpc_sdk.Base.Throws.{Throws, ok, ◌>>=◌}
use nero_mpc_sdk.Bigint.{
  ℤ, pos, ◌+ℤ◌, ◌-ℤ◌, ◌*ℤ◌, residue, residue-lt, residue_congr, Cong, Cong-residue, Cong-of_eq,
  Cong-trans, Cong-+ℤ, Cong--ℤ, Cong-modulus, zero-+ℤ, +ℤ-zero, by_differences₃, difference_laws,
  sub_ℕ_ext,
}
use nero_mpc_sdk.Modular.{mod_once-eq-residue}
use nero_mpc_sdk.Noble.{Noble, Lawful, order_pos}
use nero_mpc_sdk.Dkls.Ot.{OtSenderEncrypted}
use nero_mpc_sdk.Dkls.Batch.{
  scalar_bits, BatchSenderState, BatchReceiverState, batch_sender_init, batch_receiver_respond,
  batch_sender_complete, batch_receiver_complete, verify_batch_cot,
}
use nero_mpc_sdk.Dkls.Wire.{IsFinite, IsBytes}
use nero_mpc_sdk.Dkls.Batch.Bits.{low_bits, low_bits_all}
use nero_mpc_sdk.Dkls.Batch.Loops.{Draws, IsGood, batch_run}

cancel_shares : (n s t x : ℤ) → (n -ℤ s) +ℤ (s +ℤ x) ≡ x +ℤ n
cancel_shares n s t x =
    by_differences₃ (λ n s x. (n -ℤ s) +ℤ (s +ℤ x) ≡ x +ℤ n)
      (λ x y u v w z. simp difference_laws (sub_ℕ_ext _ _ _ _ (omega arith))) n s x

module _ (lib : Noble) (laws : Lawful lib) (draws : Draws) (a : ℤ) (b : ℕ)
    (good : IsGood lib.order draws b) (fits : b < 2 ^ 256) where
  open lib use {order}

  -- Every phase of the batch returns, and its shares.
  pub record BatchEnd : Type 0 where
    pub sender : BatchSenderState lib
    pub setups : List lib.Point
    pub receiver : BatchReceiverState lib
    pub responses : List lib.Point
    pub messages : List (OtSenderEncrypted lib)
    pub sender_share : ℕ
    pub receiver_share : ℕ
    pub init :
        batch_sender_init lib (λ i. pos (draws.sender_key i)) (λ i. pos (draws.random_t i)) a
        ≡ ok (sender, setups)
    pub respond :
        batch_receiver_respond lib (λ i. pos (draws.receiver_key i)) setups (pos b)
        ≡ ok (receiver, responses)
    pub complete : batch_sender_complete lib sender responses ≡ ok (pos sender_share, messages)
    pub receive : batch_receiver_complete lib receiver messages ≡ ok (pos receiver_share)
    pub setups_finite : All (IsFinite lib) setups
    pub responses_finite : All (IsFinite lib) responses
    pub messages_bytes : All (IsBytes lib) messages
    pub sender_lt : sender_share < order
    pub receiver_lt : receiver_share < order
    pub product : Cong order (pos sender_share +ℤ pos receiver_share) (a *ℤ pos b)

  pub batch_end : BatchEnd
  unfolding batch_sender_init batch_receiver_respond batch_sender_complete batch_receiver_complete
  batch_end =
      let n_pos = order_pos lib laws in
      let run = batch_run lib laws draws a b good scalar_bits 0 in
      let total = residue order (pos 0 +ℤ run.sum_t) in
      record {
        sender = record { input_a = a; cot_states = run.states };
        setups = run.setups;
        receiver = record { input_b = pos b; cot_states = run.receivers };
        responses = run.responses;
        messages = run.messages;
        sender_share = residue order (pos order -ℤ pos total);
        receiver_share = residue order (pos 0 +ℤ run.sum_share);
        init = rw run.init;
        respond = rw run.respond;
        complete =
            rw (run.complete 0 n_pos, mod_once-eq-residue order n_pos (pos order -ℤ pos total));
        receive = run.receive 0 n_pos;
        setups_finite = run.setups_finite;
        responses_finite = run.responses_finite;
        messages_bytes = run.messages_bytes;
        sender_lt = residue-lt order _ n_pos;
        receiver_lt = residue-lt order _ n_pos;
        product =
            Cong-trans
              (Cong-+ℤ
                (Cong-trans (Cong-residue order (pos order -ℤ pos total) n_pos) (
                  Cong--ℤ (Cong-of_eq refl) (
                    Cong-trans (Cong-residue order (pos 0 +ℤ run.sum_t) n_pos)
                      (Cong-of_eq (zero-+ℤ run.sum_t)))))
                (Cong-trans (Cong-residue order (pos 0 +ℤ run.sum_share) n_pos)
                  (Cong-trans (Cong-of_eq (zero-+ℤ run.sum_share)) run.correlated)))
              (Cong-trans
                (Cong-of_eq (
                  cancel_shares (pos order) run.sum_t (pos 0)
                    (a *ℤ pos (2 ^ 0 * low_bits scalar_bits (b / 2 ^ 0)))))
                (Cong-trans
                  (Cong-+ℤ (Cong-of_eq (ap (λ t. a *ℤ pos t) all_bits)) (Cong-modulus order))
                  (Cong-of_eq (+ℤ-zero _))));
      }
    where
      all_bits : 2 ^ 0 * low_bits 256 (b / 2 ^ 0) ≡ b
      all_bits = omega (arith, low_bits_all 256 (b / 2 ^ 0) (omega arith))

-- The four phases in a row.
abbrev pub batch_exchange : (lib : Noble) → Draws → ℤ → ℤ → Throws (ℤ × ℤ)
batch_exchange lib draws a b = do
  (sender, setups) ←
      batch_sender_init lib (λ i. pos (draws.sender_key i)) (λ i. pos (draws.random_t i)) a
  (receiver, responses) ← batch_receiver_respond lib (λ i. pos (draws.receiver_key i)) setups b
  (sender_share, messages) ← batch_sender_complete lib sender responses
  receiver_share ← batch_receiver_complete lib receiver messages
  ok (sender_share, receiver_share)

-- For any multiplier `a`, a multiplier `b` below 2 ^ 256 and good draws (all in the range of
-- `randomScalar`, those of one round not meeting), the batch does not throw, both shares lie below
-- the order, and `verifyBatchCOT` accepts them: their sum is the product up to the order.
pub batch_exchange_shares :
    (lib : Noble) (laws : Lawful lib) (draws : Draws) (a : ℤ) (b : ℕ)
    → IsGood lib.order draws b
    → b < 2 ^ 256
    → (x : ℕ) × (y : ℕ) × (batch_exchange lib draws a (pos b) ≡ ok (pos x, pos y))
      × (x < lib.order)
      × (y < lib.order)
      × (residue lib.order (pos x +ℤ pos y) ≡ residue lib.order (a *ℤ pos b))
      × (verify_batch_cot lib a (pos b) (pos x) (pos y) ≡ true)
unfolding verify_batch_cot
batch_exchange_shares lib laws draws a b good fits =
    let n_pos = order_pos lib laws in
    let e = batch_end lib laws draws a b good fits in
    let same = residue_congr n_pos e.product in
    (
      e.sender_share,
      e.receiver_share,
      rw (e.init, e.respond, e.complete, e.receive),
      e.sender_lt,
      e.receiver_lt,
      same,
      rw
          (
            mod_once-eq-residue lib.order n_pos (a *ℤ pos b),
            mod_once-eq-residue lib.order n_pos (pos e.sender_share +ℤ pos e.receiver_share),
            same,
          )
          ((==_iff _ _).1 refl),
    )
