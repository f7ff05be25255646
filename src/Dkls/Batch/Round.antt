-- ===== src/Dkls/Batch/Round.antt =====
-- One round of the batch.
use nero_mpc_sdk.Base.{
  ℕ, zero, suc, ◌^◌, ◌<◌, ◌≡◌, ◌≢◌, sym, ap, ◌∙◌, arith, ◌==◌, if◌then◌else◌, All,
}
use nero_mpc_sdk.Base.Throws.{ok}
use nero_mpc_sdk.Bigint.{
  ℤ, pos, ◌+ℤ◌, ◌*ℤ◌, residue, residue-lt, Cong, Cong-residue, Cong-of_eq, Cong-trans, +ℤ-zero,
  zero-*ℤ, one-*ℤ,
}
use nero_mpc_sdk.Modular.{mod_once-eq-residue}
use nero_mpc_sdk.Noble.{Noble, Lawful, IsByte, order_pos}
use nero_mpc_sdk.Dkls.Ot.{
  OtSenderEncrypted, CotSenderState, CotReceiverState, cot_sender_init, cot_receiver_respond,
  cot_sender_complete, cot_receiver_complete, bytes_to_scalar,
}
use nero_mpc_sdk.Dkls.Ot.Pad.{scalar_to_bytes-ScalarBytes, ScalarBytes}
use nero_mpc_sdk.Dkls.Ot.Laws.{IsScalar, IsFresh, OtRun, ot_run}

module _ (lib : Noble) (laws : Lawful lib) where
  open lib use {order}

  -- A correlated transfer leaves the sender `t` and the receiver `t + c * correlation`.
  pub record CotRun (a t b c : ℕ) (correlation : ℤ) : Type 0 where
    pub sender : CotSenderState lib
    pub setup : lib.Point
    pub receiver : CotReceiverState lib
    pub response : lib.Point
    pub encrypted : OtSenderEncrypted lib
    pub share : ℕ
    pub init : cot_sender_init lib (pos a) (pos t) correlation ≡ ok (sender, setup)
    pub respond : cot_receiver_respond lib (pos b) setup c ≡ ok (receiver, response)
    pub complete : cot_sender_complete lib sender response ≡ ok (pos t, encrypted)
    pub receive : cot_receiver_complete lib receiver encrypted ≡ ok (pos share)
    pub setup_finite : setup ≢ lib.infinity
    pub response_finite : response ≢ lib.infinity
    pub encrypted_bytes : All IsByte encrypted.e0 × All IsByte encrypted.e1
    pub correlated : Cong order (pos share) (pos t +ℤ pos c *ℤ correlation)

  fits : (n : ℕ) → n < order → n < 2 ^ 256
  fits n h = omega (arith, laws.order_size)

  module _ (a t b : ℕ) (correlation : ℤ) (ha : IsScalar order a) (ht : IsScalar order t)
      (hb : IsScalar order b) where
    abbrev shifted : ℕ
    shifted = residue order (pos t +ℤ correlation)

    m0 : ScalarBytes lib t
    m0 = scalar_to_bytes-ScalarBytes lib laws t (fits t ht.1)

    m1 : ScalarBytes lib shifted
    m1 =
        scalar_to_bytes-ScalarBytes lib laws shifted
          (fits shifted (residue-lt order (pos t +ℤ correlation) (order_pos lib laws)))

    CotRun-of :
        (c : ℕ) (share : ℕ)
        → bytes_to_scalar lib (if c == 0 then m0.bytes else m1.bytes) ≡ ok (pos share)
        → Cong order (pos share) (pos t +ℤ pos c *ℤ correlation)
        → OtRun lib laws a b c m0.bytes m1.bytes
        → CotRun a t b c correlation
    unfolding cot_sender_init cot_receiver_respond cot_sender_complete cot_receiver_complete
    CotRun-of c share read cong run = record {
      sender = record { correlation = correlation; ot_state = run.sender; random_t = pos t };
      setup = run.setup;
      receiver = record { choice_bit = c; ot_state = run.receiver };
      response = run.response;
      encrypted = run.encrypted;
      share = share;
      init = rw run.init;
      respond = rw run.respond;
      complete = rw (
        m0.written,
        mod_once-eq-residue order (order_pos lib laws) (pos t +ℤ correlation),
        m1.written,
        run.encrypt,
      );
      receive = rw run.decrypt read;
      setup_finite = run.setup_finite;
      response_finite = run.response_finite;
      encrypted_bytes = run.encrypted_bytes;
      correlated = cong;
    }

    pub cot_run : (c : ℕ) → c < 2 → IsFresh order a b c → CotRun a t b c correlation
    cot_run zero h fresh =
        CotRun-of 0 t m0.read
          (Cong-of_eq (sym (ap (λ s. pos t +ℤ s) (zero-*ℤ correlation) ∙ +ℤ-zero (pos t))))
          (ot_run lib laws a b ha hb m0.bytes m1.bytes (m0.length_bytes, m0.all_bytes)
            (m1.length_bytes, m1.all_bytes) 0 h fresh)
    cot_run (suc zero) h fresh =
        CotRun-of 1 shifted m1.read
          (Cong-trans (Cong-residue order (pos t +ℤ correlation) (order_pos lib laws))
            (Cong-of_eq (ap (λ s. pos t +ℤ s) (sym (one-*ℤ correlation)))))
          (ot_run lib laws a b ha hb m0.bytes m1.bytes (m0.length_bytes, m0.all_bytes)
            (m1.length_bytes, m1.all_bytes) 1 h fresh)
    cot_run (suc (suc c)) h fresh = absurd (omega arith)
