-- ===== src/Dkls/Ot/Laws.antt =====
-- The receiver gets the message that its bit chose, and nothing throws.
use nero_mpc_sdk.Base.{
  ℕ, zero, suc, ◌+◌, ◌-◌, ◌<◌, ◌≡◌, ◌≢◌, refl, sym, ap, ◌∙◌, arith, ◌==◌, if◌then◌else◌, true, some,
  length, All,
}
use native.Mathlib.Decide.{dec_lt}
use nero_mpc_sdk.Base.Throws.{Throws, ok, ◌>>=◌}
use nero_mpc_sdk.Bigint.{
  ℤ, pos, ◌+ℤ◌, ◌-ℤ◌, ◌*ℤ◌, *ℤ_comm, pos-+, Cong, Cong-of_eq, Cong-trans, Cong-symm, Cong-+ℤ,
  Cong-small, Cong-modulus, sub-add_cancel_ℤ, add-sub_cancel_ℤ, +ℤ-zero, zero-+ℤ,
}
use nero_mpc_sdk.Hex.{Bytes}
use nero_mpc_sdk.Noble.{
  Noble, Lawful, IsByte, scale, multiply-scale, scale-+ℤ, scale-*ℤ, scale--ℤ, scale-base_zero,
  product_nonzero, scalar_nonzero, order_pos,
}
use nero_mpc_sdk.Dkls.Ot.{
  xor_bytes, OtSenderState, OtReceiverState, OtSenderEncrypted, ot_sender_init, ot_receiver_respond,
  ot_sender_encrypt, ot_receiver_decrypt,
}
use nero_mpc_sdk.Dkls.Ot.Pad.{xor_bytes_undo, xor_bytes-IsByte}

-- What `randomScalar` returns: a number from 1 up to the order.
abbrev pub IsScalar : ℕ → ℕ → Type 0
IsScalar order k = (0 < k) × (k < order)

-- The two draws do not meet: otherwise one of the two keys is the point at infinity.
abbrev pub IsFresh : ℕ → ℕ → ℕ → ℕ → Type 0
IsFresh order a b zero = a ≢ b
IsFresh order a b (suc c) = a + b ≢ order

abbrev pub IsMessage : Bytes → Type 0
IsMessage m = (length m ≡ 32) × All IsByte m

module _ (lib : Noble) (laws : Lawful lib) where
  open lib use {base, multiply, add, subtract, order, to_raw_bytes, sha256}

  -- A multiple of the generator that is not the point at infinity has an encoding.
  pub raw_multiple :
      (x : ℤ)
      → ¬ (Cong order x (pos 0))
      → (b : Bytes) × (to_raw_bytes true (scale lib x base) ≡ some b)
  raw_multiple x ne =
      let r =
        laws.to_raw_bytes_finite true (scale lib x base) (λ e. ne (scale-base_zero lib laws x e)) in
      (r.0, r.1)

  pub multiply-multiple :
      (x : ℤ) (a : ℕ)
      → IsScalar order a
      → multiply (scale lib x base) (pos a) ≡ some (scale lib (pos a *ℤ x) base)
  multiply-multiple x a (h, l) =
      multiply-scale lib laws (scale lib x base) a h l
      ∙ ap some (sym (scale-*ℤ lib laws (pos a) x base))

  pub multiply-base :
      (a : ℕ) → IsScalar order a → multiply base (pos a) ≡ some (scale lib (pos a) base)
  multiply-base a (h, l) = multiply-scale lib laws base a h l

  pub record OtRun (a b c : ℕ) (m0 m1 : Bytes) : Type 0 where
    pub sender : OtSenderState lib
    pub setup : lib.Point
    pub receiver : OtReceiverState lib
    pub response : lib.Point
    pub encrypted : OtSenderEncrypted lib
    pub init : ot_sender_init lib (pos a) ≡ ok (sender, setup)
    pub respond : ot_receiver_respond lib (pos b) setup c ≡ ok (receiver, response)
    pub encrypt : ot_sender_encrypt lib sender response m0 m1 ≡ ok encrypted
    pub decrypt : ot_receiver_decrypt lib receiver encrypted ≡ ok (if c == 0 then m0 else m1)
    pub setup_finite : setup ≢ lib.infinity
    pub response_finite : response ≢ lib.infinity
    pub encrypted_bytes : All IsByte encrypted.e0 × All IsByte encrypted.e1

  -- The pad of a shared point.
  pad : (x : ℤ) → ¬ (Cong order x (pos 0)) → Bytes
  pad x ne = sha256 (raw_multiple x ne).0

  finite : (x : ℤ) → ¬ (Cong order x (pos 0)) → scale lib x base ≢ lib.infinity
  finite x ne e = ne (scale-base_zero lib laws x e)

  pad-IsByte :
      (m : Bytes) (x : ℤ) (ne : ¬ (Cong order x (pos 0)))
      → All IsByte m
      → All IsByte (xor_bytes m (pad x ne))
  unfolding pad
  pad-IsByte m x ne h = xor_bytes-IsByte m _ h (laws.All-sha256 _)

  sender_state : ℕ → OtSenderState lib
  sender_state a = record { private_key = pos a; public_key = scale lib (pos a) base }

  encrypt_lem :
      (a : ℕ) (e : ℤ) (m0 m1 : Bytes) (ne0 : ¬ (Cong order (pos a *ℤ e) (pos 0)))
      (ne1 : ¬ (Cong order (pos a *ℤ (e -ℤ pos a)) (pos 0)))
      → IsScalar order a
      → IsMessage m0
      → IsMessage m1
      → ot_sender_encrypt lib (sender_state a) (scale lib e base) m0 m1
        ≡ ok (record { e0 = xor_bytes m0 (pad _ ne0); e1 = xor_bytes m1 (pad _ ne1) })
  unfolding ot_sender_encrypt sender_state pad
  encrypt_lem a e m0 m1 ne0 ne1 ha h0 h1 = rw (
    h0.0,
    h1.0,
    multiply-multiple e a ha,
    scale--ℤ lib laws e (pos a) base,
    multiply-multiple (e -ℤ pos a) a ha,
    (raw_multiple _ ne0).1,
    (raw_multiple _ ne1).1,
  )

  decrypt_lem :
      (a b c : ℕ) (x : ℤ) (m e0 e1 : Bytes) (ne : ¬ (Cong order x (pos 0)))
      → IsScalar order b
      → IsMessage m
      → pos b *ℤ pos a ≡ x
      → (if c == 0 then e0 else e1) ≡ xor_bytes m (pad x ne)
      → ot_receiver_decrypt lib
          (record {
            choice_bit = c;
            private_key = pos b;
            sender_public_key = scale lib (pos a) base;
          })
          (record { e0 = e0; e1 = e1 })
        ≡ ok m
  unfolding ot_receiver_decrypt pad
  decrypt_lem a b c x m e0 e1 ne hb h same chosen =
      rw (multiply-multiple (pos a) b hb, same, (raw_multiple x ne).1, chosen)
        (ap ok (xor_bytes_undo m _ h.1 (laws.All-sha256 _) (h.0 ∙ sym (laws.length-sha256 _))))

  init_lem :
      (a : ℕ)
      → IsScalar order a
      → ot_sender_init lib (pos a) ≡ ok (sender_state a, scale lib (pos a) base)
  unfolding ot_sender_init sender_state
  init_lem a ha = rw (multiply-base a ha)

  sum_nonzero :
      (a b : ℕ)
      → IsScalar order a
      → IsScalar order b
      → a + b ≢ order
      → ¬ (Cong order (pos a +ℤ pos b) (pos 0))
  sum_nonzero a b ha hb fresh c = elim (dec_lt (a + b) order) [
    | yes h ↦ absurd (
        omega (
          arith,
          ha.0,
          Cong-small h (order_pos lib laws) (Cong-trans (Cong-of_eq (sym (pos-+ a b))) c),
        ))
    | no h ↦
        let wrapped : pos (a + b - order) +ℤ pos order ≡ pos a +ℤ pos b =
          pos-+ (a + b - order) order ∙ ap pos {y = a + b} (omega arith) ∙ sym (pos-+ a b) in
        fresh (
          omega (
            arith,
            Cong-small {a = a + b - order} (omega (arith, ha.1, hb.1)) (order_pos lib laws) (
                Cong-trans (Cong-of_eq (sym (+ℤ-zero (pos (a + b - order))))) (
                  Cong-trans (Cong-+ℤ (Cong-of_eq refl) (Cong-symm (Cong-modulus order)))
                    (Cong-trans (Cong-of_eq wrapped) c))),
          ))
  ]

  module _ (a b : ℕ) (ha : IsScalar order a) (hb : IsScalar order b) (m0 m1 : Bytes)
      (h0 : IsMessage m0) (h1 : IsMessage m1) where
    b_nonzero : ¬ (Cong order (pos b) (pos 0))
    b_nonzero = scalar_nonzero lib laws b hb.0 hb.1

    ab_nonzero : ¬ (Cong order (pos a *ℤ pos b) (pos 0))
    ab_nonzero = product_nonzero lib laws a (pos b) ha.0 ha.1 b_nonzero

    OtRun-zero : a ≢ b → OtRun a b 0 m0 m1
    unfolding ot_receiver_respond
    OtRun-zero fresh =
        let gap_nonzero : ¬ (Cong order (pos b -ℤ pos a) (pos 0)) = λ c. fresh (
          sym (
            Cong-small hb.1 ha.1 (
              Cong-trans (Cong-of_eq (sym (sub-add_cancel_ℤ (pos b) (pos a))))
                (Cong-trans (Cong-+ℤ c (Cong-of_eq refl)) (Cong-of_eq (zero-+ℤ (pos a))))))) in
        let shifted = product_nonzero lib laws a (pos b -ℤ pos a) ha.0 ha.1 gap_nonzero in
        record {
          sender = sender_state a;
          setup = scale lib (pos a) base;
          receiver = record {
            choice_bit = 0;
            private_key = pos b;
            sender_public_key = scale lib (pos a) base;
          };
          response = scale lib (pos b) base;
          encrypted = record {
            e0 = xor_bytes m0 (pad _ ab_nonzero);
            e1 = xor_bytes m1 (pad _ shifted);
          };
          init = init_lem a ha;
          respond = rw (multiply-base b hb);
          encrypt = encrypt_lem a (pos b) m0 m1 ab_nonzero shifted ha h0 h1;
          decrypt =
              decrypt_lem a b 0 (pos a *ℤ pos b) m0 _ _ ab_nonzero hb h0 (*ℤ_comm (pos b) (pos a))
                refl;
          setup_finite = finite (pos a) (scalar_nonzero lib laws a ha.0 ha.1);
          response_finite = finite (pos b) b_nonzero;
          encrypted_bytes = (pad-IsByte m0 _ ab_nonzero h0.1, pad-IsByte m1 _ shifted h1.1);
        }

    OtRun-one : a + b ≢ order → OtRun a b 1 m0 m1
    unfolding ot_receiver_respond
    OtRun-one fresh =
        let e = pos a +ℤ pos b in
        let e_nonzero : ¬ (Cong order e (pos 0)) = sum_nonzero a b ha hb fresh in
        let whole = product_nonzero lib laws a e ha.0 ha.1 e_nonzero in
        let back : e -ℤ pos a ≡ pos b = add-sub_cancel_ℤ (pos a) (pos b) in
        let shifted : ¬ (Cong order (pos a *ℤ (e -ℤ pos a)) (pos 0)) =
          λ c. ab_nonzero (Cong-trans (Cong-of_eq (ap (λ t. pos a *ℤ t) (sym back))) c) in
        record {
          sender = sender_state a;
          setup = scale lib (pos a) base;
          receiver = record {
            choice_bit = 1;
            private_key = pos b;
            sender_public_key = scale lib (pos a) base;
          };
          response = scale lib e base;
          encrypted = record { e0 = xor_bytes m0 (pad _ whole); e1 = xor_bytes m1 (pad _ shifted) };
          init = init_lem a ha;
          respond = rw (multiply-base b hb, scale-+ℤ lib laws (pos a) (pos b) base);
          encrypt = encrypt_lem a e m0 m1 whole shifted ha h0 h1;
          decrypt =
              decrypt_lem a b 1 (pos a *ℤ (e -ℤ pos a)) m1 _ _ shifted hb h1
                (*ℤ_comm (pos b) (pos a) ∙ ap (λ t. pos a *ℤ t) (sym back)) refl;
          setup_finite = finite (pos a) (scalar_nonzero lib laws a ha.0 ha.1);
          response_finite = finite e e_nonzero;
          encrypted_bytes = (pad-IsByte m0 _ whole h0.1, pad-IsByte m1 _ shifted h1.1);
        }

    pub ot_run : (c : ℕ) → c < 2 → IsFresh order a b c → OtRun a b c m0 m1
    ot_run zero h fresh = OtRun-zero fresh
    ot_run (suc zero) h fresh = OtRun-one fresh
    ot_run (suc (suc c)) h fresh = absurd (omega arith)

  -- One transfer, from the sender's draw to the receiver's message.
  abbrev pub ot_exchange : ℤ → ℤ → ℕ → Bytes → Bytes → Throws Bytes
  ot_exchange a b c m0 m1 = do
    (sender, setup) ← ot_sender_init lib a
    (receiver, response) ← ot_receiver_respond lib b setup c
    encrypted ← ot_sender_encrypt lib sender response m0 m1
    ot_receiver_decrypt lib receiver encrypted

  -- For two messages of 32 bytes, draws `a` and `b` in the range of `randomScalar` and a choice bit
  -- `c`, with `a` and `b` different if `c` is 0 and `a + b` not the order if `c` is 1, the transfer
  -- does not throw and the receiver decrypts the message that it chose.
  pub ot_receives_choice :
      (a b c : ℕ) (m0 m1 : Bytes)
      → IsScalar order a
      → IsScalar order b
      → IsMessage m0
      → IsMessage m1
      → c < 2
      → IsFresh order a b c
      → ot_exchange (pos a) (pos b) c m0 m1 ≡ ok (if c == 0 then m0 else m1)
  ot_receives_choice a b c m0 m1 ha hb h0 h1 hc fresh =
      let run = ot_run a b ha hb m0 m1 h0 h1 c hc fresh in
      rw (run.init, run.respond, run.encrypt, run.decrypt)
