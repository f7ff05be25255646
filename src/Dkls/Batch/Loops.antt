-- ===== src/Dkls/Batch/Loops.antt =====
-- The four loops of a batch, run together.
use native.Mathlib.Nat.{pow-suc}
use nero_mpc_sdk.Base.{
  ℕ, zero, suc, ◌+◌, ◌*◌, ◌/◌, ◌%◌, ◌^◌, ◌<◌, ◌≡◌, All, refl, sym, ap, ◌∙◌, arith, List, [], ◌∷◌,
}
use nero_mpc_sdk.Base.Throws.{ok}
use nero_mpc_sdk.Bigint.{
  ℤ, pos, ◌+ℤ◌, ◌*ℤ◌, residue, residue-lt, residue_congr, residue_small, Cong, Cong-residue,
  Cong-of_eq, Cong-trans, Cong-+ℤ, Cong-*ℤ, +ℤ-zero, +ℤ_assoc, ring_laws, pos-*, pos-+,
}
use nero_mpc_sdk.Modular.{mod_once, mod_once-eq-residue}
use nero_mpc_sdk.Noble.{Noble, Lawful, order_pos}
use nero_mpc_sdk.Dkls.Ot.{OtSenderEncrypted, CotSenderState, CotReceiverState}
use nero_mpc_sdk.Dkls.Ot.Laws.{IsScalar, IsFresh}
use nero_mpc_sdk.Dkls.Batch.{
  bit, sender_init_loop, receiver_respond_loop, sender_complete_loop, receiver_complete_loop,
}
use nero_mpc_sdk.Dkls.Batch.Round.{CotRun, cot_run}
use nero_mpc_sdk.Dkls.Wire.{IsFinite, IsBytes}
use nero_mpc_sdk.Dkls.Batch.Bits.{low_bits, div-pow-suc, bit-lt, bit-%}

-- The draws of the two parties, one of each for every round.
pub record Draws : Type 0 where
  pub sender_key : ℕ → ℕ
  pub random_t : ℕ → ℕ
  pub receiver_key : ℕ → ℕ

-- The draws are scalars, and those of one round do not meet.
pub record IsGood (order : ℕ) (draws : Draws) (b : ℕ) : Type 0 where
  pub sender_key : (j : ℕ) → IsScalar order (draws.sender_key j)
  pub random_t : (j : ℕ) → IsScalar order (draws.random_t j)
  pub receiver_key : (j : ℕ) → IsScalar order (draws.receiver_key j)
  pub fresh : (j : ℕ) → IsFresh order (draws.sender_key j) (draws.receiver_key j) (bit (pos b) j)

module _ (lib : Noble) (laws : Lawful lib) (draws : Draws) (a : ℤ) (b : ℕ)
    (good : IsGood lib.order draws b) where
  open lib use {order}

  residue_sum :
      (x : ℕ) (s t : ℤ)
      → residue order (pos (residue order (pos x +ℤ s)) +ℤ t) ≡ residue order (pos x +ℤ (s +ℤ t))
  residue_sum x s t = residue_congr (order_pos lib laws) (
      Cong-trans (Cong-+ℤ (Cong-residue order (pos x +ℤ s) (order_pos lib laws)) (Cong-of_eq refl))
        (Cong-of_eq (+ℤ_assoc (pos x) s t)))

  pub record BatchRun (k j : ℕ) : Type 0 where
    pub states : List (CotSenderState lib)
    pub setups : List lib.Point
    pub receivers : List (CotReceiverState lib)
    pub responses : List lib.Point
    pub messages : List (OtSenderEncrypted lib)
    pub sum_t : ℤ
    pub sum_share : ℤ
    pub init :
        sender_init_loop lib (λ i. pos (draws.sender_key i)) (λ i. pos (draws.random_t i)) a k j
        ≡ ok (states, setups)
    pub respond :
        receiver_respond_loop lib (λ i. pos (draws.receiver_key i)) (pos b) k j setups
        ≡ ok (receivers, responses)
    pub complete :
        (x : ℕ)
        → x < order
        → sender_complete_loop lib k states responses (pos x)
          ≡ ok (pos (residue order (pos x +ℤ sum_t)), messages)
    pub receive :
        (x : ℕ)
        → x < order
        → receiver_complete_loop lib k receivers messages (pos x)
          ≡ ok (pos (residue order (pos x +ℤ sum_share)))
    pub setups_finite : All (IsFinite lib) setups
    pub responses_finite : All (IsFinite lib) responses
    pub messages_bytes : All (IsBytes lib) messages
    pub correlated : Cong order sum_share (sum_t +ℤ a *ℤ pos (2 ^ j * low_bits k (b / 2 ^ j)))

  stays : (x : ℕ) → x < order → x ≡ residue order (pos x +ℤ pos 0)
  stays x h = sym (ap (residue order) (+ℤ-zero (pos x)) ∙ residue_small order x h)

  nothing : (p : ℕ) → pos 0 +ℤ a *ℤ pos (p * 0) ≡ pos 0
  nothing p = ap (λ n. pos 0 +ℤ a *ℤ pos n) {y = 0} (omega arith) ∙ simp ring_laws

  mod_once-Cong : (j : ℕ) → Cong order (mod_once (a *ℤ pos (2 ^ j)) (pos order)) (a *ℤ pos (2 ^ j))
  mod_once-Cong j =
      Cong-trans (Cong-of_eq (mod_once-eq-residue order (order_pos lib laws) (a *ℤ pos (2 ^ j))))
        (Cong-residue order (a *ℤ pos (2 ^ j)) (order_pos lib laws))

  distribute :
      (t r : ℤ) (p c l : ℕ)
      → (t +ℤ pos c *ℤ (a *ℤ pos p)) +ℤ (r +ℤ a *ℤ pos (p * 2 * l))
        ≡ (t +ℤ r) +ℤ a *ℤ pos (p * (c + 2 * l))
  distribute t r p c l =
      rw (← pos-* (p * 2) l, ← pos-* p 2, ← pos-* p (c + 2 * l), ← pos-+ c (2 * l), ← pos-* 2 l)
        (simp ring_laws)

  -- The terms of one round and of those that follow.
  regroup :
      (j : ℕ) (t r : ℤ) (k : ℕ)
      → (t +ℤ pos (bit (pos b) j) *ℤ (a *ℤ pos (2 ^ j)))
          +ℤ (r +ℤ a *ℤ pos (2 ^ suc j * low_bits k (b / 2 ^ suc j)))
        ≡ (t +ℤ r) +ℤ a *ℤ pos (2 ^ j * low_bits (suc k) (b / 2 ^ j))
  unfolding low_bits
  regroup j t r k =
      rw (bit-% b j, div-pow-suc b j, pow-suc 2 j)
        (distribute t r (2 ^ j) (b / 2 ^ j % 2) (low_bits k (b / 2 ^ j / 2)))

  round :
      (j : ℕ)
      → CotRun lib laws
          (draws.sender_key j)
          (draws.random_t j)
          (draws.receiver_key j)
          (bit (pos b) j)
          (mod_once (a *ℤ pos (2 ^ j)) (pos order))
  round j =
      cot_run lib laws _ _ _ _ (good.sender_key j) (good.random_t j) (good.receiver_key j)
        (bit (pos b) j) (bit-lt b j) (good.fresh j)

  pub batch_run : (k j : ℕ) → BatchRun k j
  unfolding sender_init_loop receiver_respond_loop sender_complete_loop receiver_complete_loop
      low_bits
  batch_run zero j = record {
    states = [];
    setups = [];
    receivers = [];
    responses = [];
    messages = [];
    sum_t = pos 0;
    sum_share = pos 0;
    init = refl;
    respond = refl;
    complete = λ x h. ap (λ t. ok (pos t, [])) (stays x h);
    receive = λ x h. ap (λ t. ok (pos t)) (stays x h);
    setups_finite = tt;
    responses_finite = tt;
    messages_bytes = tt;
    correlated = Cong-of_eq (sym (nothing (2 ^ j)));
  }
  batch_run (suc k) j =
      let first = round j in
      let rest = batch_run k (suc j) in
      record {
        states = first.sender ∷ rest.states;
        setups = first.setup ∷ rest.setups;
        receivers = first.receiver ∷ rest.receivers;
        responses = first.response ∷ rest.responses;
        messages = first.encrypted ∷ rest.messages;
        sum_t = pos (draws.random_t j) +ℤ rest.sum_t;
        sum_share = pos first.share +ℤ rest.sum_share;
        init = rw (first.init, rest.init);
        respond = rw (first.respond, rest.respond);
        complete = λ x h. rw (
          first.complete,
          mod_once-eq-residue order (order_pos lib laws) (pos x +ℤ pos (draws.random_t j)),
          rest.complete _ (residue-lt order (pos x +ℤ pos (draws.random_t j)) (order_pos lib laws)),
          residue_sum x (pos (draws.random_t j)) rest.sum_t,
        );
        receive = λ x h. rw (
          first.receive,
          mod_once-eq-residue order (order_pos lib laws) (pos x +ℤ pos first.share),
          rest.receive _ (residue-lt order (pos x +ℤ pos first.share) (order_pos lib laws)),
          residue_sum x (pos first.share) rest.sum_share,
        );
        setups_finite = (first.setup_finite, rest.setups_finite);
        responses_finite = (first.response_finite, rest.responses_finite);
        messages_bytes = (first.encrypted_bytes, rest.messages_bytes);
        correlated =
            Cong-trans
              (Cong-+ℤ
                (Cong-trans first.correlated
                  (Cong-+ℤ (Cong-of_eq refl) (Cong-*ℤ (Cong-of_eq refl) (mod_once-Cong j))))
                rest.correlated)
              (Cong-of_eq (regroup j (pos (draws.random_t j)) rest.sum_t k));
      }
