-- ===== src/Recovery/Kdf.antt =====
-- Which KDF parameters a blob may have (src/core/self-custody-recovery.ts).
use Prim.Native.Nat.{bit_and}
use nero_mpc_sdk.Base.{ℕ, ◌-◌, ◌^◌, ◌≤◌, ◌≡◌, ◌↔◌, ap, ◌∙◌, arith, false, not, ◌||◌, ltb, ◌==◌}
use nero_mpc_sdk.Base.Throws.{ok, throw_if, throw_if-eq-ok, >>=-eq-ok}
use nero_mpc_sdk.Recovery.Bits.{power_of_bit_and, bit_and_of_power}
use nero_mpc_sdk.Recovery.Blob.{KdfParams, validate_kdf_params, invalid}

-- Cost a power of two from 1024 to 1048576, blocks 1 to 64, lanes 1 to 16.
abbrev pub AreAllowed : KdfParams → Type 0
AreAllowed params =
    ((k : ℕ) × (params.n ≡ 2 ^ k) × (1024 ≤ params.n) × (params.n ≤ 1048576))
    × ((1 ≤ params.r) × (params.r ≤ 64))
    × ((1 ≤ params.p) × (params.p ≤ 16))

allowed_of :
    (params : KdfParams)
    → (ltb params.n 1024 || (ltb 1048576 params.n || not (bit_and params.n (params.n - 1) == 0)))
      ≡ false
    → (ltb params.r 1 || ltb 64 params.r) ≡ false
    → (ltb params.p 1 || ltb 16 params.p) ≡ false
    → AreAllowed params
allowed_of params hn hr hp =
    let (k, power) = power_of_bit_and params.n (ground arith) (ground arith) in
    (
      (k, power, ground arith, ground arith),
      (ground arith, ground arith),
      (ground arith, ground arith),
    )

accepted_of : (params : KdfParams) → AreAllowed params → validate_kdf_params params ≡ ok tt
unfolding validate_kdf_params
accepted_of params ((k, power, n_min, n_max), (r_min, r_max), (p_min, p_max)) =
    let vanishes : bit_and params.n (params.n - 1) ≡ 0 =
      ap (λ t. bit_and t (t - 1)) power ∙ bit_and_of_power k in
    rw (
      passes_n params.n vanishes n_min n_max,
      passes params.r 1 64 r_min r_max,
      passes params.p 1 16 p_min p_max,
    )
  where
    passes_n :
        (n : ℕ)
        → bit_and n (n - 1) ≡ 0
        → 1024 ≤ n
        → n ≤ 1048576
        → (ltb n 1024 || (ltb 1048576 n || not (bit_and n (n - 1) == 0))) ≡ false
    passes_n n e l u = ground arith

    passes : (r a b : ℕ) → a ≤ r → r ≤ b → (ltb r a || ltb b r) ≡ false
    passes r a b l u = ground arith

-- The validation of KDF parameters passes exactly if the cost is a power of two between 1024 and
-- 1048576, the blocks lie between 1 and 64 and the lanes between 1 and 16.
pub validate_kdf_params-AreAllowed :
    (params : KdfParams) → (validate_kdf_params params ≡ ok tt) ↔ AreAllowed params
unfolding validate_kdf_params
validate_kdf_params-AreAllowed params = (
  λ h.
      let (u, e1, h1) =
        >>=-eq-ok
          (throw_if
            (ltb params.n 1024
              || (ltb 1048576 params.n || not (bit_and params.n (params.n - 1) == 0)))
            invalid)
          _ h in
      let (v, e2, h2) = >>=-eq-ok (throw_if (ltb params.r 1 || ltb 64 params.r) invalid) _ h1 in
      allowed_of params (throw_if-eq-ok _ _ e1) (throw_if-eq-ok _ _ e2) (throw_if-eq-ok _ _ h2),
  accepted_of params,
)
