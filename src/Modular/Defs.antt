-- ===== src/Modular/Defs.antt =====
-- The modular arithmetic that the protocol files repeat: `mod` in its two forms and its residue
-- (src/protocols/dkg/polynomial.ts, src/protocols/dkls/crypto.ts and their copies).
use native.Mathlib.Nat.{mod-lt, div-add-mod}
use nero_mpc_sdk.Base.{
  ℕ, zero, suc, ◌+◌, ◌-◌, ◌/◌, ◌%◌, ◌<◌, ◌≡◌, refl, sym, ap, ◌∙◌, arith, inl, inr, ◌⊎◌,
  if◌then◌else◌,
}
use nero_mpc_sdk.Bigint.{
  ℤ, pos, negsuc, neg_ℤ, sub_ℕ, ◌+ℤ◌, tmod, ltb_ℤ, residue, difference_laws, sub_ℕ_ext,
  negsuc-sub_ℕ, neg_ℤ-sub_ℕ, pos-+, Cong, Cong-trans, Cong-symm, Cong-of_eq, Cong-+ℤ, Cong-modulus,
  residue_congr, residue_small, residue-pos, +ℤ-zero,
}

-- `((n % m) + m) % m`.
unfoldable pub mod_twice : ℤ → ℤ → ℤ
mod_twice n m = tmod (tmod n m +ℤ m) m

-- `const result = n % m; return result < 0n ? result + m : result`.
unfoldable pub mod_once : ℤ → ℤ → ℤ
mod_once n m = let result = tmod n m in if ltb_ℤ result (pos 0) then result +ℤ m else result

tmod-pos : (k m : ℕ) → tmod (pos k) (pos m) ≡ pos (k % m)
unfolding tmod
tmod-pos k m = refl

add-modulus : (r k : ℕ) → r < k → negsuc r +ℤ pos k ≡ pos (k - suc r)
unfolding ◌+ℤ◌ sub_ℕ
add-modulus r k h = ground arith

wrap-pos : (k m : ℕ) → (if ltb_ℤ (pos k) (pos 0) then pos k +ℤ pos m else pos k) ≡ pos k
wrap-pos k m = ground arith

wrap-negsuc :
    (k m : ℕ)
    → (if ltb_ℤ (negsuc k) (pos 0) then negsuc k +ℤ pos m else negsuc k) ≡ negsuc k +ℤ pos m
wrap-negsuc k m = ground arith

module _ (m : ℕ) (m_pos : 0 < m) where
  tmod-Cong : (a : ℤ) → Cong m a (tmod a (pos m))
  unfolding tmod
  tmod-Cong (pos a) = record {
    times = pos (a / m);
    split = simp difference_laws (sub_ℕ_ext _ _ _ _ (omega (arith, div-add-mod a m)));
  }
  tmod-Cong (negsuc a) = record {
    times = neg_ℤ (suc a / m);
    split =
        rw (negsuc-sub_ℕ, neg_ℤ-sub_ℕ (suc a % m), neg_ℤ-sub_ℕ (suc a / m))
          (simp difference_laws (sub_ℕ_ext _ _ _ _ (omega (arith, div-add-mod (suc a) m))));
  }

  tmod_range : (a : ℤ) → (k : ℕ) × (tmod a (pos m) +ℤ pos m ≡ pos k)
  unfolding tmod
  tmod_range (pos a) = (a % m + m, pos-+ (a % m) m)
  tmod_range (negsuc a) = (
    m - suc a % m,
    rw neg_ℤ-sub_ℕ (simp difference_laws (sub_ℕ_ext _ _ _ _ (omega (arith, mod-lt (suc a) m_pos)))),
  )

  -- The first form is the residue.
  pub mod_twice-eq-residue : (a : ℤ) → mod_twice a (pos m) ≡ pos (residue m a)
  unfolding mod_twice
  mod_twice-eq-residue a =
      let (k, e) = tmod_range a in
      let whole : Cong m (tmod a (pos m) +ℤ pos m) a =
        Cong-trans (Cong-+ℤ (Cong-symm (tmod-Cong a)) (Cong-modulus m)) (Cong-of_eq (+ℤ-zero a)) in
      rw (e, tmod-pos)
        (ap pos
          (sym (residue-pos m k) ∙ residue_congr m_pos (Cong-trans (Cong-of_eq (sym e)) whole)))

  tmod_cases :
      (a : ℤ)
      → ((k : ℕ) × (k < m) × (tmod a (pos m) ≡ pos k))
        ⊎ ((k : ℕ) × (k < m) × (tmod a (pos m) ≡ negsuc k))
  unfolding tmod
  tmod_cases (pos a) = inl (a % m, mod-lt a m_pos, refl)
  tmod_cases (negsuc a) = nonzero (suc a % m) refl (mod-lt (suc a) m_pos)
    where
      nonzero :
          (r : ℕ)
          → suc a % m ≡ r
          → r < m
          → ((k : ℕ) × (k < m) × (neg_ℤ r ≡ pos k)) ⊎ ((k : ℕ) × (k < m) × (neg_ℤ r ≡ negsuc k))
      nonzero zero e h = inl (0, m_pos, refl)
      nonzero (suc r) e h = inr (r, omega arith, refl)

  -- So is the second.
  pub mod_once-eq-residue : (a : ℤ) → mod_once a (pos m) ≡ pos (residue m a)
  unfolding mod_once
  mod_once-eq-residue a = elim (tmod_cases a) [
    | inl (k, h, e) ↦ rw e (
        wrap-pos k m
        ∙ ap pos (
            sym (residue_small m k h)
            ∙ residue_congr m_pos (Cong-trans (Cong-of_eq (sym e)) (Cong-symm (tmod-Cong a)))))
    | inr (k, h, e) ↦ rw e (
        wrap-negsuc k m
        ∙ add-modulus k m h
        ∙ ap pos (
            sym (residue_small m (m - suc k) (omega arith))
            ∙ residue_congr m_pos (
                Cong-trans (Cong-of_eq (sym (add-modulus k m h))) (
                  Cong-trans (Cong-+ℤ (Cong-of_eq (sym e)) (Cong-modulus m))
                    (Cong-trans (Cong-of_eq (+ℤ-zero _)) (Cong-symm (tmod-Cong a)))))))
  ]
