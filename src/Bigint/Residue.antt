-- ===== src/Bigint/Residue.antt =====
-- The residue of an integer, from 0 up to the modulus, and congruence.
use native.Mathlib.Nat.{mod-lt, div-add-mod, mod-eq_of_lt}
use nero_mpc_sdk.Base.{ℕ, zero, suc, ◌+◌, ◌-◌, ◌/◌, ◌%◌, ◌<◌, ◌≡◌, refl, sym, ap, ap₂, ◌∙◌, arith}
use nero_mpc_sdk.Bigint.Defs.{ℤ, pos, neg_ℤ, negsuc, sub_ℕ, ◌+ℤ◌, ◌-ℤ◌, ◌*ℤ◌}
use nero_mpc_sdk.Bigint.Ring.{
  difference_laws, sub_ℕ_ext, by_difference, by_differences₂, by_differences₃, ring_laws, pos-+,
  pos-*,
}

-- The residue as a number.
unfoldable pub residue : ℕ → ℤ → ℕ
residue n (pos a) = a % n
residue n (negsuc a) = n - 1 - a % n

-- The number of moduli between an integer and its residue.
quotient : ℕ → ℤ → ℤ
quotient n (pos a) = pos (a / n)
quotient n (negsuc a) = negsuc (a / n)

pub negsuc-sub_ℕ : (a : ℕ) → negsuc a ≡ sub_ℕ 0 (suc a)
unfolding sub_ℕ
negsuc-sub_ℕ a = ground arith

pub neg_ℤ-sub_ℕ : (a : ℕ) → neg_ℤ a ≡ sub_ℕ 0 a
unfolding sub_ℕ
neg_ℤ-sub_ℕ a = ground arith

pub residue-pos : (n a : ℕ) → residue n (pos a) ≡ a % n
unfolding residue
residue-pos n a = refl

pub residue-lt : (n : ℕ) (a : ℤ) → 0 < n → residue n a < n
unfolding residue
residue-lt n (pos a) h = mod-lt a h
residue-lt n (negsuc a) h = omega arith

residue_split : (n : ℕ) (a : ℤ) → 0 < n → a ≡ pos (residue n a) +ℤ quotient n a *ℤ pos n
unfolding residue quotient
residue_split n (pos a) h = rw (pos-* (a / n) n, pos-+) (ap pos (omega (arith, div-add-mod a n)))
residue_split n (negsuc a) h =
    rw (negsuc-sub_ℕ a, negsuc-sub_ℕ (a / n))
      (simp difference_laws (sub_ℕ_ext _ _ _ _ (omega (arith, div-add-mod a n, mod-lt a h))))

-- Equal up to a multiple of the modulus.
pub record Cong (n : ℕ) (a b : ℤ) : Type 0 where
  pub times : ℤ
  pub split : a ≡ b +ℤ times *ℤ pos n

same_parts : (x y u v : ℕ) → sub_ℕ x y ≡ sub_ℕ u v → x + v ≡ u + y
unfolding sub_ℕ
same_parts x y u v h = ground arith

same_residue : (n r s : ℕ) (k : ℤ) → r < n → s < n → pos r ≡ pos s +ℤ k *ℤ pos n → r ≡ s
same_residue n r s (pos zero) hr hs e =
    omega (arith, same_parts _ _ _ _ (simp difference_laws at e))
same_residue n r s (pos (suc t)) hr hs e =
    absurd (omega (arith, same_parts _ _ _ _ (simp difference_laws at e)))
same_residue n r s (negsuc t) hr hs e =
    absurd (omega (arith, same_parts _ _ _ _ (simp difference_laws at (rw (negsuc-sub_ℕ t) at e))))

pub Cong-of_eq : {n : ℕ} {a b : ℤ} → a ≡ b → Cong n a b
Cong-of_eq {b} e = record { times = pos 0; split = e ∙ sym (simp ring_laws) }

pub Cong-symm : {n : ℕ} {a b : ℤ} → Cong n a b → Cong n b a
Cong-symm {n} {a} {b} c = record {
  times = pos 0 -ℤ c.times;
  split =
      by_differences₂ (λ b k. b ≡ (b +ℤ k *ℤ pos n) +ℤ (pos 0 -ℤ k) *ℤ pos n)
        (λ x y u v. simp difference_laws (sub_ℕ_ext _ _ _ _ (omega arith))) b c.times
      ∙ ap (λ t. t +ℤ (pos 0 -ℤ c.times) *ℤ pos n) (sym c.split);
}

pub Cong-trans : {n : ℕ} {a b c : ℤ} → Cong n a b → Cong n b c → Cong n a c
Cong-trans {n} {c = z} p q = record {
  times = q.times +ℤ p.times;
  split = p.split ∙ ap (λ t. t +ℤ p.times *ℤ pos n) q.split ∙ simp ring_laws;
}

pub Cong-+ℤ : {n : ℕ} {a b c d : ℤ} → Cong n a b → Cong n c d → Cong n (a +ℤ c) (b +ℤ d)
Cong-+ℤ p q = record {
  times = p.times +ℤ q.times;
  split = ap₂ ◌+ℤ◌ p.split q.split ∙ simp ring_laws;
}

pub Cong--ℤ : {n : ℕ} {a b c d : ℤ} → Cong n a b → Cong n c d → Cong n (a -ℤ c) (b -ℤ d)
Cong--ℤ {n} {b} {d} p q = record {
  times = p.times -ℤ q.times;
  split = ap₂ ◌-ℤ◌ p.split q.split ∙ regroup b d p.times q.times;
}
  where
    regroup : (b d k j : ℤ) → (b +ℤ k *ℤ pos n) -ℤ (d +ℤ j *ℤ pos n) ≡ (b -ℤ d) +ℤ (k -ℤ j) *ℤ pos n
    regroup b d k j =
        by_differences₃
          (λ b d k. (b +ℤ k *ℤ pos n) -ℤ (d +ℤ j *ℤ pos n) ≡ (b -ℤ d) +ℤ (k -ℤ j) *ℤ pos n)
          (λ x y u v s t.
            by_difference
              (λ j.
                (sub_ℕ x y +ℤ sub_ℕ s t *ℤ pos n) -ℤ (sub_ℕ u v +ℤ j *ℤ pos n)
                ≡ (sub_ℕ x y -ℤ sub_ℕ u v) +ℤ (sub_ℕ s t -ℤ j) *ℤ pos n)
              (λ w z. simp difference_laws (sub_ℕ_ext _ _ _ _ (omega arith))) j)
          b d k

pub Cong-*ℤ : {n : ℕ} {a b c d : ℤ} → Cong n a b → Cong n c d → Cong n (a *ℤ c) (b *ℤ d)
Cong-*ℤ {n} {b} {d} p q = record {
  times = p.times *ℤ d +ℤ b *ℤ q.times +ℤ p.times *ℤ q.times *ℤ pos n;
  split = ap₂ ◌*ℤ◌ p.split q.split ∙ simp ring_laws;
}

pub Cong-residue : (n : ℕ) (a : ℤ) → 0 < n → Cong n (pos (residue n a)) a
Cong-residue n a h = Cong-symm (record { times = quotient n a; split = residue_split n a h })

-- Congruent integers have one residue.
pub residue_congr : {n : ℕ} {a b : ℤ} → 0 < n → Cong n a b → residue n a ≡ residue n b
residue_congr {n} {a} {b} h c =
    let d = Cong-trans (Cong-residue n a h) (Cong-trans c (Cong-symm (Cong-residue n b h))) in
    same_residue n _ _ d.times (residue-lt n a h) (residue-lt n b h) d.split

pub residue_small : (n a : ℕ) → a < n → residue n (pos a) ≡ a
unfolding residue
residue_small n a h = mod-eq_of_lt h

pub Cong-of_residue : {n : ℕ} {a b : ℤ} → 0 < n → residue n a ≡ residue n b → Cong n a b
Cong-of_residue {n} {a} {b} h e =
    Cong-trans (Cong-symm (Cong-residue n a h))
      (Cong-trans (Cong-of_eq (ap pos e)) (Cong-residue n b h))

pub Cong-modulus : (n : ℕ) → Cong n (pos n) (pos 0)
Cong-modulus n = record { times = pos 1; split = sym (simp ring_laws) }

pub Cong-small : {n a b : ℕ} → a < n → b < n → Cong n (pos a) (pos b) → a ≡ b
Cong-small {n} {a} {b} p q c = same_residue n a b c.times p q c.split
