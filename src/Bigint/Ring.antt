-- ===== src/Bigint/Ring.antt =====
-- The ring laws of the integers, proved on differences of numbers.
use nero_mpc_sdk.Base.{ℕ, ◌+◌, ◌-◌, ◌*◌, ◌≤◌, ◌≡◌, sym, ◌∙◌, ◌⊎◌, inl, inr, arith, subst}
use native.Mathlib.Decide.{dec_le}
use nero_mpc_sdk.Bigint.Defs.{ℤ, pos, pos_part, neg_part, sub_ℕ, ◌+ℤ◌, ◌-ℤ◌, ◌*ℤ◌}

pos_part-sub_ℕ : (x y : ℕ) → pos_part (sub_ℕ x y) ≡ x - y
unfolding sub_ℕ
pos_part-sub_ℕ x y = ground arith

neg_part-sub_ℕ : (x y : ℕ) → neg_part (sub_ℕ x y) ≡ y - x
unfolding sub_ℕ
neg_part-sub_ℕ x y = ground arith

pub sub_ℕ_ext : (x y u v : ℕ) → x + v ≡ u + y → sub_ℕ x y ≡ sub_ℕ u v
unfolding sub_ℕ
sub_ℕ_ext x y u v h = ground arith

pub sub_ℕ_parts : (a : ℤ) → sub_ℕ (pos_part a) (neg_part a) ≡ a
unfolding sub_ℕ
sub_ℕ_parts a = ground arith

pub pos-sub_ℕ : (n : ℕ) → pos n ≡ sub_ℕ n 0
unfolding sub_ℕ
pos-sub_ℕ n = ground arith

pub sub_ℕ-+ℤ : (x y u v : ℕ) → sub_ℕ x y +ℤ sub_ℕ u v ≡ sub_ℕ (x + u) (y + v)
unfolding ◌+ℤ◌
sub_ℕ-+ℤ x y u v = sub_ℕ_ext _ _ _ _ (simp (pos_part-sub_ℕ, neg_part-sub_ℕ) (omega arith))

pub sub_ℕ--ℤ : (x y u v : ℕ) → sub_ℕ x y -ℤ sub_ℕ u v ≡ sub_ℕ (x + v) (y + u)
unfolding ◌-ℤ◌
sub_ℕ--ℤ x y u v = sub_ℕ_ext _ _ _ _ (simp (pos_part-sub_ℕ, neg_part-sub_ℕ) (omega arith))

add-sub_self : (x d : ℕ) → x + d - x ≡ d
add-sub_self x d = omega arith

sub-add_self : (x d : ℕ) → x - (x + d) ≡ 0
sub-add_self x d = omega arith

ruleset cut = (add-sub_self, sub-add_self)

gap : (x y : ℕ) → ((d : ℕ) × (x ≡ y + d)) ⊎ ((d : ℕ) × (y ≡ x + d))
gap x y = elim (dec_le y x) [ yes h ↦ inl (x - y, omega arith) | no h ↦ inr (y - x, omega arith) ]

-- Truncated differences multiply as the differences do.
cross_mul :
    (x y u v : ℕ)
    → (x - y) * (u - v) + (y - x) * (v - u) + (x * v + y * u)
      ≡ x * u + y * v + ((x - y) * (v - u) + (y - x) * (u - v))
cross_mul x y u v = elim (gap x y) [
  | inl (d, p) ↦ elim (gap u v) [
    | inl (e, q) ↦ rw (p, q) (simp cut (omega arith))
    | inr (e, q) ↦ rw (p, q) (simp cut (omega arith))
  ]
  | inr (d, p) ↦ elim (gap u v) [
    | inl (e, q) ↦ rw (p, q) (simp cut (omega arith))
    | inr (e, q) ↦ rw (p, q) (simp cut (omega arith))
  ]
]

pub sub_ℕ-*ℤ : (x y u v : ℕ) → sub_ℕ x y *ℤ sub_ℕ u v ≡ sub_ℕ (x * u + y * v) (x * v + y * u)
unfolding ◌*ℤ◌
sub_ℕ-*ℤ x y u v = sub_ℕ_ext _ _ _ _ (simp (pos_part-sub_ℕ, neg_part-sub_ℕ) (cross_mul x y u v))

pub ruleset difference_laws = (sub_ℕ-+ℤ, sub_ℕ--ℤ, sub_ℕ-*ℤ, pos-sub_ℕ)

-- A statement about integers holds if it holds of all differences.
pub by_difference {ℓ} : (P : ℤ → Type ℓ) → ((x y : ℕ) → P (sub_ℕ x y)) → (a : ℤ) → P a
by_difference P h a = subst P (sub_ℕ_parts a) (h (pos_part a) (neg_part a))

pub by_differences₂ {ℓ} :
    (P : ℤ → ℤ → Type ℓ) → ((x y u v : ℕ) → P (sub_ℕ x y) (sub_ℕ u v)) → (a b : ℤ) → P a b
by_differences₂ P h a b =
    by_difference (λ a. P a b) (λ x y. by_difference (λ b. P (sub_ℕ x y) b) (h x y) b) a

pub by_differences₃ {ℓ} :
    (P : ℤ → ℤ → ℤ → Type ℓ)
    → ((x y u v s t : ℕ) → P (sub_ℕ x y) (sub_ℕ u v) (sub_ℕ s t))
    → (a b c : ℤ) → P a b c
by_differences₃ P h a b c =
    by_difference (λ a. P a b c) (λ x y. by_differences₂ (λ b c. P (sub_ℕ x y) b c) (h x y) b c) a

pub +ℤ_comm : (a b : ℤ) → a +ℤ b ≡ b +ℤ a
+ℤ_comm =
    by_differences₂ (λ a b. a +ℤ b ≡ b +ℤ a)
      λ x y u v. simp difference_laws (sub_ℕ_ext _ _ _ _ (omega arith))

pub *ℤ_comm : (a b : ℤ) → a *ℤ b ≡ b *ℤ a
*ℤ_comm =
    by_differences₂ (λ a b. a *ℤ b ≡ b *ℤ a)
      λ x y u v. simp difference_laws (sub_ℕ_ext _ _ _ _ (omega arith))

pub +ℤ_assoc : (a b c : ℤ) → a +ℤ b +ℤ c ≡ a +ℤ (b +ℤ c)
+ℤ_assoc =
    by_differences₃ (λ a b c. a +ℤ b +ℤ c ≡ a +ℤ (b +ℤ c))
      λ x y u v s t. simp difference_laws (sub_ℕ_ext _ _ _ _ (omega arith))

pub *ℤ_assoc : (a b c : ℤ) → a *ℤ b *ℤ c ≡ a *ℤ (b *ℤ c)
*ℤ_assoc =
    by_differences₃ (λ a b c. a *ℤ b *ℤ c ≡ a *ℤ (b *ℤ c))
      λ x y u v s t. simp difference_laws (sub_ℕ_ext _ _ _ _ (omega arith))

pub +ℤ-*ℤ : (a b c : ℤ) → (a +ℤ b) *ℤ c ≡ a *ℤ c +ℤ b *ℤ c
+ℤ-*ℤ =
    by_differences₃ (λ a b c. (a +ℤ b) *ℤ c ≡ a *ℤ c +ℤ b *ℤ c)
      λ x y u v s t. simp difference_laws (sub_ℕ_ext _ _ _ _ (omega arith))

pub -ℤ-*ℤ : (a b c : ℤ) → (a -ℤ b) *ℤ c ≡ a *ℤ c -ℤ b *ℤ c
-ℤ-*ℤ =
    by_differences₃ (λ a b c. (a -ℤ b) *ℤ c ≡ a *ℤ c -ℤ b *ℤ c)
      λ x y u v s t. simp difference_laws (sub_ℕ_ext _ _ _ _ (omega arith))

pub +ℤ_swap : (a b c d : ℤ) → (a +ℤ b) +ℤ (c +ℤ d) ≡ (a +ℤ c) +ℤ (b +ℤ d)
+ℤ_swap a b c d =
    by_differences₃ (λ a b c. (a +ℤ b) +ℤ (c +ℤ d) ≡ (a +ℤ c) +ℤ (b +ℤ d))
      (λ x y u v s t.
        by_difference
          (λ d.
            (sub_ℕ x y +ℤ sub_ℕ u v) +ℤ (sub_ℕ s t +ℤ d)
            ≡ (sub_ℕ x y +ℤ sub_ℕ s t) +ℤ (sub_ℕ u v +ℤ d))
          (λ p q. simp difference_laws (sub_ℕ_ext _ _ _ _ (omega arith))) d)
      a b c

pub +ℤ_left_comm : (a b c : ℤ) → a +ℤ (b +ℤ c) ≡ b +ℤ (a +ℤ c)
+ℤ_left_comm a b c = rw (← +ℤ_assoc a b c, ← +ℤ_assoc b a c, +ℤ_comm a b)

pub *ℤ_left_comm : (a b c : ℤ) → a *ℤ (b *ℤ c) ≡ b *ℤ (a *ℤ c)
*ℤ_left_comm a b c = rw (← *ℤ_assoc a b c, ← *ℤ_assoc b a c, *ℤ_comm a b)

pub *ℤ-+ℤ : (a b c : ℤ) → a *ℤ (b +ℤ c) ≡ a *ℤ b +ℤ a *ℤ c
*ℤ-+ℤ a b c = rw (*ℤ_comm a (b +ℤ c), +ℤ-*ℤ b c a, *ℤ_comm b a, *ℤ_comm c a)

pub *ℤ--ℤ : (a b c : ℤ) → a *ℤ (b -ℤ c) ≡ a *ℤ b -ℤ a *ℤ c
*ℤ--ℤ a b c = rw (*ℤ_comm a (b -ℤ c), -ℤ-*ℤ b c a, *ℤ_comm b a, *ℤ_comm c a)

pub zero-+ℤ : (a : ℤ) → pos 0 +ℤ a ≡ a
zero-+ℤ =
    by_difference (λ a. pos 0 +ℤ a ≡ a)
      λ x y. simp difference_laws (sub_ℕ_ext _ _ _ _ (omega arith))

pub zero-*ℤ : (a : ℤ) → pos 0 *ℤ a ≡ pos 0
zero-*ℤ =
    by_difference (λ a. pos 0 *ℤ a ≡ pos 0)
      λ x y. simp difference_laws (sub_ℕ_ext _ _ _ _ (omega arith))

pub one-*ℤ : (a : ℤ) → pos 1 *ℤ a ≡ a
one-*ℤ =
    by_difference (λ a. pos 1 *ℤ a ≡ a)
      λ x y. simp difference_laws (sub_ℕ_ext _ _ _ _ (omega arith))

pub +ℤ-zero : (a : ℤ) → a +ℤ pos 0 ≡ a
+ℤ-zero a = +ℤ_comm a (pos 0) ∙ zero-+ℤ a

pub *ℤ-zero : (a : ℤ) → a *ℤ pos 0 ≡ pos 0
*ℤ-zero a = *ℤ_comm a (pos 0) ∙ zero-*ℤ a

pub *ℤ-one : (a : ℤ) → a *ℤ pos 1 ≡ a
*ℤ-one a = *ℤ_comm a (pos 1) ∙ one-*ℤ a

pub -ℤ-zero : (a : ℤ) → a -ℤ pos 0 ≡ a
-ℤ-zero =
    by_difference (λ a. a -ℤ pos 0 ≡ a)
      λ x y. simp difference_laws (sub_ℕ_ext _ _ _ _ (omega arith))

pub sub-self_ℤ : (a : ℤ) → a -ℤ a ≡ pos 0
sub-self_ℤ =
    by_difference (λ a. a -ℤ a ≡ pos 0)
      λ x y. simp difference_laws (sub_ℕ_ext _ _ _ _ (omega arith))

pub pos-+ : (m n : ℕ) → pos m +ℤ pos n ≡ pos (m + n)
pos-+ m n = simp difference_laws (sub_ℕ_ext _ _ _ _ (omega arith))

pub pos-* : (m n : ℕ) → pos m *ℤ pos n ≡ pos (m * n)
pos-* m n = simp difference_laws (sub_ℕ_ext _ _ _ _ (omega arith))

pub pos-sub : (m n : ℕ) → n ≤ m → pos m -ℤ pos n ≡ pos (m - n)
pos-sub m n h = simp difference_laws (sub_ℕ_ext _ _ _ _ (omega arith))

pub sub-add_cancel_ℤ : (a b : ℤ) → a -ℤ b +ℤ b ≡ a
sub-add_cancel_ℤ =
    by_differences₂ (λ a b. a -ℤ b +ℤ b ≡ a)
      λ x y u v. simp difference_laws (sub_ℕ_ext _ _ _ _ (omega arith))

pub eq_of_sub_zero : (a b : ℤ) → a -ℤ b ≡ pos 0 → a ≡ b
eq_of_sub_zero a b h = sym (sub-add_cancel_ℤ a b) ∙ rw h (zero-+ℤ b)

-- Sums of products in one order.
pub ruleset ring_laws = (
  +ℤ_comm, +ℤ_assoc, +ℤ_left_comm, *ℤ_comm, *ℤ_assoc, *ℤ_left_comm, *ℤ-+ℤ, +ℤ-*ℤ, zero-+ℤ, +ℤ-zero,
  zero-*ℤ, *ℤ-zero, one-*ℤ, *ℤ-one,
)

sorted : (a b c d : ℤ) → (a +ℤ b *ℤ c) *ℤ d +ℤ c ≡ c +ℤ (b *ℤ (d *ℤ c) +ℤ d *ℤ a)
sorted a b c d = simp ring_laws

pub add-sub_cancel_ℤ : (a b : ℤ) → a +ℤ b -ℤ a ≡ b
add-sub_cancel_ℤ =
    by_differences₂ (λ a b. a +ℤ b -ℤ a ≡ b)
      λ x y u v. simp difference_laws (sub_ℕ_parts_ext x y u v)
  where
    sub_ℕ_parts_ext : (x y u v : ℕ) → sub_ℕ (x + u + y) (y + v + x) ≡ sub_ℕ u v
    sub_ℕ_parts_ext x y u v = sub_ℕ_ext _ _ _ _ (omega arith)
