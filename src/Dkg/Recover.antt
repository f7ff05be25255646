-- ===== src/Dkg/Recover.antt =====
-- Two parties recover the constant coefficient of a line (src/protocols/dkg/polynomial.ts).
use nero_mpc_sdk.Base.{ℕ, ◌<◌, ◌≡◌, ◌≢◌, refl, sym, ap, ◌∙◌, arith, ==_iff, false, ◌==◌, [], ◌∷◌}
use nero_mpc_sdk.Bigint.{
  ℤ, pos, ◌+ℤ◌, ◌-ℤ◌, ◌*ℤ◌, ring_laws, residue, residue-lt, Cong, Cong-trans, Cong-symm, Cong-of_eq,
  Cong-+ℤ, Cong-*ℤ, Cong-residue, sub-add_cancel_ℤ, by_differences₂, difference_laws, sub_ℕ_ext,
}
use nero_mpc_sdk.Modular.{mod_inverse-Cong, mod_inverse}
use nero_mpc_sdk.Noble.{Noble, Lawful, order_pos}
use nero_mpc_sdk.Dkg.Lagrange.{others, compute_lagrange_coefficient_lem}
use nero_mpc_sdk.Dkg.{compute_lagrange_coefficient, evaluate_polynomial}
use nero_mpc_sdk.Dkg.Evaluate.{horner, evaluate_polynomial-horner}

module _ (lib : Noble) (laws : Lawful lib) where
  open lib use {order}

  weighted_line :
      (l1 l2 d m i j a b : ℤ)
      → Cong order (l1 *ℤ d) m
      → Cong order (l2 *ℤ d) i
      → m +ℤ j ≡ pos 0
      → d +ℤ j ≡ i
      → Cong order ((l1 *ℤ (a +ℤ i *ℤ b) +ℤ l2 *ℤ (a +ℤ j *ℤ b)) *ℤ d) (a *ℤ d)
  weighted_line l1 l2 d m i j a b h1 h2 z t =
      Cong-trans
        (Cong-of_eq {b = (l1 *ℤ d) *ℤ (a +ℤ i *ℤ b) +ℤ (l2 *ℤ d) *ℤ (a +ℤ j *ℤ b)} (simp ring_laws))
        (Cong-trans (Cong-+ℤ (Cong-*ℤ h1 (Cong-of_eq refl)) (Cong-*ℤ h2 (Cong-of_eq refl))) (
          Cong-of_eq (
            collected
            ∙ ap (λ s. (m +ℤ s) *ℤ a +ℤ (m +ℤ j) *ℤ (i *ℤ b)) (sym t)
            ∙ regrouped
            ∙ ap (λ s. d *ℤ a +ℤ (s *ℤ a +ℤ s *ℤ (i *ℤ b))) z
            ∙ simp ring_laws)))
    where
      collected : m *ℤ (a +ℤ i *ℤ b) +ℤ i *ℤ (a +ℤ j *ℤ b) ≡ (m +ℤ i) *ℤ a +ℤ (m +ℤ j) *ℤ (i *ℤ b)
      collected = simp ring_laws

      regrouped :
          (m +ℤ (d +ℤ j)) *ℤ a +ℤ (m +ℤ j) *ℤ (i *ℤ b)
          ≡ d *ℤ a +ℤ ((m +ℤ j) *ℤ a +ℤ (m +ℤ j) *ℤ (i *ℤ b))
      regrouped = simp ring_laws

  opposite :
      (l d d' m i : ℤ)
      → Cong order (l *ℤ d') m
      → d' +ℤ d ≡ pos 0
      → m +ℤ i ≡ pos 0
      → Cong order (l *ℤ d) i
  opposite l d d' m i h z t = Cong-trans (Cong-of_eq {b = l *ℤ d +ℤ pos 0} (simp ring_laws)) (
      Cong-trans (Cong-of_eq (ap (λ s. l *ℤ d +ℤ s) (sym t))) (
        Cong-trans (Cong-+ℤ (Cong-of_eq refl) (Cong-+ℤ (Cong-symm h) (Cong-of_eq refl)))
          (Cong-of_eq (gathered ∙ ap (λ s. l *ℤ s +ℤ i) z ∙ simp ring_laws))))
    where
      gathered : l *ℤ d +ℤ (l *ℤ d' +ℤ i) ≡ l *ℤ (d' +ℤ d) +ℤ i
      gathered = simp ring_laws

  -- A factor that is not 0 up to the order is cancelled.
  cancel : (s a d : ℤ) → ¬ (Cong order d (pos 0)) → Cong order (s *ℤ d) (a *ℤ d) → Cong order s a
  cancel s a d d_ne c =
      let n_pos = order_pos lib laws in
      let inverse = mod_inverse (pos (residue order d)) (pos order) in
      let unit : Cong order (pos 1) (d *ℤ inverse) = Cong-symm (
        Cong-trans (Cong-*ℤ (Cong-symm (Cong-residue order d n_pos)) (Cong-of_eq refl)) (
          Cong-trans (Cong-of_eq {b = inverse *ℤ pos (residue order d)} (simp ring_laws)) (
            mod_inverse-Cong order (residue order d) laws.order_prime
              (positive (residue order d) (λ e.
                d_ne (Cong-trans (Cong-symm (Cong-residue order d n_pos)) (Cong-of_eq (ap pos e)))))
              (residue-lt order d n_pos)))) in
      let expand : (t : ℤ) → Cong order t ((t *ℤ d) *ℤ inverse) = λ t.
        Cong-trans (Cong-of_eq {b = t *ℤ pos 1} (simp ring_laws))
          (Cong-trans (Cong-*ℤ (Cong-of_eq refl) unit) (Cong-of_eq (simp ring_laws))) in
      Cong-trans (expand s) (Cong-trans (Cong-*ℤ c (Cong-of_eq refl)) (Cong-symm (expand a)))
    where
      positive : (k : ℕ) → k ≢ 0 → 0 < k
      positive k h = omega arith

  pair :
      (f : ℤ → ℤ) (i j : ℕ)
      → i ≢ j
      → (others f (pos i) (pos i ∷ pos j ∷ []) ≡ f (pos j))
        × (others f (pos j) (pos i ∷ pos j ∷ []) ≡ f (pos i))
  unfolding others
  pair f i j ne = (
    rw ((==_iff i i).1 refl, different j i (λ e. ne (sym e))) (simp ring_laws),
    rw ((==_iff j j).1 refl, different i j ne) (simp ring_laws),
  )
    where
      different : (x y : ℕ) → x ≢ y → (x == y) ≡ false
      different x y h = ground arith

  line :
      (a b : ℤ) (k : ℕ)
      → Cong order (evaluate_polynomial lib (a ∷ b ∷ []) (pos k)) (a +ℤ pos k *ℤ b)
  unfolding horner
  line a b k =
      Cong-trans (Cong-of_eq (evaluate_polynomial-horner lib laws (a ∷ b ∷ []) (pos k)))
        (Cong-trans (Cong-residue order _ (order_pos lib laws)) (Cong-of_eq (simp ring_laws)))

  -- Two different party indices `i` and `j` below the order and any line `a + b * x`: the values of
  -- the line at the two indices, weighted with their Lagrange coefficients, add up to `a`.
  pub two_parties_recover :
      (i j : ℕ) (a b : ℤ)
      → i < order
      → j < order
      → i ≢ j
      → Cong order
          (compute_lagrange_coefficient lib (pos i) (pos i ∷ pos j ∷ [])
              *ℤ evaluate_polynomial lib (a ∷ b ∷ []) (pos i)
            +ℤ compute_lagrange_coefficient lib (pos j) (pos i ∷ pos j ∷ [])
              *ℤ evaluate_polynomial lib (a ∷ b ∷ []) (pos j))
          a
  two_parties_recover i j a b i_lt j_lt ne =
      let n_pos = order_pos lib laws in
      let js = i ∷ j ∷ [] in
      let (l1, e1, _, c1, n1) =
        compute_lagrange_coefficient_lem lib laws i js i_lt (i_lt, (j_lt, tt)) in
      let (l2, e2, _, c2, _) =
        compute_lagrange_coefficient_lem lib laws j js j_lt (i_lt, (j_lt, tt)) in
      let d = pos i -ℤ pos j in
      let below = pair (λ t. pos i -ℤ t) i j ne in
      let first : Cong order (pos l1 *ℤ d) (pos 0 -ℤ pos j) =
        Cong-trans (Cong-of_eq (ap (λ t. pos l1 *ℤ t) (sym below.0)))
          (Cong-trans c1 (Cong-of_eq (pair (λ t. pos 0 -ℤ t) i j ne).0)) in
      let second : Cong order (pos l2 *ℤ (pos j -ℤ pos i)) (pos 0 -ℤ pos i) =
        Cong-trans (Cong-of_eq (ap (λ t. pos l2 *ℤ t) (sym (pair (λ t. pos j -ℤ t) i j ne).1)))
          (Cong-trans c2 (Cong-of_eq (pair (λ t. pos 0 -ℤ t) i j ne).1)) in
      cancel _ a d (λ z. n1 (Cong-trans (Cong-of_eq below.0) z))
        (Cong-trans
          (Cong-*ℤ
            (Cong-+ℤ (Cong-*ℤ (Cong-of_eq e1) (line a b i)) (Cong-*ℤ (Cong-of_eq e2) (line a b j)))
            (Cong-of_eq refl))
          (weighted_line (pos l1) (pos l2) d (pos 0 -ℤ pos j) (pos i) (pos j) a b first
            (opposite (pos l2) d (pos j -ℤ pos i) (pos 0 -ℤ pos i) (pos i) second
              (turned (pos i) (pos j)) (sub-add_cancel_ℤ (pos 0) (pos i)))
            (sub-add_cancel_ℤ (pos 0) (pos j)) (sub-add_cancel_ℤ (pos i) (pos j))))
    where
      turned : (x y : ℤ) → (y -ℤ x) +ℤ (x -ℤ y) ≡ pos 0
      turned =
          by_differences₂ (λ x y. (y -ℤ x) +ℤ (x -ℤ y) ≡ pos 0)
            (λ x y u v. simp difference_laws (sub_ℕ_ext _ _ _ _ (omega arith)))
