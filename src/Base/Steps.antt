-- ===== src/Base/Steps.antt =====
-- Methods of a class that may throw: what ran before an exception keeps its effect on the state.
use mathlib.Core.Path.{◌≡◌, refl, ap}
use nero_mpc_sdk.Base.Throws.{Throws, ok, throw}

abbrev pub Steps : Type 0 → Type 0 → Type 0
Steps S A = S → S × Throws A

module _ {S : Type 0} where
  -- The rest of a method, from what its first part left.
  abbrev pub continue : {A B : Type 0} → S × Throws A → (A → Steps S B) → S × Throws B
  continue (s, ok a) rest = rest a s
  continue (s, throw message) rest = (s, throw message)

  infixl 5 ◌>>◌ ◌>>=◌
  abbrev pub ◌>>=◌ : {A B : Type 0} → Steps S A → (A → Steps S B) → Steps S B
  ◌>>=◌ first rest = λ s. continue (first s) rest

  abbrev pub ◌>>◌ : {B : Type 0} → Steps S (Unit {0}) → Steps S B → Steps S B
  ◌>>◌ first rest = first >>= λ done. rest

  -- A call that leaves the state alone.
  abbrev pub call : {A : Type 0} → Throws A → Steps S A
  call result = λ s. (s, result)

  abbrev pub return : {A : Type 0} → A → Steps S A
  return a = call (ok a)

  abbrev pub update : (S → S) → Steps S (Unit {0})
  update change = λ s. (change s, ok tt)

  abbrev pub read : {A : Type 0} → (S → A) → Steps S A
  read look = λ s. (s, ok (look s))

  -- `try { … } finally { … }`.
  abbrev pub finally : {A : Type 0} → Steps S A → (S → S) → Steps S A
  finally body change = λ s. let (t, result) = body s in (change t, result)

  -- Inversion of a method that returned.
  pub continue-eq-ok :
      {A B : Type 0} (first : S × Throws A) (rest : A → Steps S B) {t : S} {b : B}
      → continue first rest ≡ (t, ok b)
      → (a : A) × (first.1 ≡ ok a) × (rest a first.0 ≡ (t, ok b))
  continue-eq-ok (s, ok a) rest h = (a, refl, h)
  continue-eq-ok (s, throw message) rest {b} h = absurd (differ (ap (λ p. p.1) h))
    where
      differ : throw message ≡ ok b → ⊥
      differ e = cc

  -- The same state and the same value.
  pub returned_same :
      {A : Type 0} {s t : S} {a b : A}
      → ◌≡◌ {A = S × Throws A} (s, ok a) (t, ok b)
      → ◌≡◌ {A = S × A} (s, a) (t, b)
  returned_same {A} {a} e = ap (λ r. (r.0, value_of r.1)) e
    where
      value_of : Throws A → A
      value_of (ok x) = x
      value_of (throw message) = a

  -- Inversion that names the state between.
  pub continue-returns :
      {A B : Type 0} (first : S × Throws A) (rest : A → Steps S B) {t : S} {b : B}
      → continue first rest ≡ (t, ok b)
      → (s : S) × (a : A) × (first ≡ (s, ok a)) × (rest a s ≡ (t, ok b))
  continue-returns (s, ok a) rest h = (s, a, refl, h)
  continue-returns (s, throw message) rest h = absurd (differ (ap (λ p. p.1) h))
    where
      differ : {A : Type 0} {a : A} → throw message ≡ ok a → ⊥
      differ e = cc
