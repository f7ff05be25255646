-- ===== src/Base/Maps.antt =====
-- A `Map` with numbers as keys: its entries in the order of their insertion.
use mathlib.Core.Path.{◌≡◌, refl}
use mathlib.Core.Logic.{◌≢◌, inl, inr}
use mathlib.Core.Bool.{Bool, true, false}
use mathlib.Core.List.{List, [], ◌∷◌}
use mathlib.Core.Option.{Option, none, some}
use Prim.Native.Nat.{ℕ}
use native.Mathlib.Omega.{arith}
use nero_mpc_sdk.Base.Tests.{◌==◌, ==_iff, if◌then◌else◌, Bool-cases}

different : (k j : ℕ) → k ≢ j → (k == j) ≡ false
different k j h = ground arith

module _ {ℓ} {V : Type ℓ} where
  unfoldable pub get : ℕ → List (ℕ × V) → Option V
  get key [] = none
  get key (entry ∷ entries) =
      let rest = get key entries in if key == entry.0 then some entry.1 else rest

  -- `Map.set` keeps the place of a key that is there.
  unfoldable pub set : ℕ → V → List (ℕ × V) → List (ℕ × V)
  set key value [] = (key, value) ∷ []
  set key value (entry ∷ entries) =
      let rest = set key value entries in
      if key == entry.0 then (key, value) ∷ entries else entry ∷ rest

  unfoldable pub delete : ℕ → List (ℕ × V) → List (ℕ × V)
  delete key [] = []
  delete key (entry ∷ entries) =
      let rest = delete key entries in if key == entry.0 then rest else entry ∷ rest

  unfoldable pub has : ℕ → List (ℕ × V) → Bool
  has key [] = false
  has key (entry ∷ entries) = let rest = has key entries in if key == entry.0 then true else rest

  pub get-set_same :
      (key : ℕ) (value : V) (m : List (ℕ × V)) → get key (set key value m) ≡ some value
  unfolding get set
  get-set_same key value [] = rw ((==_iff key key).1 refl)
  get-set_same key value (entry ∷ m) = elim (Bool-cases (key == entry.0)) [
    | inl e ↦ rw (e, (==_iff key key).1 refl)
    | inr e ↦ rw (e, e) (get-set_same key value m)
  ]

  pub get-set_other :
      (key other : ℕ) (value : V) (m : List (ℕ × V))
      → other ≢ key
      → get other (set key value m) ≡ get other m
  unfolding get set
  get-set_other key other value [] ne = rw (different other key ne)
  get-set_other key other value (entry ∷ m) ne = elim (Bool-cases (key == entry.0)) [
    | inl e ↦ rw (
      e,
      different other key ne,
      different other entry.0 (λ f. ne (omega (arith, f, (==_iff key entry.0).0 e))),
    )
    | inr e ↦ rw (e, get-set_other key other value m ne)
  ]

  pub get-delete_same : (key : ℕ) (m : List (ℕ × V)) → get key (delete key m) ≡ none
  unfolding get delete
  get-delete_same key [] = refl
  get-delete_same key (entry ∷ m) = elim (Bool-cases (key == entry.0)) [
    | inl e ↦ rw e (get-delete_same key m)
    | inr e ↦ rw (e, e) (get-delete_same key m)
  ]

  pub get-delete_other :
      (key other : ℕ) (m : List (ℕ × V)) → other ≢ key → get other (delete key m) ≡ get other m
  unfolding get delete
  get-delete_other key other [] ne = refl
  get-delete_other key other (entry ∷ m) ne = elim (Bool-cases (key == entry.0)) [
    | inl e ↦
        rw (e, different other entry.0 (λ f. ne (omega (arith, f, (==_iff key entry.0).0 e))))
          (get-delete_other key other m ne)
    | inr e ↦ rw (e, get-delete_other key other m ne)
  ]
