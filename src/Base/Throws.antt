-- ===== src/Base/Throws.antt =====
-- Code that may throw: a value, or the message of the `Error`.
use Prim.Native.String.{String}
use mathlib.Core.Path.{◌≡◌, refl}
use mathlib.Core.Bool.{Bool, true, false}
use mathlib.Core.Option.{Option, none, some}

pub data Throws {ℓ} (A : Type ℓ) : Type ℓ where
  ok : A → Throws A
  throw : String → Throws A

infixl 5 ◌>>◌ ◌>>=◌
-- The next statement runs on the value of the one before.
abbrev pub ◌>>=◌ {ℓ κ} : {X : Type ℓ} {Y : Type κ} → Throws X → (next : X → Throws Y) → Throws Y
throw message >>= next = throw message
ok x >>= next = next x

-- A statement without a value.
abbrev pub ◌>>◌ {κ} : {Y : Type κ} (first : Throws (Unit {0})) (rest : Throws Y) → Throws Y
first >> rest = first >>= λ done. rest

-- `if (test) throw new Error(message)`.
abbrev pub throw_if : Bool → String → Throws (Unit {0})
throw_if true message = throw message
throw_if false message = ok tt

-- A call whose `none` is an exception.
abbrev pub or_throw {ℓ} : {A : Type ℓ} → Option A → String → Throws A
or_throw none message = throw message
or_throw (some a) message = ok a

-- `try { return … } catch { return false }`.
abbrev pub or_false : Throws Bool → Bool
or_false (ok b) = b
or_false (throw message) = false

-- Inversion of a chain that returned.
pub >>=-eq-ok {ℓ κ} :
    {X : Type ℓ} {Y : Type κ} (first : Throws X) (next : X → Throws Y) {result : Y}
    → (first >>= next) ≡ ok result
    → (x : X) × (first ≡ ok x) × (next x ≡ ok result)
>>=-eq-ok (throw message) next returned = cc
>>=-eq-ok (ok x) next returned = (x, refl, returned)

pub or_throw-eq-ok {ℓ} :
    {A : Type ℓ} (o : Option A) (message : String) {a : A} → or_throw o message ≡ ok a → o ≡ some a
or_throw-eq-ok none message h = cc
or_throw-eq-ok (some a) message h = cc

pub throw_if-eq-ok :
    (b : Bool) (message : String) {u : Unit {0}} → throw_if b message ≡ ok u → b ≡ false
throw_if-eq-ok true message h = cc
throw_if-eq-ok false message h = refl
