-- ===== src/Noble/Defs.antt =====
-- The interface, and the laws that a theorem may assume of it.
use nero_mpc_sdk.Base.{
  ℕ, zero, suc, ◌*◌, ◌%◌, ◌^◌, ◌<◌, ◌≡◌, ◌≢◌, ◌↔◌, ◌⊎◌, Bool, true, Option, none, some, All, length,
}
use nero_mpc_sdk.Bigint.{ℤ, pos, ◌≤ℤ◌}
use nero_mpc_sdk.Modular.{IsPrime}
use nero_mpc_sdk.Hex.{Text, Bytes, IsLowerHex}

pub record Noble : Type 1 where
  -- secp256k1.CURVE.n
  pub order : ℕ
  -- ProjectivePoint, its BASE and ZERO, and its methods; `none` is a thrown error
  pub Point : Type 0
  pub base : Point
  pub infinity : Point
  pub add : Point → Point → Point
  pub subtract : Point → Point → Point
  pub multiply : Point → ℤ → Option Point
  pub equals : Point → Point → Bool
  -- toHex and toRawBytes, with the flag for the compressed form
  pub to_hex : Bool → Point → Option Text
  pub to_raw_bytes : Bool → Point → Option Bytes
  -- ProjectivePoint.fromHex, which takes a text or bytes
  pub from_hex : Text → Option Point
  pub from_bytes : Bytes → Option Point
  -- toAffine().x and .y
  pub affine_x : Point → ℕ
  pub affine_y : Point → ℕ
  pub sha256 : Bytes → Bytes
  pub utf8_to_bytes : Text → Bytes
  pub bytes_to_hex : Bytes → Text
  pub hex_to_bytes : Text → Option Bytes

abbrev pub IsByte : ℕ → Type 0
IsByte b = b < 256

-- `k` summands `p`.
unfoldable pub times : (lib : Noble) → ℕ → lib.Point → lib.Point
times lib zero p = lib.infinity
times lib (suc k) p = lib.add p (times lib k p)

-- Documented behaviour: a group of prime order that fits 256 bits with `base` as generator; `multiply` takes
-- the scalars from 1 up to the order and throws outside; the point at infinity has no encoding.
pub record Lawful (lib : Noble) : Type 0 where
  pub order_prime : IsPrime lib.order
  pub order_size : lib.order < 2 ^ 256
  pub add_assoc : (p q r : lib.Point) → lib.add (lib.add p q) r ≡ lib.add p (lib.add q r)
  pub add_comm : (p q : lib.Point) → lib.add p q ≡ lib.add q p
  pub infinity_add : (p : lib.Point) → lib.add lib.infinity p ≡ p
  pub add_subtract : (p q : lib.Point) → lib.subtract (lib.add p q) q ≡ p
  pub subtract_add : (p q : lib.Point) → lib.add (lib.subtract p q) q ≡ p
  pub times_order : (p : lib.Point) → times lib lib.order p ≡ lib.infinity
  pub base_order : (k : ℕ) → times lib k lib.base ≡ lib.infinity → k % lib.order ≡ 0
  pub multiply_in :
      (p : lib.Point) (k : ℕ)
      → 0 < k
      → k < lib.order
      → lib.multiply p (pos k) ≡ some (times lib k p)
  pub multiply_out :
      (p : lib.Point) (k : ℤ) → (k ≤ℤ pos 0) ⊎ (pos lib.order ≤ℤ k) → lib.multiply p k ≡ none
  pub equals_iff : (p q : lib.Point) → (lib.equals p q ≡ true) ↔ (p ≡ q)
  pub to_hex_infinity : (c : Bool) → lib.to_hex c lib.infinity ≡ none
  pub to_hex_finite :
      (c : Bool) (p : lib.Point)
      → p ≢ lib.infinity
      → (h : Text) × (lib.to_hex c p ≡ some h) × (lib.from_hex h ≡ some p)
  pub to_raw_bytes_infinity : (c : Bool) → lib.to_raw_bytes c lib.infinity ≡ none
  pub to_raw_bytes_finite :
      (c : Bool) (p : lib.Point)
      → p ≢ lib.infinity
      → (b : Bytes) × (lib.to_raw_bytes c p ≡ some b) × (lib.from_bytes b ≡ some p)
  pub length-sha256 : (b : Bytes) → length (lib.sha256 b) ≡ 32
  pub All-sha256 : (b : Bytes) → All IsByte (lib.sha256 b)
  pub bytes_to_hex_lower :
      (b : Bytes)
      → All IsByte b
      → All IsLowerHex (lib.bytes_to_hex b) × (length (lib.bytes_to_hex b) ≡ 2 * length b)
  pub hex_to_bytes-bytes_to_hex :
      (b : Bytes) → All IsByte b → lib.hex_to_bytes (lib.bytes_to_hex b) ≡ some b
  pub hex_to_bytes_lower :
      (s : Text) (k : ℕ)
      → All IsLowerHex s
      → length s ≡ 2 * k
      → (b : Bytes) × (lib.hex_to_bytes s ≡ some b)
        × (length b ≡ k)
        × All IsByte b
        × (lib.bytes_to_hex b ≡ s)
