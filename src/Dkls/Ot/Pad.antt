-- ===== src/Dkls/Ot/Pad.antt =====
-- The bytes of a scalar, and the one-time pad.
use Prim.Native.Nat.{bit_xor}
use nero_mpc_sdk.Base.{
  ℕ, zero, suc, ◌^◌, ◌<◌, ◌≡◌, refl, ap₂, arith, ◌==◌, ==_iff, ltb, ltb→lt, Bool, true, false,
  if◌then◌else◌, [], ◌∷◌, length, All, some,
}
use nero_mpc_sdk.Base.Throws.{ok}
use nero_mpc_sdk.Bigint.{pos}
use nero_mpc_sdk.Hex.{
  Bytes, hex_to_scalar, scalar_to_hex, hex_to_scalar-scalar_to_hex, length-scalar_to_hex,
  All-scalar_to_hex, parse_bigint16,
}
use nero_mpc_sdk.Noble.{Noble, Lawful, IsByte}
use nero_mpc_sdk.Dkls.Ot.{xor_bytes, scalar_to_bytes, bytes_to_scalar}

every : (ℕ → Bool) → ℕ → Bool
every test zero = true
every test (suc bound) = if test bound then every test bound else false

every-test : (test : ℕ → Bool) (bound k : ℕ) → k < bound → every test bound ≡ true → test k ≡ true
unfolding every
every-test test zero k lt e = absurd (omega arith)
every-test test (suc bound) k lt e = ground (arith, every-test test bound k)

xor_table : every (λ x. every (λ y. bit_xor (bit_xor x y) y == x) 256) 256 ≡ true
unfolding every
xor_table = refl

xor_twice : (x y : ℕ) → x < 256 → y < 256 → bit_xor (bit_xor x y) y ≡ x
xor_twice x y hx hy = (==_iff _ x).0 (
    every-test (λ y. bit_xor (bit_xor x y) y == x) 256 y hy
      (every-test (λ x. every (λ y. bit_xor (bit_xor x y) y == x) 256) 256 x hx xor_table))

-- A pad that is as long as the message is undone by itself.
pub xor_bytes_undo :
    (m k : Bytes)
    → All IsByte m
    → All IsByte k
    → length m ≡ length k
    → xor_bytes (xor_bytes m k) k ≡ m
unfolding xor_bytes
xor_bytes_undo [] k h hk e = refl
xor_bytes_undo (x ∷ m) [] h hk e = absurd (omega arith)
xor_bytes_undo (x ∷ m) (y ∷ k) (hx, h) (hy, hk) e =
    ap₂ ◌∷◌ (xor_twice x y hx hy) (xor_bytes_undo m k h hk (omega arith))

xor_range : every (λ x. every (λ y. ltb (bit_xor x y) 256) 256) 256 ≡ true
unfolding every
xor_range = refl

xor-lt : (x y : ℕ) → x < 256 → y < 256 → bit_xor x y < 256
xor-lt x y hx hy = ltb→lt _ 256 (
    every-test (λ y. ltb (bit_xor x y) 256) 256 y hy
      (every-test (λ x. every (λ y. ltb (bit_xor x y) 256) 256) 256 x hx xor_range))

pub xor_bytes-IsByte : (m k : Bytes) → All IsByte m → All IsByte k → All IsByte (xor_bytes m k)
unfolding xor_bytes
xor_bytes-IsByte [] k h hk = tt
xor_bytes-IsByte (x ∷ m) [] (hx, h) hk = (hx, xor_bytes-IsByte m [] h hk)
xor_bytes-IsByte (x ∷ m) (y ∷ k) (hx, h) (hy, hk) = (xor-lt x y hx hy, xor_bytes-IsByte m k h hk)

-- The bytes of a scalar below 2 ^ 256, which read back as the scalar.
pub record ScalarBytes (lib : Noble) (n : ℕ) : Type 0 where
  pub bytes : Bytes
  pub written : scalar_to_bytes lib (pos n) ≡ ok bytes
  pub read : bytes_to_scalar lib bytes ≡ ok (pos n)
  pub length_bytes : length bytes ≡ 32
  pub all_bytes : All IsByte bytes

pub scalar_to_bytes-ScalarBytes :
    (lib : Noble) (laws : Lawful lib) (n : ℕ) → n < 2 ^ 256 → ScalarBytes lib n
unfolding scalar_to_bytes bytes_to_scalar
scalar_to_bytes-ScalarBytes lib laws n h =
    let (b, e, len, bytes, back) =
      laws.hex_to_bytes_lower (scalar_to_hex (pos n)) 32 (All-scalar_to_hex n)
        (length-scalar_to_hex n h) in
    record {
      bytes = b;
      written = rw e;
      read = rw (back, read_back n);
      length_bytes = len;
      all_bytes = bytes;
    }
  where
    read_back : (n : ℕ) → parse_bigint16 (scalar_to_hex (pos n)) ≡ some (pos n)
    read_back n = unfold hex_to_scalar in hex_to_scalar-scalar_to_hex n
