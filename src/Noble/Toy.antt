-- ===== src/Noble/Toy.antt =====
-- A group of seven elements and naive encodings, at which the theorems are instantiated.
use mathlib.Core.HLevel.{Σ_prop_path}
use mathlib.Core.Logic.{◌⊎◌, inl, inr}
use native.Mathlib.Bridge.{le_prop}
use native.Mathlib.Nat.{le_of_dvd, mod-eq-zero_of_dvd}
use nero_mpc_sdk.Base.{
  ℕ, zero, suc, ◌+◌, ◌-◌, ◌*◌, ◌/◌, ◌%◌, ◌<◌, ◌≤◌, ◌≡◌, ◌≢◌, refl, sym, ap, arith, ltb, ◌==◌, ◌&&◌,
  if◌then◌else◌, Option, none, some, List, [], ◌∷◌, All, length, length-replicate, replicate,
  ==_iff, lt→ltb,
}
use nero_mpc_sdk.Bigint.{ℤ, pos, negsuc, ◌≤ℤ◌}
use nero_mpc_sdk.Modular.{IsPrime}
use nero_mpc_sdk.Hex.{Text, Bytes, hex_char, hex_value, IsLowerHex}
use nero_mpc_sdk.Noble.Defs.{Noble, Lawful, IsByte, times}

abbrev pub Residue7 : Type 0
Residue7 = (k : ℕ) × (k < 7)

abbrev at7 : (k : ℕ) → Residue7
at7 k = (k % 7, omega arith)

same7 : {p q : Residue7} → p.0 ≡ q.0 → p ≡ q
same7 e = Σ_prop_path (λ n. le_prop) e

abbrev multiple : Residue7 → ℤ → Option Residue7
multiple p (pos k) = if ltb 0 k && ltb k 7 then some (at7 (k * p.0)) else none
multiple p (negsuc k) = none

abbrev encode : Residue7 → Option (List ℕ)
encode p = if p.0 == 0 then none else some (p.0 ∷ [])

abbrev decode : List ℕ → Option Residue7
decode (k ∷ []) = some (at7 k)
decode _ = none

abbrev write_hex : Bytes → Text
write_hex [] = []
write_hex (b ∷ bs) = hex_char (b / 16) ∷ hex_char (b % 16) ∷ write_hex bs

abbrev join : Option ℕ → Option ℕ → Option Bytes → Option Bytes
join (some hi) (some lo) (some bs) = some ((hi * 16 + lo) ∷ bs)
join _ _ _ = none

abbrev read_hex : Text → Option Bytes
read_hex [] = some []
read_hex (c ∷ []) = none
read_hex (c ∷ d ∷ s) = join (hex_value c) (hex_value d) (read_hex s)

abbrev pub toy : Noble
toy = record {
  order = 7;
  Point = Residue7;
  base = at7 1;
  infinity = at7 0;
  add = λ p q. at7 (p.0 + q.0);
  subtract = λ p q. at7 (p.0 + 7 - q.0);
  multiply = multiple;
  equals = λ p q. p.0 == q.0;
  to_hex = λ c p. encode p;
  to_raw_bytes = λ c p. encode p;
  from_hex = decode;
  from_bytes = decode;
  affine_x = λ p. p.0;
  affine_y = λ p. p.0 + 1;
  sha256 = λ b. replicate 32 (length b % 256);
  utf8_to_bytes = λ s. s;
  bytes_to_hex = write_hex;
  hex_to_bytes = read_hex;
}

times7 : (k : ℕ) (p : Residue7) → (times toy k p).0 ≡ k * p.0 % 7
unfolding times
times7 zero p = omega arith
times7 (suc k) p = omega (arith, times7 k p)

divisor7 : (d : ℕ) → 7 % d ≡ 0 → d ≤ 7 → (d ≡ 1) ⊎ (d ≡ 7)
divisor7 zero e h = absurd (omega arith)
divisor7 (suc zero) e h = inl refl
divisor7 (suc (suc zero)) e h = absurd (omega arith)
divisor7 (suc (suc (suc zero))) e h = absurd (omega arith)
divisor7 (suc (suc (suc (suc zero)))) e h = absurd (omega arith)
divisor7 (suc (suc (suc (suc (suc zero))))) e h = absurd (omega arith)
divisor7 (suc (suc (suc (suc (suc (suc zero)))))) e h = absurd (omega arith)
divisor7 (suc (suc (suc (suc (suc (suc (suc d))))))) e h = inr (omega arith)

pub prime7 : IsPrime 7
prime7 = (omega arith, λ d h. divisor7 d (mod-eq-zero_of_dvd d h) (le_of_dvd (omega arith) h))

hex_value-hex_char : (d : ℕ) → d < 16 → hex_value (hex_char d) ≡ some d
unfolding hex_value hex_char
hex_value-hex_char d h = ground arith

read-write : (b : Bytes) → All IsByte b → read_hex (write_hex b) ≡ some b
read-write [] h = refl
read-write (b ∷ bs) (h, hs) =
    rw
      (
        hex_value-hex_char (b / 16) (omega arith),
        hex_value-hex_char (b % 16) (omega arith),
        read-write bs hs,
      )
      (ap (λ t. some (t ∷ bs)) (omega arith))

write-IsLowerHex :
    (b : Bytes)
    → All IsByte b
    → All IsLowerHex (write_hex b) × (length (write_hex b) ≡ 2 * length b)
write-IsLowerHex [] h = (tt, refl)
write-IsLowerHex (b ∷ bs) (h, hs) =
    let (low, len) = write-IsLowerHex bs hs in
    (((b / 16, omega arith, refl), ((b % 16, omega arith, refl), low)), omega arith)

abbrev ReadBack : Text → ℕ → Type 0
ReadBack s k =
    (b : Bytes) × (read_hex s ≡ some b) × (length b ≡ k) × All IsByte b × (write_hex b ≡ s)

read-ReadBack : (s : Text) (k : ℕ) → All IsLowerHex s → length s ≡ 2 * k → ReadBack s k
read-ReadBack [] k h e = ([], refl, omega arith, tt, refl)
read-ReadBack (c ∷ []) k h e = absurd (omega arith)
read-ReadBack (c ∷ d ∷ s) zero h e = absurd (omega arith)
read-ReadBack (c ∷ d ∷ s) (suc k) ((hi, hi_lt, hi_eq), ((lo, lo_lt, lo_eq), h)) e =
    let (b, read, len, bytes, written) = read-ReadBack s k h (omega arith) in
    let high : (hi * 16 + lo) / 16 ≡ hi = omega arith in
    let low : (hi * 16 + lo) % 16 ≡ lo = omega arith in
    (
      (hi * 16 + lo) ∷ b,
      rw (hi_eq, lo_eq, hex_value-hex_char hi hi_lt, hex_value-hex_char lo lo_lt, read),
      omega arith,
      (omega arith, bytes),
      rw (high, low, written, hi_eq, lo_eq),
    )

encode_finite :
    (p : Residue7) → p ≢ at7 0 → (h : List ℕ) × (encode p ≡ some h) × (decode h ≡ some p)
encode_finite (zero, l) ne = absurd (ne (same7 refl))
encode_finite (suc k, l) ne = (suc k ∷ [], ground arith, ap some (same7 (omega arith)))

multiple_in : (p : Residue7) (k : ℕ) → 0 < k → k < 7 → multiple p (pos k) ≡ some (times toy k p)
multiple_in p k h l = rw (lt→ltb 0 k h, lt→ltb k 7 l) (ap some (same7 (sym (times7 k p))))

All-replicate : (n b : ℕ) → IsByte b → All IsByte (replicate n b)
All-replicate zero b h = tt
All-replicate (suc n) b h = (h, All-replicate n b h)

multiple_out : (p : Residue7) (k : ℤ) → (k ≤ℤ pos 0) ⊎ (pos 7 ≤ℤ k) → multiple p k ≡ none
multiple_out p (pos zero) h = refl
multiple_out p (pos (suc k)) (inl h) = absurd (omega arith)
multiple_out p (pos (suc k)) (inr h) = ground arith
multiple_out p (negsuc k) h = refl

pub toy_laws : Lawful toy
toy_laws = record {
  order_prime = prime7;
  order_size = omega arith;
  add_assoc = λ p q r. same7 (omega arith);
  add_comm = λ p q. same7 (omega arith);
  infinity_add = λ p. same7 (omega (arith, p.1));
  add_subtract = λ p q. same7 (omega (arith, p.1, q.1));
  subtract_add = λ p q. same7 (omega (arith, p.1, q.1));
  times_order = λ p. same7 (omega (arith, times7 7 p));
  base_order = λ k e. omega (arith, times7 k (at7 1), ap (λ t. t.0) e);
  multiply_in = multiple_in;
  multiply_out = multiple_out;
  equals_iff =
      λ p q. (λ e. same7 ((==_iff p.0 q.0).0 e), λ e. (==_iff p.0 q.0).1 (ap (λ t. t.0) e));
  to_hex_infinity = λ c. refl;
  to_hex_finite = λ c p ne. encode_finite p ne;
  to_raw_bytes_infinity = λ c. refl;
  to_raw_bytes_finite = λ c p ne. encode_finite p ne;
  length-sha256 = λ b. length-replicate 32 (length b % 256);
  All-sha256 = λ b. All-replicate 32 (length b % 256) (omega arith);
  bytes_to_hex_lower = write-IsLowerHex;
  hex_to_bytes-bytes_to_hex = read-write;
  hex_to_bytes_lower = read-ReadBack;
}
