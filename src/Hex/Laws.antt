-- ===== src/Hex/Laws.antt =====
-- Reading back what was written.
use mathlib.Core.WellFounded.{Acc}
use native.Mathlib.Nat.{pow-suc}
use nero_mpc_sdk.Base.{
  ℕ, zero, suc, ◌+◌, ◌-◌, ◌*◌, ◌/◌, ◌%◌, ◌^◌, ◌<◌, ◌≤◌, ◌≡◌, refl, ap, ◌∙◌, arith, [], ◌∷◌, ◌++◌,
  some, true, length, replicate, All, All-append, length-append, length-replicate,
}
use mathlib.Core.Logic.{dif_pos, dif_neg}
use native.Mathlib.Decide.{dec_lt}
use native.Mathlib.Bridge.{le_prop}
use nero_mpc_sdk.Base.Order.{Acc-lt}
use nero_mpc_sdk.Bigint.{pos}
use nero_mpc_sdk.Hex.Literal.{hex_class, all_hex}
use nero_mpc_sdk.Hex.Defs.{
  Text, hex_char, hex_value, div-lt, digits, to_string16, pad_start, parse_digits, parse_bigint16,
  scalar_to_hex, hex_to_scalar,
}

hex_value-hex_char : (d : ℕ) → d < 16 → hex_value (hex_char d) ≡ some d
unfolding hex_value hex_char
hex_value-hex_char d h = ground arith

-- One step of the reader over a digit.
parse_digits-hex_char :
    (v d : ℕ) (s : Text) → d < 16 → parse_digits v (hex_char d ∷ s) ≡ parse_digits (v * 16 + d) s
unfolding parse_digits
parse_digits-hex_char v d s h = rw (hex_value-hex_char d h, parse_digits)

parse_digits-digits :
    (n : ℕ) (w : Acc ◌<◌ n) (after : Text)
    → parse_digits 0 (digits n w after) ≡ parse_digits n after
unfolding digits
parse_digits-digits n (Acc.intro _ smaller) after = elim (dec_lt n 16) [
  | yes h ↦
      rw (dif_pos (dec_lt n 16) le_prop h)
        (parse_digits-hex_char 0 n after h ∙ ap (λ v. parse_digits v after) (omega arith))
  | no h ↦ rw (dif_neg (dec_lt n 16) h) (
      parse_digits-digits (n / 16) (smaller (n / 16) (div-lt n h)) (hex_char (n % 16) ∷ after)
      ∙ parse_digits-hex_char (n / 16) (n % 16) after (omega arith)
      ∙ ap (λ v. parse_digits v after) (omega arith))
]

parse_digits-nil : (n : ℕ) → parse_digits n [] ≡ some n
unfolding parse_digits
parse_digits-nil n = refl

parse_digits-replicate :
    (k : ℕ) (s : Text) → parse_digits 0 (replicate k b'0' ++ s) ≡ parse_digits 0 s
unfolding hex_char
parse_digits-replicate zero s = refl
parse_digits-replicate (suc k) s =
    parse_digits-hex_char 0 0 _ (omega arith) ∙ parse_digits-replicate k s

length-digits :
    (k n : ℕ) (w : Acc ◌<◌ n) (after : Text)
    → n < 16 ^ suc k
    → (0 < length (digits n w after)) × (length (digits n w after) ≤ suc k + length after)
unfolding digits
length-digits zero n (Acc.intro _ smaller) after h =
    rw (dif_pos (dec_lt n 16) le_prop h) (omega arith)
length-digits (suc k) n (Acc.intro _ smaller) after h = elim (dec_lt n 16) [
  | yes p ↦ rw (dif_pos (dec_lt n 16) le_prop p) (omega arith)
  | no p ↦
      let fewer : n / 16 < 16 ^ suc k = omega (arith, pow-suc 16 (suc k)) in
      let l =
        length-digits k (n / 16) (smaller (n / 16) (div-lt n p)) (hex_char (n % 16) ∷ after)
          fewer in
      rw (dif_neg (dec_lt n 16) p) (l.0, omega (arith, l.1))
]

parse_digits-to_string16 : (n : ℕ) → parse_digits 0 (to_string16 (pos n)) ≡ some n
unfolding to_string16
parse_digits-to_string16 n = parse_digits-digits n (Acc-lt n) [] ∙ parse_digits-nil n

length-to_string16 :
    (k n : ℕ)
    → n < 16 ^ suc k
    → (0 < length (to_string16 (pos n))) × (length (to_string16 (pos n)) ≤ suc k)
unfolding to_string16
length-to_string16 k n h = let l = length-digits k n (Acc-lt n) [] h in (l.0, omega (arith, l.1))

to_string16_pos : (n : ℕ) → 0 < length (to_string16 (pos n))
to_string16_pos n = (length-to_string16 n n (below n)).0
  where
    below : (n : ℕ) → n < 16 ^ suc n
    below = elim [ zero ↦ omega arith | suc (n → ih) ↦ omega (arith, ih, pow-suc 16 (suc n)) ]

parse_bigint16_of :
    (s : Text) (n : ℕ) → 0 < length s → parse_digits 0 s ≡ some n → parse_bigint16 s ≡ some (pos n)
unfolding parse_bigint16
parse_bigint16_of [] n h e = absurd (omega arith)
parse_bigint16_of (c ∷ s) n h e = rw (e, parse_bigint16)

-- What is written as a hexadecimal literal reads back as the same number, whatever its size.
pub hex_to_scalar-scalar_to_hex : (n : ℕ) → hex_to_scalar (scalar_to_hex (pos n)) ≡ some (pos n)
unfolding hex_to_scalar scalar_to_hex pad_start
hex_to_scalar-scalar_to_hex n =
    let s = to_string16 (pos n) in
    parse_bigint16_of (replicate (64 - length s) b'0' ++ s) n
      (omega (arith, length-append (replicate (64 - length s) b'0') s, to_string16_pos n))
      (parse_digits-replicate (64 - length s) s ∙ parse_digits-to_string16 n)

-- A number below 2 ^ 256 takes exactly 64 characters.
pub length-scalar_to_hex : (n : ℕ) → n < 2 ^ 256 → length (scalar_to_hex (pos n)) ≡ 64
unfolding scalar_to_hex pad_start
length-scalar_to_hex n h =
    let s = to_string16 (pos n) in
    omega (
      arith,
      length-append (replicate (64 - length s) b'0') s,
      length-replicate {A = ℕ} (64 - length s) b'0',
      (length-to_string16 63 n h).1,
    )

-- The characters that `toString(16)` writes: the digits and the lower-case letters up to f.
abbrev pub IsLowerHex : ℕ → Type 0
IsLowerHex c = (d : ℕ) × (d < 16) × (c ≡ hex_char d)

All-digits :
    (n : ℕ) (w : Acc ◌<◌ n) (after : Text)
    → All IsLowerHex after
    → All IsLowerHex (digits n w after)
unfolding digits
All-digits n (Acc.intro _ smaller) after a = elim (dec_lt n 16) [
  | yes p ↦ rw (dif_pos (dec_lt n 16) le_prop p) ((n, p, refl), a)
  | no p ↦ rw (dif_neg (dec_lt n 16) p) (
      All-digits (n / 16) (smaller (n / 16) (div-lt n p)) (hex_char (n % 16) ∷ after)
        ((n % 16, omega arith, refl), a))
]

All-replicate : (k : ℕ) → All IsLowerHex (replicate k b'0')
unfolding hex_char
All-replicate zero = tt
All-replicate (suc k) = ((0, omega arith, refl), All-replicate k)

pub All-scalar_to_hex : (n : ℕ) → All IsLowerHex (scalar_to_hex (pos n))
unfolding scalar_to_hex pad_start to_string16
All-scalar_to_hex n =
    All-append IsLowerHex (replicate _ b'0') (digits n (Acc-lt n) []) (All-replicate _)
      (All-digits n (Acc-lt n) [] tt)

parse_digits-IsLowerHex :
    (v : ℕ) (s : Text) → All IsLowerHex s → (n : ℕ) × (parse_digits v s ≡ some n)
parse_digits-IsLowerHex v [] h = (v, parse_digits-nil v)
parse_digits-IsLowerHex v (c ∷ s) ((d, lt, e), h) =
    let (n, r) = parse_digits-IsLowerHex (v * 16 + d) s h in
    (n, ap (λ t. parse_digits v (t ∷ s)) e ∙ parse_digits-hex_char v d s lt ∙ r)

-- A text of lower-case digits that is not empty is read as a number.
pub parse_bigint16-IsLowerHex :
    (s : Text) → All IsLowerHex s → 0 < length s → (n : ℕ) × (parse_bigint16 s ≡ some (pos n))
parse_bigint16-IsLowerHex s h p =
    let (n, r) = parse_digits-IsLowerHex 0 s h in (n, parse_bigint16_of s n p r)

-- What `toString(16)` writes matches [0-9a-fA-F].
hex_class_lower : (c : ℕ) → IsLowerHex c → hex_class c ≡ true
unfolding hex_char
hex_class_lower c (d, lt, e) = ground arith

pub all_hex_lower : (s : Text) → All IsLowerHex s → all_hex s ≡ true
unfolding all_hex
all_hex_lower [] h = refl
all_hex_lower (c ∷ s) (lower, h) = rw (hex_class_lower c lower) (all_hex_lower s h)
