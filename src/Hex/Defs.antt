-- ===== src/Hex/Defs.antt =====
-- A text is the list of its character codes.
use mathlib.Core.WellFounded.{Acc}
use nero_mpc_sdk.Base.{
  ℕ, suc, ◌+◌, ◌-◌, ◌*◌, ◌/◌, ◌%◌, ◌<◌, ◌≡◌, refl, arith, ltb, leb, ◌&&◌, if◌then◌else◌, List, [],
  ◌∷◌, ◌++◌, Option, none, some, length, replicate,
}
use mathlib.Core.Logic.{dite}
use native.Mathlib.Decide.{dec_lt}
use nero_mpc_sdk.Base.Order.{Acc-lt}
use nero_mpc_sdk.Bigint.{ℤ, pos, negsuc}

abbrev pub Text : Type 0
Text = List ℕ

abbrev pub Bytes : Type 0
Bytes = List ℕ

-- The character of a digit below 16.
unfoldable pub hex_char : ℕ → ℕ
hex_char d = if ltb d 10 then d + 48 else d + 87

unfoldable pub hex_value : ℕ → Option ℕ
hex_value c =
    if leb 48 c && leb c 57
    then some (c - 48)
    else if leb 97 c && leb c 102
    then some (c - 87)
    else if leb 65 c && leb c 70
    then some (c - 55)
    else none

pub div-lt : (n : ℕ) → ¬ (n < 16) → n / 16 < n
div-lt n h = omega arith

-- The digits of `n`, before the text `after`.
unfoldable pub digits : (n : ℕ) → Acc ◌<◌ n → Text → Text
digits n (Acc.intro _ smaller) after =
    dite (dec_lt n 16) (λ _. hex_char n ∷ after)
      (λ h. digits (n / 16) (smaller (n / 16) (div-lt n h)) (hex_char (n % 16) ∷ after))

-- `x.toString(16)`.
unfoldable pub to_string16 : ℤ → Text
unfolding digits Acc-lt dec_lt
to_string16 (pos n) = digits n (Acc-lt n) []
to_string16 (negsuc n) = b'-' ∷ digits (suc n) (Acc-lt (suc n)) []

-- `s.padStart(width, "0")`.
unfoldable pub pad_start : ℕ → Text → Text
pad_start width s = replicate (width - length s) b'0' ++ s

-- The digits of a literal, read from the left.
unfoldable pub parse_digits : ℕ → Text → Option ℕ
parse_digits value [] = some value
parse_digits value (c ∷ s) = elim (hex_value c) [
  | none ↦ none
  | some d ↦ parse_digits (value * 16 + d) s
]

-- BigInt(`0x${s}`): a SyntaxError (`none`) unless `s` is one hexadecimal digit or more. White space
-- behind the digits, which BigInt passes over, is refused here.
unfoldable pub parse_bigint16 : Text → Option ℤ
unfolding parse_digits
parse_bigint16 [] = none
parse_bigint16 (c ∷ s) = elim (parse_digits 0 (c ∷ s)) [ none ↦ none | some n ↦ some (pos n) ]

-- scalar.toString(16).padStart(64, "0").
unfoldable pub scalar_to_hex : ℤ → Text
scalar_to_hex scalar = pad_start 64 (to_string16 scalar)

unfoldable pub hex_to_scalar : Text → Option ℤ
hex_to_scalar hex = parse_bigint16 hex

seventeen : to_string16 (pos 500) ≡ b'1' ∷ b'f' ∷ b'4' ∷ []
unfolding to_string16 hex_char
seventeen = refl
