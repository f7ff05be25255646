-- ===== src/Hex/Literal.antt =====
-- Texts: the characters of a literal, a number as `${n}` writes it, and `===`.
use Prim.Native.String.{String}
use Prim.Native.Char.{code}
use nero_mpc_sdk.Base.{
  ℕ, ◌+◌, ◌/◌, ◌%◌, ◌<◌, ◌≡◌, refl, ap₂, arith, ◌==◌, ==_iff, leb, ◌&&◌, ◌||◌, Bool, true, false,
  Bool-cases, if◌then◌else◌, inl, inr, [], ◌∷◌,
}
use mathlib.Core.WellFounded.{Acc}
use mathlib.Core.Logic.{dite}
use native.Mathlib.Decide.{dec_lt}
use nero_mpc_sdk.Base.Order.{Acc-lt}
use nero_mpc_sdk.Hex.Defs.{Text}

-- The character codes of a literal.
unfoldable pub text : String → Text
text String.[] = []
text (String.◌∷◌ c s) = code c ∷ text s

pub tenth-lt : (n : ℕ) → ¬ (n < 10) → n / 10 < n
tenth-lt n h = omega arith

unfoldable pub decimals : (n : ℕ) → Acc ◌<◌ n → Text → Text
decimals n (Acc.intro _ smaller) after =
    dite (dec_lt n 10) (λ _. (n + 48) ∷ after)
      (λ h. decimals (n / 10) (smaller (n / 10) (tenth-lt n h)) ((n % 10 + 48) ∷ after))

-- `${n}`.
unfoldable pub to_string10 : ℕ → Text
unfolding decimals Acc-lt dec_lt
to_string10 n = decimals n (Acc-lt n) []

party_of_three_digits : to_string10 207 ≡ text "207"
unfolding to_string10 text
party_of_three_digits = refl

-- `===` of two texts.
unfoldable pub same_text : Text → Text → Bool
same_text [] [] = true
same_text [] (d ∷ t) = false
same_text (c ∷ s) [] = false
same_text (c ∷ s) (d ∷ t) = let rest = same_text s t in if c == d then rest else false

-- `!text` of a text.
unfoldable pub is_empty : Text → Bool
is_empty [] = true
is_empty (c ∷ s) = false

-- `replace("0x", "")`: the first occurrence, wherever it is (48 and 120 are `0` and `x`).
unfoldable pub replace_0x : Text → Text
replace_0x [] = []
replace_0x (c ∷ []) = c ∷ []
replace_0x (c ∷ d ∷ s) =
    let rest = replace_0x (d ∷ s) in if c == 48 && d == 120 then s else c ∷ rest

pub same_text_self : (s : Text) → same_text s s ≡ true
unfolding same_text
same_text_self [] = refl
same_text_self (c ∷ s) = rw ((==_iff c c).1 refl) (same_text_self s)

pub same_text-eq : (s t : Text) → same_text s t ≡ true → s ≡ t
unfolding same_text
same_text-eq [] [] h = refl
same_text-eq [] (d ∷ t) h = cc
same_text-eq (c ∷ s) [] h = cc
same_text-eq (c ∷ s) (d ∷ t) h = elim (Bool-cases (c == d)) [
  | inl e ↦ ap₂ ◌∷◌ ((==_iff c d).0 e) (same_text-eq s t (ground arith))
  | inr e ↦ absurd (ground arith)
]

-- One character of the class [0-9a-fA-F].
abbrev pub hex_class : ℕ → Bool
hex_class c = (leb 48 c && leb c 57) || ((leb 97 c && leb c 102) || (leb 65 c && leb c 70))

unfoldable pub all_hex : Text → Bool
all_hex [] = true
all_hex (c ∷ s) = let rest = all_hex s in if hex_class c then rest else false
