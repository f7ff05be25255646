-- ===== src/Dkg/Exchange/Toy.antt =====
-- A cipher that appends sixteen zeros and leaves the text as it is.
use nero_mpc_sdk.Base.{
  ℕ, zero, suc, ◌-◌, ◌<◌, ◌≡◌, refl, ap, arith, List, [], ◌∷◌, ◌++◌, some, All, All-append, length,
  length-append, take, replicate, length-replicate,
}
use nero_mpc_sdk.Hex.{Text, IsLowerHex, hex_char}
use nero_mpc_sdk.Noble.{IsByte}
use nero_mpc_sdk.Noble.Toy.{toy}
use nero_mpc_sdk.Dkg.Exchange.{Webcrypto, Sealing}

abbrev pub toy_web : Webcrypto
toy_web = record {
  hkdf = λ input info n. replicate n (length input);
  encrypt = λ key iv plain. some (plain ++ replicate 16 0);
  decrypt = λ key iv sealed. some (take (length sealed - 16) sealed);
  decode = λ bytes. bytes;
}

take_front : (n : ℕ) (xs ys : List ℕ) → n ≡ length xs → take n (xs ++ ys) ≡ xs
take_front zero [] ys e = refl
take_front (suc n) [] ys e = absurd (omega arith)
take_front zero (x ∷ xs) ys e = absurd (omega arith)
take_front (suc n) (x ∷ xs) ys e = ap (◌∷◌ x) (take_front n xs ys (omega arith))

lower-IsByte : (s : Text) → All IsLowerHex s → All IsByte s
unfolding hex_char
lower-IsByte [] h = tt
lower-IsByte (c ∷ s) ((d, lt, e), h) = (ground arith, lower-IsByte s h)

coordinate_fits : (p : toy.Point) → toy.affine_x p < 7
coordinate_fits p = p.1

pub toy-Sealing : Sealing toy toy_web
toy-Sealing = record {
  length-hkdf = λ input info n. length-replicate n (length input);
  decrypt-encrypt = λ key iv plain len bytes. (
    plain ++ replicate 16 0,
    refl,
    All-append IsByte plain (replicate 16 0) bytes (zeros 16),
    ap some (
        take_front (length (plain ++ replicate 16 0) - 16) plain (replicate 16 0)
          (omega (arith, length-append plain (replicate 16 0)))),
    length-append plain (replicate 16 0),
  );
  length-utf8_to_bytes = λ s h. refl;
  All-utf8_to_bytes = lower-IsByte;
  decode-utf8_to_bytes = λ s h. refl;
  affine_x-lt = λ p. omega (arith, coordinate_fits p);
}
  where
    zeros : (n : ℕ) → All IsByte (replicate n 0)
    zeros zero = tt
    zeros (suc n) = (omega arith, zeros n)
