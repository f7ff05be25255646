-- ===== src/Dkls/Keygen/Draw.antt =====
-- `randomScalar` (src/protocols/dkls/crypto.ts): blocks of 32 random bytes are drawn until one gives
-- a number that is not a multiple of the order.
use nero_mpc_sdk.Base.{
  ℕ, ◌+◌, ◌*◌, ◌≡◌, ◌≢◌, arith, if◌then◌else◌, List, [], ◌∷◌, Option, none, some, ◌++◌, All,
}
use nero_mpc_sdk.Bigint.{ℤ, pos, beq_ℤ, residue, residue-lt}
use nero_mpc_sdk.Modular.{mod_once, mod_once-eq-residue}
use nero_mpc_sdk.Hex.{Bytes}
use nero_mpc_sdk.Noble.{Noble, Lawful, order_pos}
use nero_mpc_sdk.Dkls.Ot.Laws.{IsScalar}

-- `for (const byte of bytes) result = (result << 8n) + BigInt(byte)`.
unfoldable pub big_endian : ℕ → Bytes → ℕ
big_endian result [] = result
big_endian result (byte ∷ bytes) = big_endian (result * 256 + byte) bytes

-- The blocks are those that `crypto.getRandomValues` fills in turn; `none` means that they ran out.
unfoldable pub random_scalar : Noble → List Bytes → Option ℤ
random_scalar lib [] = none
random_scalar lib (bytes ∷ draws) =
    let again = random_scalar lib draws in
    let scalar = mod_once (pos (big_endian 0 bytes)) (pos lib.order) in
    if beq_ℤ scalar (pos 0) then again else some scalar

abbrev pub drawn : Noble → Bytes → ℕ
drawn lib block = residue lib.order (pos (big_endian 0 block))

-- If every block of `skipped` stands for a multiple of the order and `block` does not, the drawing
-- returns the residue of `block`, which is a scalar from 1 up to the order.
pub random_scalar_first :
    (lib : Noble) (laws : Lawful lib) (skipped : List Bytes) (block : Bytes) (rest : List Bytes)
    → All (λ b. drawn lib b ≡ 0) skipped
    → drawn lib block ≢ 0
    → (random_scalar lib (skipped ++ block ∷ rest) ≡ some (pos (drawn lib block)))
      × IsScalar lib.order (drawn lib block)
unfolding random_scalar
random_scalar_first lib laws [] block rest h ne =
    let n_pos = order_pos lib laws in
    (
      rw (mod_once-eq-residue lib.order n_pos (pos (big_endian 0 block))) (ground arith),
      (omega arith, residue-lt lib.order (pos (big_endian 0 block)) n_pos),
    )
random_scalar_first lib laws (b ∷ skipped) block rest (zero_b, h) ne =
    let (found, range) = random_scalar_first lib laws skipped block rest h ne in
    (
      rw (mod_once-eq-residue lib.order (order_pos lib laws) (pos (big_endian 0 b)), zero_b) found,
      range,
    )
