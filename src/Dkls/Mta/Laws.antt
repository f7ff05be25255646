-- ===== src/Dkls/Mta/Laws.antt =====
-- The two shares of a conversion add up to the product.
use text.Mathlib.TextPositions.{eq_refl}
use Prim.Native.String.{String}
use nero_mpc_sdk.Base.{ℕ, ◌^◌, ◌<◌, ◌≡◌, refl, true, ==_iff}
use nero_mpc_sdk.Base.Throws.{ok}
use nero_mpc_sdk.Bigint.{ℤ, pos, ◌+ℤ◌, ◌*ℤ◌, residue, residue_congr}
use nero_mpc_sdk.Modular.{mod_once-eq-residue}
use nero_mpc_sdk.Noble.{Noble, Lawful, order_pos}
use nero_mpc_sdk.Dkls.Batch.Loops.{Draws, IsGood}
use nero_mpc_sdk.Dkls.Batch.Laws.{batch_end}
use nero_mpc_sdk.Dkls.Mta.{
  mta_alice_round1, mta_bob_round2, mta_alice_round3, mta_bob_round4, execute_mta,
  verify_mta_result,
}

-- For any session identifier, any multiplier `a`, a multiplier `b` below 2 ^ 256 and good draws,
-- the four rounds do not throw, both shares lie below the order, and their sum is `a * b` up to the
-- order, which `verifyMtAResult` confirms.
pub execute_mta_shares :
    (lib : Noble) (laws : Lawful lib) (draws : Draws) (session_id : String) (a : ℤ) (b : ℕ)
    → IsGood lib.order draws b
    → b < 2 ^ 256
    → (x : ℕ) × (y : ℕ) × (execute_mta lib session_id
          (λ i. pos (draws.sender_key i))
          (λ i. pos (draws.random_t i))
          (λ i. pos (draws.receiver_key i))
          a
          (pos b)
        ≡ ok (pos x, pos y))
      × (x < lib.order)
      × (y < lib.order)
      × (residue lib.order (pos x +ℤ pos y) ≡ residue lib.order (a *ℤ pos b))
      × (verify_mta_result lib a (pos b) (pos x) (pos y) ≡ true)
unfolding execute_mta mta_alice_round1 mta_bob_round2 mta_alice_round3 mta_bob_round4
    verify_mta_result
execute_mta_shares lib laws draws session_id a b good fits =
    let n_pos = order_pos lib laws in
    let e = batch_end lib laws draws a b good fits in
    let same = residue_congr n_pos e.product in
    (
      e.sender_share,
      e.receiver_share,
      rw (e.init, e.respond, eq_refl session_id, e.complete, eq_refl session_id, e.receive),
      e.sender_lt,
      e.receiver_lt,
      same,
      rw
          (
            mod_once-eq-residue lib.order n_pos (a *ℤ pos b),
            mod_once-eq-residue lib.order n_pos (pos e.sender_share +ℤ pos e.receiver_share),
            same,
          )
          ((==_iff _ _).1 refl),
    )
