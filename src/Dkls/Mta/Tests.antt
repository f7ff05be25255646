-- ===== src/Dkls/Mta/Tests.antt =====
-- A conversion in the group of seven elements.
use nero_mpc_sdk.Base.{ℕ, ◌≡◌, ◌<◌, true, arith}
use nero_mpc_sdk.Base.Throws.{ok}
use nero_mpc_sdk.Bigint.{pos, ◌+ℤ◌, ◌*ℤ◌, residue}
use nero_mpc_sdk.Noble.Toy.{toy, toy_laws}
use nero_mpc_sdk.Dkls.Mta.{execute_mta, verify_mta_result}
use nero_mpc_sdk.Dkls.Mta.Laws.{execute_mta_shares}
use nero_mpc_sdk.Dkls.Sample.{sample_draws, sample_draws-IsGood}

execute_mta_shares_example :
    (x : ℕ) × (y : ℕ) × (execute_mta toy "mta_0"
        (λ j. pos 1)
        (λ j. pos 3)
        (λ j. pos 2)
        (pos 3)
        (pos 5)
      ≡ ok (pos x, pos y))
    × (x < 7)
    × (y < 7)
    × (residue 7 (pos x +ℤ pos y) ≡ residue 7 (pos 3 *ℤ pos 5))
    × (verify_mta_result toy (pos 3) (pos 5) (pos x) (pos y) ≡ true)
execute_mta_shares_example =
    execute_mta_shares toy toy_laws sample_draws "mta_0" (pos 3) 5 (sample_draws-IsGood 5)
      (omega arith)
