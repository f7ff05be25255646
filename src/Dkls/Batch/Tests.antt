-- ===== src/Dkls/Batch/Tests.antt =====
-- A batch in the group of seven elements.
use nero_mpc_sdk.Base.{ℕ, ◌≡◌, ◌<◌, true, arith}
use nero_mpc_sdk.Base.Throws.{ok}
use nero_mpc_sdk.Bigint.{pos, ◌+ℤ◌, ◌*ℤ◌, residue}
use nero_mpc_sdk.Noble.Toy.{toy, toy_laws}
use nero_mpc_sdk.Dkls.Batch.{verify_batch_cot}
use nero_mpc_sdk.Dkls.Batch.Laws.{batch_exchange, batch_exchange_shares}
use nero_mpc_sdk.Dkls.Sample.{sample_draws, sample_draws-IsGood}

batch_exchange_shares_example :
    (x : ℕ) × (y : ℕ) × (batch_exchange toy sample_draws (pos 3) (pos 5) ≡ ok (pos x, pos y))
    × (x < 7)
    × (y < 7)
    × (residue 7 (pos x +ℤ pos y) ≡ residue 7 (pos 3 *ℤ pos 5))
    × (verify_batch_cot toy (pos 3) (pos 5) (pos x) (pos y) ≡ true)
batch_exchange_shares_example =
    batch_exchange_shares toy toy_laws sample_draws (pos 3) 5 (sample_draws-IsGood 5) (omega arith)
