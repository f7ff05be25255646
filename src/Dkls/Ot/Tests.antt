-- ===== src/Dkls/Ot/Tests.antt =====
-- A transfer in the group of seven elements.
use nero_mpc_sdk.Base.{◌≡◌, arith, replicate}
use nero_mpc_sdk.Base.Throws.{ok}
use nero_mpc_sdk.Bigint.{pos}
use nero_mpc_sdk.Hex.{Bytes}
use nero_mpc_sdk.Noble.Toy.{toy, toy_laws}
use nero_mpc_sdk.Dkls.Ot.Laws.{ot_exchange, ot_receives_choice}

abbrev fives : Bytes
fives = replicate 32 5

abbrev nines : Bytes
nines = replicate 32 9

ot_receives_choice_example : ot_exchange toy toy_laws (pos 1) (pos 2) 1 fives nines ≡ ok nines
ot_receives_choice_example =
    ot_receives_choice toy toy_laws 1 2 1 fives nines (omega arith) (omega arith) (omega arith)
      (omega arith) (omega arith) (omega arith)
