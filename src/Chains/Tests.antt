-- ===== src/Chains/Tests.antt =====
-- Calls over a chain with two URLs, and a manager with one custom chain.
use Prim.Native.String.{String}
use nero_mpc_sdk.Base.{
  ℕ, zero, suc, ◌<◌, ◌==◌, ◌≡◌, refl, arith, Bool, true, false, if◌then◌else◌, List, [], ◌∷◌, map,
  Option, none, some,
}
use nero_mpc_sdk.Base.Throws.{Throws, ok, throw}
use nero_mpc_sdk.Base.Maps.{get}
use nero_mpc_sdk.Chains.Configs.{ChainConfig, get_chain_config, ethereum_mainnet}
use nero_mpc_sdk.Chains.Rpc.{
  RpcConnection, rpc_url, rotated, call, call_first_success, call_all_fail,
}
use nero_mpc_sdk.Chains.Manager.{
  ChainManager, Notification, or_else, get_config, chain_config, add_chain, remove_chain,
  switch_chain, get_rpc_connection,
}
use nero_mpc_sdk.Chains.Laws.{get_config_after, switch_chain_twice}
use nero_mpc_sdk.Chains.Connections.{removed, added, Later, now, after_call, rpc_connection_kept}

abbrev ethereum : RpcConnection
ethereum = record { config = ethereum_mainnet; current_rpc_index = 0 }

-- The second attempt answers.
abbrev second : Option String → ℕ → Throws ℕ
second url zero = throw "RPC request failed"
second url (suc attempt) = ok 5

abbrev never : Option String → ℕ → Throws ℕ
never url attempt = throw "RPC request failed"

only_first : (i : ℕ) → i < 1 → (e : String) × (second (rpc_url (rotated i ethereum)) i ≡ throw e)
only_first zero h = ("RPC request failed", refl)
only_first (suc i) h = absurd (omega arith)

call_first_success_example : call second ethereum ≡ (ok 5, rotated 1 ethereum)
call_first_success_example = call_first_success second 1 ethereum 5 (omega arith) only_first refl

call_all_fail_example :
    (e : String) × (next : RpcConnection) × (call never ethereum ≡ (throw e, next))
    × (next.config ≡ ethereum_mainnet)
    × (next.current_rpc_index ≡ 0)
call_all_fail_example =
    call_all_fail never ethereum (omega arith) (λ i h. ("RPC request failed", refl))

abbrev local_chain : ChainConfig
local_chain = record ethereum_mainnet { chain_id = 31337; rpc_urls = "http://localhost:8545" ∷ [] }

abbrev manager : ChainManager
manager = record {
  current_chain_id = 689;
  custom_chains = (31337, local_chain) ∷ [];
  listeners = 4 ∷ 9 ∷ [];
  rpc_connections = [];
}

get_config_after_example :
    (get_config (add_chain manager ethereum_mainnet) 1
      ≡ or_else
          (get_chain_config 1)
          (if 1 == 1 then some ethereum_mainnet else get 1 manager.custom_chains))
    × (get_config (remove_chain manager 31337).1 1
        ≡ or_else (get_chain_config 1) (if 1 == 31337 then none else get 1 manager.custom_chains))
get_config_after_example = get_config_after manager ethereum_mainnet 31337 1

abbrev switched : ChainManager
switched = record manager { current_chain_id = 31337 }

abbrev sent : List Notification
sent =
    record { listener = 4; chain_id = 31337; config = local_chain }
    ∷ record { listener = 9; chain_id = 31337; config = local_chain }
    ∷ []

switch : switch_chain manager 31337 ≡ ok (local_chain, switched, sent)
unfolding switch_chain get_config get_chain_config get or_else
    nero_mpc_sdk.Chains.Manager.notify_listeners
switch = refl

switch_chain_twice_example :
    (chain_config switched ≡ some local_chain)
    × (map (λ n. n.listener) sent ≡ (if 689 == 31337 then [] else 4 ∷ 9 ∷ []))
    × (switch_chain switched 31337 ≡ ok (local_chain, switched, []))
switch_chain_twice_example = switch_chain_twice manager switched 31337 local_chain sent switch

abbrev local_connection : RpcConnection
local_connection = record { config = local_chain; current_rpc_index = 0 }

abbrev connected : ChainManager
connected = record manager { rpc_connections = (31337, local_connection) ∷ [] }

connect : get_rpc_connection manager (some 31337) ≡ ok (local_connection, connected)
unfolding get_rpc_connection nero_mpc_sdk.Chains.Manager.connect_to get_config get_chain_config get
    or_else nero_mpc_sdk.Base.Maps.set
connect = refl

abbrev replaced : ChainManager
replaced = add_chain (remove_chain connected 31337).1 (record local_chain { rpc_urls = [] })

replacing : Later connected replaced
replacing =
    after_call (after_call now (removed connected 31337))
      (added (remove_chain connected 31337).1 (record local_chain { rpc_urls = [] }))

rpc_connection_kept_example :
    (d : RpcConnection) × (d.config ≡ local_chain)
    × (get_rpc_connection replaced (some 31337) ≡ ok (d, replaced))
rpc_connection_kept_example =
    rpc_connection_kept manager connected replaced 31337 local_connection connect replacing
