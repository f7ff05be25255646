-- ===== src/Chains/Manager.antt =====
-- `ChainManager` (src/chains/chain-manager.ts). Listeners are told apart by numbers, and a switch
-- returns whom it notifies, in order.
use nero_mpc_sdk.Base.{
  ℕ, ◌==◌, Bool, true, false, not, if◌then◌else◌, List, [], ◌∷◌, ◌++◌, map, Option, none, some,
}
use nero_mpc_sdk.Base.Throws.{Throws, ok, ◌>>=◌, or_throw}
use nero_mpc_sdk.Base.Maps.{get, set, delete, has}
use nero_mpc_sdk.Chains.Configs.{ChainConfig, builtin_chains, get_chain_config}
use nero_mpc_sdk.Chains.Rpc.{RpcConnection}

pub record ChainManager : Type 0 where
  pub current_chain_id : ℕ
  pub custom_chains : List (ℕ × ChainConfig)
  pub listeners : List ℕ
  pub rpc_connections : List (ℕ × RpcConnection)

pub record Notification : Type 0 where
  pub listener : ℕ
  pub chain_id : ℕ
  pub config : ChainConfig

unfoldable pub new_chain_manager : ℕ → ChainManager
new_chain_manager initial_chain_id = record {
  current_chain_id = initial_chain_id;
  custom_chains = [];
  listeners = [];
  rpc_connections = [];
}

-- `first ?? second`.
unfoldable pub or_else {ℓ} : {A : Type ℓ} → Option A → Option A → Option A
or_else none second = second
or_else (some a) second = some a

unfoldable pub get_config : ChainManager → ℕ → Option ChainConfig
get_config m chain_id = or_else (get_chain_config chain_id) (get chain_id m.custom_chains)

unfoldable pub chain_config : ChainManager → Option ChainConfig
chain_config m = get_config m m.current_chain_id

unfoldable pub get_supported_chains : ChainManager → List ChainConfig
get_supported_chains m = map (λ e. e.1) builtin_chains ++ map (λ e. e.1) m.custom_chains

unfoldable pub is_defined {ℓ} : {A : Type ℓ} → Option A → Bool
is_defined none = false
is_defined (some a) = true

unfoldable pub is_chain_supported : ChainManager → ℕ → Bool
is_chain_supported m chain_id = is_defined (get_config m chain_id)

unfoldable pub add_chain : ChainManager → ChainConfig → ChainManager
add_chain m config = record m { custom_chains = set config.chain_id config m.custom_chains }

unfoldable pub remove_chain : ChainManager → ℕ → Bool × ChainManager
remove_chain m chain_id = if has chain_id builtin_chains then (false, m) else (
  has chain_id m.custom_chains,
  record m { custom_chains = delete chain_id m.custom_chains },
)

unfoldable pub notify_listeners : List ℕ → ℕ → ChainConfig → List Notification
notify_listeners [] chain_id config = []
notify_listeners (listener ∷ listeners) chain_id config =
    record { listener = listener; chain_id = chain_id; config = config }
    ∷ notify_listeners listeners chain_id config

unfoldable pub switch_chain :
    ChainManager → ℕ → Throws (ChainConfig × ChainManager × List Notification)
switch_chain m chain_id = do
  config ← or_throw (get_config m chain_id) "Chain is not supported"
  let notified =
      if not (m.current_chain_id == chain_id)
      then notify_listeners m.listeners chain_id config
      else []
  ok (config, record m { current_chain_id = chain_id }, notified)

-- A `Set` keeps a listener that it has at its place.
unfoldable pub add_listener : ℕ → List ℕ → List ℕ
add_listener listener [] = listener ∷ []
add_listener listener (other ∷ listeners) =
    let rest = add_listener listener listeners in
    if listener == other then other ∷ listeners else other ∷ rest

unfoldable pub delete_listener : ℕ → List ℕ → List ℕ
delete_listener listener [] = []
delete_listener listener (other ∷ listeners) =
    let rest = delete_listener listener listeners in
    if listener == other then rest else other ∷ rest

unfoldable pub on_chain_change : ChainManager → ℕ → ChainManager
on_chain_change m listener = record m { listeners = add_listener listener m.listeners }

-- What the function that `onChainChange` returns does.
unfoldable pub unsubscribe : ChainManager → ℕ → ChainManager
unsubscribe m listener = record m { listeners = delete_listener listener m.listeners }

-- A connection that is there is returned; otherwise one is made from the present configuration.
unfoldable pub connect_to :
    ChainManager → ℕ → Option RpcConnection → Throws (RpcConnection × ChainManager)
connect_to m target (some connection) = ok (connection, m)
connect_to m target none = do
  config ← or_throw (get_config m target) "Chain is not supported"
  let connection : RpcConnection = record { config = config; current_rpc_index = 0 }
  ok (connection, record m { rpc_connections = set target connection m.rpc_connections })

unfoldable pub get_rpc_connection : ChainManager → Option ℕ → Throws (RpcConnection × ChainManager)
get_rpc_connection m none =
    connect_to m m.current_chain_id (get m.current_chain_id m.rpc_connections)
get_rpc_connection m (some target) = connect_to m target (get target m.rpc_connections)

unfoldable pub testnets : List ChainConfig → List ChainConfig
testnets [] = []
testnets (c ∷ chains) = let rest = testnets chains in if c.is_testnet then c ∷ rest else rest

unfoldable pub mainnets : List ChainConfig → List ChainConfig
mainnets [] = []
mainnets (c ∷ chains) = let rest = mainnets chains in if not c.is_testnet then c ∷ rest else rest

unfoldable pub get_testnets : ChainManager → List ChainConfig
get_testnets m = testnets (get_supported_chains m)

unfoldable pub get_mainnets : ChainManager → List ChainConfig
get_mainnets m = mainnets (get_supported_chains m)
