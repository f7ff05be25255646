-- ===== src/Client/Provider/State.antt =====
-- The state of `NeroProvider`, its listeners and its chains (src/core/provider.ts). Listeners are told
-- apart by numbers, and a method returns the calls of listeners it makes, in order.
use nero_mpc_sdk.Base.{
  ℕ, Bool, true, false, not, if◌then◌else◌, List, [], ◌∷◌, ◌++◌, map, Option, none, some,
}
use nero_mpc_sdk.Base.Maps.{get, set}
use nero_mpc_sdk.Hex.{Text, text, same_text, to_string16}
use nero_mpc_sdk.Bigint.{pos}
use nero_mpc_sdk.Chains.Configs.{ChainConfig, get_chain_config}
use nero_mpc_sdk.Chains.Manager.{or_else, add_listener, delete_listener}

-- `EIP1193_ERROR_CODES`.
pub data ErrorCode : Type 0 where
  user_rejected : ErrorCode
  unauthorized : ErrorCode
  unsupported_method : ErrorCode
  disconnected : ErrorCode
  chain_disconnected : ErrorCode
  invalid_params : ErrorCode
  internal_error : ErrorCode
  chain_not_added : ErrorCode

-- A code of the table, or the code that a server answered.
pub data Code (V : Type 0) : Type 0 where
  of_table : ErrorCode → Code V
  of_server : V → Code V

pub record ProviderRpcError (V : Type 0) : Type 0 where
  pub code : Code V
  pub message : Text
  pub detail : Option V

-- What a listener is called with.
pub data Payload (V : Type 0) : Type 0 where
  connect_info : Text → Payload V
  disconnect_error : ProviderRpcError V → Payload V
  chain_text : Text → Payload V
  arguments : List V → Payload V

-- One call: of a listener, or of `onChainChanged` of the configuration.
pub data Effect (V : Type 0) : Type 0 where
  call_listener : ℕ → Payload V → Effect V
  call_on_chain_changed : ℕ → Effect V

pub record NeroProvider : Type 0 where
  pub chain_id : ℕ
  pub chain_config : Option ChainConfig
  pub listeners : List (Text × List ℕ)
  pub connected : Bool
  pub custom_chains : List (ℕ × ChainConfig)

unfoldable pub new_provider : ℕ → NeroProvider
new_provider chain_id = record {
  chain_id = chain_id;
  chain_config = get_chain_config chain_id;
  listeners = [];
  connected = false;
  custom_chains = [];
}

unfoldable pub to_hex_chain_id : ℕ → Text
to_hex_chain_id chain_id = text "0x" ++ to_string16 (pos chain_id)

-- `listeners.get(event)`.
unfoldable pub listeners_of : Text → List (Text × List ℕ) → Option (List ℕ)
listeners_of event [] = none
listeners_of event (entry ∷ entries) =
    let rest = listeners_of event entries in if same_text event entry.0 then some entry.1 else rest

-- The listener joins the set of its event, which is made when there is none.
unfoldable pub listen : Text → ℕ → List (Text × List ℕ) → List (Text × List ℕ)
listen event listener [] = (event, add_listener listener []) ∷ []
listen event listener (entry ∷ entries) =
    let rest = listen event listener entries in
    if same_text event entry.0
    then (entry.0, add_listener listener entry.1) ∷ entries
    else entry ∷ rest

unfoldable pub unlisten : Text → ℕ → List (Text × List ℕ) → List (Text × List ℕ)
unlisten event listener [] = []
unlisten event listener (entry ∷ entries) =
    let rest = unlisten event listener entries in
    if same_text event entry.0
    then (entry.0, delete_listener listener entry.1) ∷ entries
    else entry ∷ rest

unfoldable pub without_event : Text → List (Text × List ℕ) → List (Text × List ℕ)
without_event event [] = []
without_event event (entry ∷ entries) =
    let rest = without_event event entries in if same_text event entry.0 then rest else entry ∷ rest

unfoldable pub on : NeroProvider → Text → ℕ → NeroProvider
on p event listener = record p { listeners = listen event listener p.listeners }

unfoldable pub remove_listener : NeroProvider → Text → ℕ → NeroProvider
remove_listener p event listener = record p { listeners = unlisten event listener p.listeners }

-- An empty event counts as none given.
unfoldable pub remove_all_listeners : NeroProvider → Option Text → NeroProvider
remove_all_listeners p none = record p { listeners = [] }
remove_all_listeners p (some []) = record p { listeners = [] }
remove_all_listeners p (some (c ∷ event)) = record p {
  listeners = without_event (c ∷ event) p.listeners;
}

module _ {V : Type 0} where
  unfoldable pub emit_to : Option (List ℕ) → Payload V → Bool × List (Effect V)
  emit_to none payload = (false, [])
  emit_to (some []) payload = (false, [])
  emit_to (some (listener ∷ listeners)) payload =
      (true, map (λ l. call_listener l payload) (listener ∷ listeners))

  -- Whether anyone listens, and the calls.
  unfoldable pub emit : NeroProvider → Text → Payload V → Bool × List (Effect V)
  emit p event payload = emit_to (listeners_of event p.listeners) payload

  unfoldable pub connect : NeroProvider → NeroProvider × List (Effect V)
  connect p = if p.connected then (p, []) else (
    record p { connected = true },
    (emit p (text "connect") (connect_info (to_hex_chain_id p.chain_id))).1,
  )

  unfoldable pub provider_disconnected : ProviderRpcError V
  provider_disconnected = record {
    code = of_table disconnected;
    message = text "Provider disconnected";
    detail = none;
  }

  unfoldable pub or_disconnected : Option (ProviderRpcError V) → ProviderRpcError V
  or_disconnected none = provider_disconnected
  or_disconnected (some error) = error

  unfoldable pub disconnect :
      NeroProvider → Option (ProviderRpcError V) → NeroProvider × List (Effect V)
  disconnect p error = if not p.connected then (p, []) else (
    record p { connected = false },
    (emit p (text "disconnect") (disconnect_error (or_disconnected error))).1,
  )

unfoldable pub get_chain_config_by_id : NeroProvider → ℕ → Option ChainConfig
get_chain_config_by_id p chain_id =
    or_else (get_chain_config chain_id) (get chain_id p.custom_chains)

unfoldable pub add_custom_chain : NeroProvider → ChainConfig → NeroProvider
add_custom_chain p config = record p { custom_chains = set config.chain_id config p.custom_chains }
