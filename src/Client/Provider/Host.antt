-- ===== src/Client/Provider/Host.antt =====
-- What `request` of `NeroProvider` (src/core/provider.ts) is given and answers. A `Host` holds the
-- callbacks of the configuration, `fetch` with the reading of its answer, and the functions of
-- JavaScript and @noble/hashes on texts, as they answer during one request. `V` is the type of JSON
-- values. A chain's identifier is read already, and a typed message is taken apart by the host.
use Prim.Native.String.{String}
use nero_mpc_sdk.Base.{ℕ, Bool, List, Option}
use nero_mpc_sdk.Hex.{Text, Bytes}
use nero_mpc_sdk.Chains.Configs.{NativeCurrency}
use nero_mpc_sdk.Client.Provider.State.{ProviderRpcError, Effect, NeroProvider}

-- What a call throws: an error of the provider, or a value of the host's.
pub data Thrown (V : Type 0) : Type 0 where
  rpc_error : ProviderRpcError V → Thrown V
  host_error : V → Thrown V

pub data Result (V A : Type 0) : Type 0 where
  returned : A → Result V A
  thrown : Thrown V → Result V A

pub record RpcFailure (V : Type 0) : Type 0 where
  pub code : Option V
  pub message : Text
  pub detail : Option V

-- The fields of a JSON-RPC answer that are read.
pub record RpcAnswer (V : Type 0) : Type 0 where
  pub error : Option (RpcFailure V)
  pub result : V

pub record Host (V : Type 0) : Type 0 where
  pub accounts : List Text
  pub sign_message : Bytes → Result V Text
  pub sign_typed_json : Text → Result V Text
  pub send_transaction : V → Result V Text
  pub observes_chain : Bool
  pub post : String → Text → Option V → Result V (RpcAnswer V)
  pub to_lower_case : Text → Text
  pub slug : String → String
  pub hex_to_bytes : Text → Result V Bytes
  pub utf8_to_bytes : Text → Bytes

-- `AddEthereumChainParameter`, its identifier read.
pub record AddChainParameter : Type 0 where
  pub chain_id : ℕ
  pub chain_name : String
  pub native_currency : NativeCurrency
  pub rpc_urls : List String
  pub block_explorer_urls : Option (List String)

-- The cases of `request`, with their parameters.
pub data Method (V : Type 0) : Type 0 where
  eth_chain_id : Method V
  net_version : Method V
  eth_accounts : Method V
  eth_sign : Text → Text → Method V
  personal_sign : Text → Text → Method V
  eth_sign_typed_data : Text → Text → Method V
  eth_send_transaction : V → Method V
  wallet_switch_chain : ℕ → Method V
  wallet_add_chain : AddChainParameter → Method V
  wallet_watch_asset : Method V
  forwarded : Text → Option V → Method V
  unknown_method : Text → Method V

-- What `request` resolves to.
pub data Answer (V : Type 0) : Type 0 where
  text_answer : Text → Answer V
  accounts_answer : List Text → Answer V
  null_answer : Answer V
  true_answer : Answer V
  rpc_result : V → Answer V

-- The state that a call leaves, the calls that it makes and how it ends.
pub record Outcome (V A : Type 0) : Type 0 where
  pub provider : NeroProvider
  pub effects : List (Effect V)
  pub result : Result V A
