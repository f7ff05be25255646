-- ===== src/Client/Provider/Request.antt =====
-- `switchChain` and `request` of `NeroProvider` (src/core/provider.ts).
use Prim.Native.String.{String}
use nero_mpc_sdk.Base.{
  ℕ, ◌==◌, Bool, true, false, not, if◌then◌else◌, List, [], ◌∷◌, ◌++◌, Option, none, some, drop,
}
use nero_mpc_sdk.Hex.{Text, Bytes, text, same_text, to_string10}
use nero_mpc_sdk.Chains.Configs.{ChainConfig}
use nero_mpc_sdk.Client.Provider.Host.{
  AddChainParameter, Answer, Host, Method, Outcome, Result, RpcFailure, accounts_answer,
  eth_accounts, eth_chain_id, eth_send_transaction, eth_sign, eth_sign_typed_data, forwarded,
  net_version, null_answer, personal_sign, returned, rpc_error, rpc_result, text_answer, thrown,
  true_answer, unknown_method, wallet_add_chain, wallet_switch_chain, wallet_watch_asset,
}
use nero_mpc_sdk.Client.Provider.State.{
  ErrorCode, unauthorized, unsupported_method, chain_disconnected, internal_error, chain_not_added,
  Code, of_table, of_server, chain_text, Effect, call_on_chain_changed, NeroProvider,
  to_hex_chain_id, emit, connect, get_chain_config_by_id, add_custom_chain,
}

unfoldable pub starts_with_0x : Text → Bool
starts_with_0x (c ∷ d ∷ s) = same_text (c ∷ d ∷ []) (text "0x")
starts_with_0x (c ∷ []) = false
starts_with_0x [] = false

-- `chainConfig?.rpcUrls?.[0]`, and `none` also for an empty text.
unfoldable pub first_url : Option ChainConfig → Option String
first_url none = none
first_url (some config) = first config.rpc_urls
  where
    first : List String → Option String
    first [] = none
    first (String.[] ∷ urls) = none
    first (String.◌∷◌ c s ∷ urls) = some (String.◌∷◌ c s)

module _ {V : Type 0} where
  unfoldable pub refuse : {A : Type 0} → ErrorCode → Text → Result V A
  refuse code message =
      thrown (rpc_error (record { code = of_table code; message = message; detail = none }))

  -- `await call` and the rest of a method.
  unfoldable pub then_do : {A B : Type 0} → Result V A → (A → Result V B) → Result V B
  then_do (returned a) rest = rest a
  then_do (thrown error) rest = thrown error

  -- A call that leaves the provider alone.
  unfoldable pub unchanged : {A : Type 0} → NeroProvider → Result V A → Outcome V A
  unchanged p result = record { provider = p; effects = []; result = result }

  unfoldable pub announced : Host V → NeroProvider → List (Effect V)
  announced host p =
      (emit p (text "chainChanged") (chain_text (to_hex_chain_id p.chain_id))).1
      ++ (if host.observes_chain then call_on_chain_changed p.chain_id ∷ [] else [])

  unfoldable pub switched_to : Host V → NeroProvider → ℕ → Option ChainConfig → Outcome V (Unit {0})
  switched_to host p chain_id none =
      unchanged p (
        refuse chain_not_added
          (text "Chain " ++ to_string10 chain_id ++ text " has not been added"))
  switched_to host p chain_id (some config) =
      let next = record p { chain_id = chain_id; chain_config = some config } in
      record {
        provider = next;
        effects = if not (p.chain_id == chain_id) then announced host next else [];
        result = returned tt;
      }

  unfoldable pub switch_provider_chain : Host V → NeroProvider → ℕ → Outcome V (Unit {0})
  switch_provider_chain host p chain_id =
      switched_to host p chain_id (get_chain_config_by_id p chain_id)

  unfoldable pub accounts_of : NeroProvider → List Text → Outcome V (List Text)
  accounts_of p [] = unchanged p (refuse unauthorized (text "No accounts available"))
  accounts_of p (account ∷ accounts) =
      let (next, effects) = if not p.connected then connect p else (p, []) in
      record { provider = next; effects = effects; result = returned (account ∷ accounts) }

  unfoldable pub handle_request_accounts : Host V → NeroProvider → Outcome V (List Text)
  handle_request_accounts host p = accounts_of p host.accounts

  unfoldable pub some_account : Host V → Text → List Text → Bool
  some_account host normalized [] = false
  some_account host normalized (a ∷ accounts) =
      let rest = some_account host normalized accounts in
      if same_text (host.to_lower_case a) normalized then true else rest

  unfoldable pub validate_address : Host V → Text → Result V (Unit {0})
  validate_address host address =
      if not (some_account host (host.to_lower_case address) host.accounts)
      then refuse unauthorized (text "Address " ++ address ++ text " is not authorized")
      else returned tt

  unfoldable pub handle_eth_sign : Host V → Text → Text → Result V Text
  handle_eth_sign host address message =
      then_do (validate_address host address)
        (λ valid. then_do (host.hex_to_bytes (drop 2 message)) host.sign_message)

  unfoldable pub message_bytes : Host V → Text → Result V Bytes
  message_bytes host message =
      if starts_with_0x message
      then host.hex_to_bytes (drop 2 message)
      else returned (host.utf8_to_bytes message)

  unfoldable pub handle_personal_sign : Host V → Text → Text → Result V Text
  handle_personal_sign host message address =
      then_do (validate_address host address)
        (λ valid. then_do (message_bytes host message) host.sign_message)

  unfoldable pub handle_sign_typed_data : Host V → Text → Text → Result V Text
  handle_sign_typed_data host address typed_data_json =
      then_do (validate_address host address) (λ valid. host.sign_typed_json typed_data_json)

  unfoldable pub handle_add_chain : Host V → NeroProvider → AddChainParameter → NeroProvider
  handle_add_chain host p params = add_custom_chain p (record {
    chain_id = params.chain_id;
    chain_name = host.slug params.chain_name;
    display_name = params.chain_name;
    native_currency = params.native_currency;
    rpc_urls = params.rpc_urls;
    block_explorer_urls = params.block_explorer_urls;
    icon_url = none;
    is_testnet = false;
    bundler_url = none;
    paymaster_url = none;
    entry_point_address = none;
    simple_account_factory_address = none;
  })

  unfoldable pub code_or_internal : Option V → Code V
  code_or_internal none = of_table internal_error
  code_or_internal (some code) = of_server code

  unfoldable pub read_answer : Option (RpcFailure V) → V → Result V V
  read_answer none result = returned result
  read_answer (some error) result = thrown (
      rpc_error (record {
        code = code_or_internal error.code;
        message = error.message;
        detail = error.detail;
      }))

  unfoldable pub post_to : Host V → Option String → Text → Option V → Result V V
  post_to host none name params =
      refuse chain_disconnected (text "No RPC URL available for current chain")
  post_to host (some url) name params =
      then_do (host.post url name params) (λ answer. read_answer answer.error answer.result)

  unfoldable pub forward_to_rpc : Host V → NeroProvider → Text → Option V → Result V V
  forward_to_rpc host p name params = post_to host (first_url p.chain_config) name params

  -- The value of a call as an answer.
  unfoldable pub answered : {A : Type 0} → (A → Answer V) → Outcome V A → Outcome V (Answer V)
  answered wrap o = record {
    provider = o.provider;
    effects = o.effects;
    result = then_do o.result (λ a. returned (wrap a));
  }

  unfoldable pub request : Host V → NeroProvider → Method V → Outcome V (Answer V)
  request host p eth_chain_id = unchanged p (returned (text_answer (to_hex_chain_id p.chain_id)))
  request host p net_version = unchanged p (returned (text_answer (to_string10 p.chain_id)))
  request host p eth_accounts = answered accounts_answer (handle_request_accounts host p)
  request host p (eth_sign address message) =
      answered text_answer (unchanged p (handle_eth_sign host address message))
  request host p (personal_sign message address) =
      answered text_answer (unchanged p (handle_personal_sign host message address))
  request host p (eth_sign_typed_data address typed_data_json) =
      answered text_answer (unchanged p (handle_sign_typed_data host address typed_data_json))
  request host p (eth_send_transaction tx) =
      answered text_answer (unchanged p (host.send_transaction tx))
  request host p (wallet_switch_chain chain_id) =
      answered (λ done. null_answer) (switch_provider_chain host p chain_id)
  request host p (wallet_add_chain params) =
      unchanged (handle_add_chain host p params) (returned null_answer)
  request host p wallet_watch_asset = unchanged p (returned true_answer)
  request host p (forwarded name params) =
      answered rpc_result (unchanged p (forward_to_rpc host p name params))
  request host p (unknown_method name) =
      unchanged p (refuse unsupported_method (text "Method " ++ name ++ text " is not supported"))
