-- ===== src/Client/Provider/Tests.antt =====
-- A site that adds a chain and switches to it, with numbers as JSON values.
use nero_mpc_sdk.Base.{ℕ, ◌≡◌, ◌↔◌, refl, true, [], ◌∷◌, none, some, drop}
use nero_mpc_sdk.Hex.{text}
use nero_mpc_sdk.Client.Provider.State.{
  NeroProvider, new_provider, on, of_table, chain_disconnected, chain_text, call_listener,
  call_on_chain_changed,
}
use nero_mpc_sdk.Client.Provider.Host.{
  Host, thrown, rpc_error, returned, AddChainParameter, wallet_add_chain, wallet_switch_chain,
  forwarded, rpc_result, personal_sign, eth_sign, text_answer,
}
use nero_mpc_sdk.Client.Provider.Request.{request, message_bytes}
use nero_mpc_sdk.Client.Provider.Signing.{IsSigned, request-IsSigned}
use nero_mpc_sdk.Client.Provider.Laws.{
  at_start, after_call, requested, listened, IsConsistent, Reached-IsConsistent,
}

abbrev site_host : Host ℕ
site_host = record {
  accounts = text "0xab" ∷ [];
  sign_message = λ message. returned (text "signed");
  sign_typed_json = λ json. returned (text "signed");
  send_transaction = λ tx. returned (text "sent");
  observes_chain = true;
  post = λ url name params. returned (record { error = none; result = 8 });
  to_lower_case = λ s. s;
  slug = λ s. s;
  hex_to_bytes = λ s. returned s;
  utf8_to_bytes = λ s. s;
}

abbrev own_chain : AddChainParameter
own_chain = record {
  chain_id = 31;
  chain_name = "own";
  native_currency = record { name = "Own"; symbol = "OWN"; decimals = 18 };
  rpc_urls = "https://own" ∷ [];
  block_explorer_urls = none;
}

abbrev listening : NeroProvider
listening = on (new_provider 5) (text "chainChanged") 3

abbrev extended : NeroProvider
extended = (request site_host listening (wallet_add_chain own_chain)).provider

abbrev moved : NeroProvider
moved = (request site_host extended (wallet_switch_chain 31)).provider

announced_once :
    (request site_host extended (wallet_switch_chain 31)).effects
    ≡ call_listener 3 (chain_text (text "0x1f")) ∷ call_on_chain_changed 31 ∷ []
unfolding request text nero_mpc_sdk.Client.Provider.Request.answered
    nero_mpc_sdk.Client.Provider.Request.switch_provider_chain
    nero_mpc_sdk.Client.Provider.Request.switched_to
    nero_mpc_sdk.Client.Provider.State.get_chain_config_by_id nero_mpc_sdk.Chains.Manager.or_else
    nero_mpc_sdk.Chains.Configs.get_chain_config nero_mpc_sdk.Client.Provider.Request.unchanged
    nero_mpc_sdk.Client.Provider.Request.handle_add_chain
    nero_mpc_sdk.Client.Provider.State.add_custom_chain nero_mpc_sdk.Base.Maps.set
    nero_mpc_sdk.Base.Maps.get on new_provider nero_mpc_sdk.Client.Provider.Request.then_do
    nero_mpc_sdk.Client.Provider.Request.announced nero_mpc_sdk.Client.Provider.State.emit
    nero_mpc_sdk.Client.Provider.State.emit_to nero_mpc_sdk.Client.Provider.State.listeners_of
    nero_mpc_sdk.Client.Provider.State.listen nero_mpc_sdk.Chains.Manager.add_listener
    nero_mpc_sdk.Client.Provider.State.to_hex_chain_id nero_mpc_sdk.Hex.digits
    nero_mpc_sdk.Hex.hex_char nero_mpc_sdk.Hex.to_string16 nero_mpc_sdk.Hex.same_text
    nero_mpc_sdk.Base.Order.Acc-lt native.Mathlib.Decide.dec_le native.Mathlib.Decide.dec_lt
    native.Mathlib.Bridge.IsLe
announced_once = refl

forwarded_after_switch :
    (request site_host moved (forwarded (text "eth_call") none)).result ≡ returned (rpc_result 8)
unfolding request text nero_mpc_sdk.Client.Provider.Request.answered
    nero_mpc_sdk.Client.Provider.Request.switch_provider_chain
    nero_mpc_sdk.Client.Provider.Request.switched_to
    nero_mpc_sdk.Client.Provider.State.get_chain_config_by_id nero_mpc_sdk.Chains.Manager.or_else
    nero_mpc_sdk.Chains.Configs.get_chain_config nero_mpc_sdk.Client.Provider.Request.unchanged
    nero_mpc_sdk.Client.Provider.Request.handle_add_chain
    nero_mpc_sdk.Client.Provider.State.add_custom_chain nero_mpc_sdk.Base.Maps.set
    nero_mpc_sdk.Base.Maps.get on new_provider nero_mpc_sdk.Client.Provider.Request.then_do
    nero_mpc_sdk.Client.Provider.Request.forward_to_rpc nero_mpc_sdk.Client.Provider.Request.post_to
    nero_mpc_sdk.Client.Provider.Request.first_url nero_mpc_sdk.Client.Provider.Request.read_answer
forwarded_after_switch = refl

-- A chain that is added while it is the current one is not used until a switch.
added_too_late :
    (request site_host
      (request site_host (new_provider 31) (wallet_add_chain own_chain)).provider
      (forwarded (text "eth_call") none)).result
    ≡ thrown (
        rpc_error (record {
          code = of_table chain_disconnected;
          message = text "No RPC URL available for current chain";
          detail = none;
        }))
unfolding request text nero_mpc_sdk.Client.Provider.Request.answered
    nero_mpc_sdk.Client.Provider.Request.switch_provider_chain
    nero_mpc_sdk.Client.Provider.Request.switched_to
    nero_mpc_sdk.Client.Provider.State.get_chain_config_by_id nero_mpc_sdk.Chains.Manager.or_else
    nero_mpc_sdk.Chains.Configs.get_chain_config nero_mpc_sdk.Client.Provider.Request.unchanged
    nero_mpc_sdk.Client.Provider.Request.handle_add_chain
    nero_mpc_sdk.Client.Provider.State.add_custom_chain nero_mpc_sdk.Base.Maps.set
    nero_mpc_sdk.Base.Maps.get on new_provider nero_mpc_sdk.Client.Provider.Request.then_do
    nero_mpc_sdk.Client.Provider.Request.forward_to_rpc nero_mpc_sdk.Client.Provider.Request.post_to
    nero_mpc_sdk.Client.Provider.Request.first_url nero_mpc_sdk.Client.Provider.Request.read_answer
    nero_mpc_sdk.Client.Provider.Request.refuse
added_too_late = refl

Reached-IsConsistent_example : IsConsistent 5 moved
Reached-IsConsistent_example = Reached-IsConsistent {V = ℕ} 5 (
    after_call
      (after_call (after_call at_start (listened (new_provider 5) (text "chainChanged") 3))
        (requested site_host listening (wallet_add_chain own_chain)))
      (requested site_host extended (wallet_switch_chain 31)))

request-IsSigned_example :
    (((request site_host listening (personal_sign (text "hi") (text "0xab"))).result
        ≡ returned (text_answer (text "signed")))
      ↔ IsSigned site_host (text "0xab") (message_bytes site_host (text "hi")) (text "signed"))
    × (((request site_host listening (eth_sign (text "0xab") (text "hi"))).result
          ≡ returned (text_answer (text "signed")))
        ↔ IsSigned site_host
            (text "0xab")
            (site_host.hex_to_bytes (drop 2 (text "hi")))
            (text "signed"))
request-IsSigned_example =
    request-IsSigned site_host listening (text "0xab") (text "hi") (text "signed")
