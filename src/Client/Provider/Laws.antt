-- ===== src/Client/Provider/Laws.antt =====
-- What holds of every state of `NeroProvider` (src/core/provider.ts) that its methods reach.
use nero_mpc_sdk.Base.{
  ℕ, ◌==◌, ==_iff, ◌≡◌, refl, sym, ap, ◌∙◌, arith, Bool, true, false, not, if◌then◌else◌,
  Bool-cases, inl, inr, List, [], ◌∷◌, Option, none, some,
}
use nero_mpc_sdk.Base.Maps.{get, set, get-set_same, get-set_other}
use nero_mpc_sdk.Hex.{Text}
use nero_mpc_sdk.Chains.Configs.{ChainConfig, builtin_chains, get_chain_config}
use nero_mpc_sdk.Chains.Manager.{or_else}
use nero_mpc_sdk.Client.Provider.State.{
  ProviderRpcError, NeroProvider, new_provider, on, remove_listener, remove_all_listeners, connect,
  disconnect, get_chain_config_by_id, add_custom_chain,
}
use nero_mpc_sdk.Client.Provider.Host.{
  Host, Method, eth_chain_id, net_version, eth_accounts, eth_sign, personal_sign,
  eth_sign_typed_data, eth_send_transaction, wallet_switch_chain, wallet_add_chain,
  wallet_watch_asset, forwarded, unknown_method,
}
use nero_mpc_sdk.Client.Provider.Request.{
  request, answered, unchanged, switch_provider_chain, switched_to, accounts_of,
  handle_request_accounts, handle_add_chain,
}

-- One call of a public method, each with a host of its own.
pub data Called (V : Type 0) : NeroProvider → NeroProvider → Type 0 where
  requested :
      (host : Host V) (p : NeroProvider) (m : Method V) → Called V p (request host p m).provider
  listened : (p : NeroProvider) (event : Text) (listener : ℕ) → Called V p (on p event listener)
  unlistened :
      (p : NeroProvider) (event : Text) (listener : ℕ)
      → Called V p (remove_listener p event listener)
  silenced : (p : NeroProvider) (event : Option Text) → Called V p (remove_all_listeners p event)
  joined : (p : NeroProvider) → Called V p (connect {V = V} p).0
  left :
      (p : NeroProvider) (error : Option (ProviderRpcError V)) → Called V p (disconnect p error).0
  switched :
      (host : Host V) (p : NeroProvider) (chain_id : ℕ)
      → Called V p (switch_provider_chain host p chain_id).provider
  added : (p : NeroProvider) (config : ChainConfig) → Called V p (add_custom_chain p config)

-- A state that calls of the public methods reach from a new provider for `initial`.
pub data Reached (V : Type 0) (initial : ℕ) : NeroProvider → Type 0 where
  at_start : Reached V initial (new_provider initial)
  after_call :
      {p next : NeroProvider} → Reached V initial p → Called V p next → Reached V initial next

-- Every entry is stored under the identifier of its configuration.
unfoldable pub IsKeyed : List (ℕ × ChainConfig) → Type 0
IsKeyed chains = (k : ℕ) (config : ChainConfig) → get k chains ≡ some config → config.chain_id ≡ k

-- The stored configuration has the identifier of the current chain. For a built-in chain it is the
-- built-in one; for an added chain it may be older than the one added last. It is missing only before
-- the first switch away from an initial chain that is not built in.
unfoldable pub IsConsistent : ℕ → NeroProvider → Type 0
IsConsistent initial p =
    IsKeyed p.custom_chains
    × ((config : ChainConfig) → p.chain_config ≡ some config → config.chain_id ≡ p.chain_id)
    × ((config : ChainConfig)
        → get_chain_config p.chain_id ≡ some config
        → p.chain_config ≡ some config)
    × (p.chain_config ≡ none → (p.chain_id ≡ initial) × (get_chain_config initial ≡ none))

keyed_entry :
    (k j : ℕ) (config c : ChainConfig) (o : Option ChainConfig)
    → config.chain_id ≡ j
    → (o ≡ some c → c.chain_id ≡ k)
    → (if k == j then some config else o) ≡ some c
    → c.chain_id ≡ k
keyed_entry k j config c o e rest h = elim (Bool-cases (k == j)) [
  | inl same ↦
      ap (λ t. t.chain_id) (sym (value_of (sym (ap (λ b. if b then some config else o) same) ∙ h)))
      ∙ e
      ∙ sym ((==_iff k j).0 same)
  | inr not_same ↦ rest (sym (ap (λ b. if b then some config else o) not_same) ∙ h)
]
  where
    value_of : {x y : ChainConfig} → some x ≡ some y → x ≡ y
    value_of e = cc

-- The keys of a list of entries, one by one.
Keys : List (ℕ × ChainConfig) → Type 0
Keys [] = Unit {0}
Keys (entry ∷ entries) = (entry.1.chain_id ≡ entry.0) × Keys entries

Keys-IsKeyed : (chains : List (ℕ × ChainConfig)) → Keys chains → IsKeyed chains
unfolding Keys IsKeyed get
Keys-IsKeyed [] keys k c h = cc
Keys-IsKeyed (entry ∷ chains) (e, keys) k c h =
    keyed_entry k entry.0 entry.1 c (get k chains) e (Keys-IsKeyed chains keys k c) h

builtin_keyed : (id : ℕ) (c : ChainConfig) → get_chain_config id ≡ some c → c.chain_id ≡ id
unfolding get_chain_config IsKeyed Keys
builtin_keyed id c h =
    Keys-IsKeyed builtin_chains (refl, (refl, (refl, (refl, (refl, (refl, (refl, tt))))))) id c h

set-IsKeyed :
    (config : ChainConfig) (chains : List (ℕ × ChainConfig))
    → IsKeyed chains
    → IsKeyed (set config.chain_id config chains)
unfolding IsKeyed
set-IsKeyed config chains keyed k c h = elim (Bool-cases (k == config.chain_id)) [
  | inl same ↦
      let e = (==_iff k config.chain_id).0 same in
      ap (λ t. t.chain_id)
        (sym (
          value_of (
            sym (get-set_same config.chain_id config chains)
            ∙ ap (λ t. get t (set config.chain_id config chains)) (sym e)
            ∙ h)))
      ∙ sym e
  | inr not_same ↦
      keyed k c (sym (get-set_other config.chain_id k config chains (λ e. ground arith)) ∙ h)
]
  where
    value_of : {x y : ChainConfig} → some x ≡ some y → x ≡ y
    value_of e = cc

found_keyed :
    (p : NeroProvider) (id : ℕ) (c : ChainConfig)
    → IsKeyed p.custom_chains
    → get_chain_config_by_id p id ≡ some c
    → c.chain_id ≡ id
unfolding get_chain_config_by_id or_else IsKeyed
found_keyed p id c keyed h = from (get_chain_config id) refl h
  where
    from :
        (o : Option ChainConfig)
        → get_chain_config id ≡ o
        → or_else o (get id p.custom_chains) ≡ some c
        → c.chain_id ≡ id
    from none e h = keyed id c h
    from (some found) e h = builtin_keyed id c (e ∙ h)

new_provider-IsConsistent : (initial : ℕ) → IsConsistent initial (new_provider initial)
unfolding new_provider IsConsistent IsKeyed get
new_provider-IsConsistent initial =
    (λ k c h. cc, λ c h. builtin_keyed initial c h, λ c h. h, λ h. (refl, h))

module _ (V : Type 0) (initial : ℕ) where
  connect-IsConsistent :
      (p : NeroProvider) → IsConsistent initial p → IsConsistent initial (connect {V = V} p).0
  unfolding connect IsConsistent
  connect-IsConsistent p h = elim (Bool-cases p.connected) [ inl e ↦ rw e h | inr e ↦ rw e h ]

  disconnect-IsConsistent :
      (p : NeroProvider) (error : Option (ProviderRpcError V))
      → IsConsistent initial p
      → IsConsistent initial (disconnect p error).0
  unfolding disconnect IsConsistent
  disconnect-IsConsistent p error h = elim (Bool-cases p.connected) [
    | inl e ↦ rw e h
    | inr e ↦ rw e h
  ]

  remove_all_listeners-IsConsistent :
      (p : NeroProvider) (event : Option Text)
      → IsConsistent initial p
      → IsConsistent initial (remove_all_listeners p event)
  unfolding remove_all_listeners IsConsistent
  remove_all_listeners-IsConsistent p none h = h
  remove_all_listeners-IsConsistent p (some []) h = h
  remove_all_listeners-IsConsistent p (some (c ∷ event)) h = h

  add_custom_chain-IsConsistent :
      (p : NeroProvider) (config : ChainConfig)
      → IsConsistent initial p
      → IsConsistent initial (add_custom_chain p config)
  unfolding add_custom_chain IsConsistent
  add_custom_chain-IsConsistent p config (keyed, present, builtin, missing) =
      (set-IsKeyed config p.custom_chains keyed, present, builtin, missing)

  switch-IsConsistent :
      (host : Host V) (p : NeroProvider) (id : ℕ)
      → IsConsistent initial p
      → IsConsistent initial (switch_provider_chain host p id).provider
  unfolding switch_provider_chain switched_to unchanged IsConsistent
  switch-IsConsistent host p id (keyed, present, builtin, missing) =
      from (get_chain_config_by_id p id) refl
    where
      value_of : {x y : ChainConfig} → some x ≡ some y → x ≡ y
      value_of e = cc

      never : {config : ChainConfig} → some config ≡ none → ⊥
      never e = cc

      from :
          (o : Option ChainConfig)
          → get_chain_config_by_id p id ≡ o
          → IsConsistent initial (switched_to host p id o).provider
      from none e = (keyed, present, builtin, missing)
      from (some config) e = (
        keyed,
        λ c h. ap (λ t. t.chain_id) (sym (value_of h)) ∙ found_keyed p id config keyed e,
        λ c h.
            sym e
            ∙ unfold get_chain_config_by_id in
              ap (λ t. or_else t (get id p.custom_chains)) h ∙ unfold or_else in refl,
        λ h. absurd (never h),
      )

  accounts-IsConsistent :
      (p : NeroProvider) (accounts : List Text)
      → IsConsistent initial p
      → IsConsistent initial (accounts_of {V = V} p accounts).provider
  unfolding accounts_of unchanged IsConsistent
  accounts-IsConsistent p [] h = h
  accounts-IsConsistent p (account ∷ accounts) h = either (not p.connected)
    where
      either : (b : Bool) → IsConsistent initial (if b then connect {V = V} p else (p, [])).0
      either true = connect-IsConsistent p h
      either false = h

  request-IsConsistent :
      (host : Host V) (p : NeroProvider) (m : Method V)
      → IsConsistent initial p
      → IsConsistent initial (request host p m).provider
  unfolding request unchanged answered handle_add_chain handle_request_accounts
  request-IsConsistent host p eth_chain_id h = h
  request-IsConsistent host p net_version h = h
  request-IsConsistent host p eth_accounts h = accounts-IsConsistent p host.accounts h
  request-IsConsistent host p (eth_sign address message) h = h
  request-IsConsistent host p (personal_sign message address) h = h
  request-IsConsistent host p (eth_sign_typed_data address json) h = h
  request-IsConsistent host p (eth_send_transaction tx) h = h
  request-IsConsistent host p (wallet_switch_chain id) h = switch-IsConsistent host p id h
  request-IsConsistent host p (wallet_add_chain params) h = add_custom_chain-IsConsistent p _ h
  request-IsConsistent host p wallet_watch_asset h = h
  request-IsConsistent host p (forwarded name params) h = h
  request-IsConsistent host p (unknown_method name) h = h

  call-IsConsistent :
      {p next : NeroProvider} → Called V p next → IsConsistent initial p → IsConsistent initial next
  unfolding on remove_listener IsConsistent
  call-IsConsistent (requested host p m) h = request-IsConsistent host p m h
  call-IsConsistent (listened p event listener) h = h
  call-IsConsistent (unlistened p event listener) h = h
  call-IsConsistent (silenced p event) h = remove_all_listeners-IsConsistent p event h
  call-IsConsistent (joined p) h = connect-IsConsistent p h
  call-IsConsistent (left p error) h = disconnect-IsConsistent p error h
  call-IsConsistent (switched host p id) h = switch-IsConsistent host p id h
  call-IsConsistent (added p config) h = add_custom_chain-IsConsistent p config h

-- In every state that calls of a provider's public methods reach, whatever hosts answered them, the
-- added chains are stored under their own identifiers, the stored configuration has the identifier of
-- the current chain and is the built-in one when that chain is built in, and it is missing only while
-- the chain is the initial one and not built in.
pub Reached-IsConsistent :
    {V : Type 0} (initial : ℕ) {p : NeroProvider} → Reached V initial p → IsConsistent initial p
Reached-IsConsistent initial at_start = new_provider-IsConsistent initial
Reached-IsConsistent {V} initial (after_call before call) =
    call-IsConsistent V initial call (Reached-IsConsistent initial before)
