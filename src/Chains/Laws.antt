-- ===== src/Chains/Laws.antt =====
-- How the chain manager's operations interact (src/chains/chain-manager.ts).
use nero_mpc_sdk.Base.{
  ℕ, ◌==◌, ==_iff, ◌≡◌, ◌≢◌, refl, sym, ap, ◌∙◌, arith, Bool, true, false, not, if◌then◌else◌,
  Bool-cases, inl, inr, List, [], ◌∷◌, map, Option, none, some,
}
use nero_mpc_sdk.Base.Throws.{ok, or_throw, >>=-eq-ok, or_throw-eq-ok}
use nero_mpc_sdk.Base.Maps.{
  get, set, delete, has, get-set_same, get-set_other, get-delete_same, get-delete_other,
}
use nero_mpc_sdk.Chains.Configs.{ChainConfig, builtin_chains, get_chain_config}
use nero_mpc_sdk.Chains.Manager.{
  ChainManager, Notification, or_else, get_config, chain_config, add_chain, remove_chain,
  switch_chain, notify_listeners,
}

has-get : {V : Type 0} (k : ℕ) (m : List (ℕ × V)) → has k m ≡ true → (v : V) × (get k m ≡ some v)
unfolding has get
has-get k [] h = cc
has-get k (entry ∷ m) h = elim (Bool-cases (k == entry.0)) [
  | inl e ↦ (entry.1, rw e)
  | inr e ↦
      let (v, f) = has-get k m (sym (ap (λ b. if b then true else has k m) e) ∙ h) in (v, rw e f)
]

or_else-some :
    {V : Type 0} {o : Option V} {v : V} (p q : Option V) → o ≡ some v → or_else o p ≡ or_else o q
unfolding or_else
or_else-some p q e = ap (λ t. or_else t p) e ∙ sym (ap (λ t. or_else t q) e)

same_key : (id k : ℕ) → (id == k) ≡ true → id ≡ k
same_key id k e = (==_iff id k).0 e

other_key : (id k : ℕ) → (id == k) ≡ false → id ≢ k
other_key id k e f = ground arith

-- What a chain's configuration is after `addChain` and after `removeChain`, for every identifier: a
-- built-in chain keeps its own whatever is added or removed, and of the others just the identifier
-- that was added or removed changes.
pub get_config_after :
    (m : ChainManager) (config : ChainConfig) (k id : ℕ)
    → (get_config (add_chain m config) id
        ≡ or_else
            (get_chain_config id)
            (if id == config.chain_id then some config else get id m.custom_chains))
      × (get_config (remove_chain m k).1 id
          ≡ or_else (get_chain_config id) (if id == k then none else get id m.custom_chains))
unfolding get_config add_chain remove_chain get_chain_config
get_config_after m config k id = (
  ap (or_else (get_chain_config id)) added,
  elim (Bool-cases (has k builtin_chains)) [
    | inl builtin ↦ rw builtin (kept builtin)
    | inr custom ↦ rw custom (ap (or_else (get_chain_config id)) removed)
  ],
)
  where
    added :
        get id (set config.chain_id config m.custom_chains)
        ≡ (if id == config.chain_id then some config else get id m.custom_chains)
    added = elim (Bool-cases (id == config.chain_id)) [
      | inl e ↦ rw e (
          ap (λ t. get t (set config.chain_id config m.custom_chains))
            (same_key id config.chain_id e)
          ∙ get-set_same config.chain_id config m.custom_chains)
      | inr e ↦
          rw e (
            get-set_other config.chain_id id config m.custom_chains
              (other_key id config.chain_id e))
    ]

    removed : get id (delete k m.custom_chains) ≡ (if id == k then none else get id m.custom_chains)
    removed = elim (Bool-cases (id == k)) [
      | inl e ↦ rw e (
          ap (λ t. get t (delete k m.custom_chains)) (same_key id k e)
          ∙ get-delete_same k m.custom_chains)
      | inr e ↦ rw e (get-delete_other k id m.custom_chains (other_key id k e))
    ]

    builtin_found : has k builtin_chains ≡ true → (v : ChainConfig) × (get_chain_config k ≡ some v)
    builtin_found builtin = has-get k builtin_chains builtin

    kept :
        has k builtin_chains ≡ true
        → or_else (get_chain_config id) (get id m.custom_chains)
          ≡ or_else (get_chain_config id) (if id == k then none else get id m.custom_chains)
    kept builtin = elim (Bool-cases (id == k)) [
      | inl e ↦ or_else-some _ _ (ap get_chain_config (same_key id k e) ∙ (builtin_found builtin).1)
      | inr e ↦ rw e refl
    ]

-- A switch that succeeds makes the identifier current with the configuration it returns, notifies
-- exactly the listeners if the identifier was another and no one otherwise; and a second switch to
-- the same identifier succeeds with the same configuration and state and notifies no one.
pub switch_chain_twice :
    (m next : ChainManager) (id : ℕ) (config : ChainConfig) (sent : List Notification)
    → switch_chain m id ≡ ok (config, next, sent)
    → (chain_config next ≡ some config)
      × (map (λ n. n.listener) sent ≡ (if m.current_chain_id == id then [] else m.listeners))
      × (switch_chain next id ≡ ok (config, next, []))
unfolding switch_chain chain_config get_config notify_listeners
switch_chain_twice m next id config sent h =
    let (found, e1, e2) = >>=-eq-ok (or_throw (get_config m id) "Chain is not supported") _ h in
    let known = or_throw-eq-ok _ _ e1 in
    let same_config : found ≡ config = ap (λ t. t.0) (result_of e2) in
    let same_state : record m { current_chain_id = id } ≡ next = ap (λ t. t.1) (result_of e2) in
    let now : get_config next id ≡ some config =
      ap (λ t. get_config t id) (sym same_state) ∙ known ∙ ap some same_config in
    let current : next.current_chain_id ≡ id = ap (λ t. t.current_chain_id) (sym same_state) in
    (
      ap (get_config next) current ∙ now,
      ap (map (λ n. n.listener)) (sym (ap (λ t. t.2) (result_of e2)))
          ∙ to_all (m.current_chain_id == id) found,
      rw (now, (==_iff next.current_chain_id id).1 current)
          (ap (λ t. ok (config, t, [])) (again current)),
    )
  where
    Switched : Type 0
    Switched = ChainConfig × ChainManager × List Notification

    result_of : {x y : Switched} → ok x ≡ ok y → x ≡ y
    result_of e = cc

    listeners_of :
        (ls : List ℕ) (c : ChainConfig) → map (λ n. n.listener) (notify_listeners ls id c) ≡ ls
    listeners_of [] c = refl
    listeners_of (l ∷ ls) c = ap (λ t. l ∷ t) (listeners_of ls c)

    to_all :
        (b : Bool) (c : ChainConfig)
        → map (λ n. n.listener) (if not b then notify_listeners m.listeners id c else [])
          ≡ (if b then [] else m.listeners)
    to_all true c = refl
    to_all false c = listeners_of m.listeners c

    again : next.current_chain_id ≡ id → record next { current_chain_id = id } ≡ next
    again e = ap (λ t. record next { current_chain_id = t }) (sym e)
