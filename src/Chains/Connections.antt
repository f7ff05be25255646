-- ===== src/Chains/Connections.antt =====
-- The connections of the chain manager over its later life (src/chains/chain-manager.ts).
use Prim.Native.String.{String}
use nero_mpc_sdk.Base.{
  ℕ, zero, suc, ◌==◌, ==_iff, ◌≡◌, refl, sym, ap, ◌∙◌, arith, Bool-cases, inl, inr, List, length,
  Option, none, some, subst,
}
use nero_mpc_sdk.Base.Throws.{Throws, ok, throw, or_throw, >>=-eq-ok}
use nero_mpc_sdk.Base.Maps.{get, set, has, get-set_same, get-set_other}
use nero_mpc_sdk.Chains.Configs.{ChainConfig, builtin_chains}
use nero_mpc_sdk.Chains.Rpc.{RpcConnection, rotate_rpc, settle, call, call_loop}
use nero_mpc_sdk.Chains.Manager.{
  ChainManager, Notification, get_config, add_chain, remove_chain, switch_chain, on_chain_change,
  unsubscribe, connect_to, get_rpc_connection,
}

-- One call of a method of the manager, or of a connection that it has handed out, which is the object
-- in its map. A call that throws leaves the manager as it is.
pub data Called : ChainManager → ChainManager → Type 1 where
  added : (m : ChainManager) (config : ChainConfig) → Called m (add_chain m config)
  removed : (m : ChainManager) (id : ℕ) → Called m (remove_chain m id).1
  switched :
      (m next : ChainManager) (id : ℕ) (config : ChainConfig) (sent : List Notification)
      → switch_chain m id ≡ ok (config, next, sent)
      → Called m next
  listened : (m : ChainManager) (listener : ℕ) → Called m (on_chain_change m listener)
  unlistened : (m : ChainManager) (listener : ℕ) → Called m (unsubscribe m listener)
  asked :
      (m next : ChainManager) (target : Option ℕ) (connection : RpcConnection)
      → get_rpc_connection m target ≡ ok (connection, next)
      → Called m next
  used :
      {A : Type 0} (m : ChainManager) (id : ℕ) (connection : RpcConnection)
      (execute : Option String → ℕ → Throws A)
      → get id m.rpc_connections ≡ some connection
      → Called m
          (record m { rpc_connections = set id (call execute connection).1 m.rpc_connections })

-- Any number of calls later.
pub data Later (m : ChainManager) : ChainManager → Type 1 where
  now : Later m m
  after_call : {p next : ChainManager} → Later m p → Called p next → Later m next

call_loop_config :
    {A : Type 0} (execute : Option String → ℕ → Throws A) (left attempt : ℕ) (last : String)
    (c : RpcConnection)
    → (call_loop execute left attempt last c).1.config ≡ c.config
unfolding call_loop rotate_rpc settle
call_loop_config execute zero attempt last c = refl
call_loop_config {A} execute (suc left) attempt last c =
    settled (execute _ attempt) _
      (λ e. call_loop_config execute left (suc attempt) e (rotate_rpc c))
  where
    settled :
        (t : Throws A) (retry : String → Throws A × RpcConnection)
        → ((e : String) → (retry e).1.config ≡ c.config)
        → (settle t c retry).1.config ≡ c.config
    settled (ok a) retry h = refl
    settled (throw e) retry h = h e

-- The manager has a connection for the chain with this configuration.
abbrev Has : ℕ → ChainConfig → List (ℕ × RpcConnection) → Type 0
Has id config connections =
    (c : RpcConnection) × (c.config ≡ config) × (get id connections ≡ some c)

set-Has :
    (id k : ℕ) (config : ChainConfig) (connections : List (ℕ × RpcConnection)) (c : RpcConnection)
    → (id ≡ k → c.config ≡ config)
    → Has id config connections
    → Has id config (set k c connections)
set-Has id k config connections c same (old, kept, found) = elim (Bool-cases (id == k)) [
  | inl e ↦
      let id-k = (==_iff id k).0 e in
      (c, same id-k, ap (λ t. get t (set k c connections)) id-k ∙ get-set_same k c connections)
  | inr e ↦ (old, kept, get-set_other k id c connections (λ f. ground arith) ∙ found)
]

same_config :
    {o : Option RpcConnection} (c d : RpcConnection) → o ≡ some c → o ≡ some d → c.config ≡ d.config
same_config c d e f = ap (λ t. t.config) (value_of (sym e ∙ f))
  where
    value_of : {x y : RpcConnection} → some x ≡ some y → x ≡ y
    value_of e = cc

connect_to-Has :
    (m next : ChainManager) (id k : ℕ) (config : ChainConfig) (c : RpcConnection)
    (o : Option RpcConnection)
    → get k m.rpc_connections ≡ o
    → connect_to m k o ≡ ok (c, next)
    → Has id config m.rpc_connections
    → Has id config next.rpc_connections
unfolding connect_to
connect_to-Has m next id k config c (some d) e h has =
    subst (λ (t : ChainManager). Has id config t.rpc_connections) (ap (λ t. t.1) (pair_of h)) has
  where
    pair_of : {x y : RpcConnection × ChainManager} → ok x ≡ ok y → x ≡ y
    pair_of e = cc
connect_to-Has m next id k config c none e h (old, kept, found) =
    let (new_config, listed, made) =
      >>=-eq-ok (or_throw (get_config m k) "Chain is not supported") _ h in
    subst (λ (t : ChainManager). Has id config t.rpc_connections) (ap (λ t. t.1) (pair_of made))
      (set-Has id k config m.rpc_connections _
        (λ same. absurd (differ (sym e ∙ ap (λ t. get t m.rpc_connections) (sym same) ∙ found)))
        (old, kept, found))
  where
    pair_of : {x y : RpcConnection × ChainManager} → ok x ≡ ok y → x ≡ y
    pair_of e = cc

    differ : {x : RpcConnection} → none ≡ some x → ⊥
    differ e = cc

get_rpc_connection-Has :
    (m next : ChainManager) (id : ℕ) (target : Option ℕ) (config : ChainConfig) (c : RpcConnection)
    → get_rpc_connection m target ≡ ok (c, next)
    → Has id config m.rpc_connections
    → Has id config next.rpc_connections
unfolding get_rpc_connection
get_rpc_connection-Has m next id none config c h has =
    connect_to-Has m next id m.current_chain_id config c _ refl h has
get_rpc_connection-Has m next id (some k) config c h has =
    connect_to-Has m next id k config c _ refl h has

remove_chain-rpc_connections :
    (m : ChainManager) (id : ℕ) → (remove_chain m id).1.rpc_connections ≡ m.rpc_connections
unfolding remove_chain
remove_chain-rpc_connections m id = elim (Bool-cases (has id builtin_chains)) [
  | inl e ↦ rw e refl
  | inr e ↦ rw e refl
]

switch_chain-rpc_connections :
    (m next : ChainManager) (id : ℕ) (config : ChainConfig) (sent : List Notification)
    → switch_chain m id ≡ ok (config, next, sent)
    → m.rpc_connections ≡ next.rpc_connections
unfolding switch_chain
switch_chain-rpc_connections m next id config sent h =
    let (found, listed, made) =
      >>=-eq-ok (or_throw (get_config m id) "Chain is not supported") _ h in
    ap (λ t. t.1.rpc_connections) (result_of made)
  where
    result_of : {x y : ChainConfig × ChainManager × List Notification} → ok x ≡ ok y → x ≡ y
    result_of e = cc

Called-Has :
    {m next : ChainManager} (id : ℕ) (config : ChainConfig)
    → Called m next
    → Has id config m.rpc_connections
    → Has id config next.rpc_connections
unfolding add_chain on_chain_change unsubscribe call
Called-Has id config (added m c) h = h
Called-Has id config (removed m k) h =
    subst (Has id config) (sym (remove_chain-rpc_connections m k)) h
Called-Has id config (switched m next k c sent e) h =
    subst (Has id config) (switch_chain-rpc_connections m next k c sent e) h
Called-Has id config (listened m listener) h = h
Called-Has id config (unlistened m listener) h = h
Called-Has id config (asked m next target c e) h =
    get_rpc_connection-Has m next id target config c e h
Called-Has id config (used m k c execute e) (old, kept, found) =
    set-Has id k config m.rpc_connections (call execute c).1
      (λ same.
        call_loop_config execute (length c.config.rpc_urls) 0 "RPC call failed" c
        ∙ same_config c old e (ap (λ t. get t m.rpc_connections) (sym same) ∙ found)
        ∙ kept)
      (old, kept, found)

Later-Has :
    {m later : ChainManager} (id : ℕ) (config : ChainConfig)
    → Later m later
    → Has id config m.rpc_connections
    → Has id config later.rpc_connections
Later-Has id config now h = h
Later-Has id config (after_call before step) h =
    Called-Has id config step (Later-Has id config before h)

connected-Has :
    (m next : ChainManager) (id : ℕ) (c : RpcConnection) (o : Option RpcConnection)
    → get id m.rpc_connections ≡ o
    → connect_to m id o ≡ ok (c, next)
    → Has id c.config next.rpc_connections
unfolding connect_to
connected-Has m next id c (some d) e h = (
  c,
  refl,
  ap (λ t. get id t.1.rpc_connections) (sym (pair_of h)) ∙ e ∙ ap (λ t. some t.0) (pair_of h),
)
  where
    pair_of : {x y : RpcConnection × ChainManager} → ok x ≡ ok y → x ≡ y
    pair_of e = cc
connected-Has m next id c none e h =
    let (config, found, made) =
      >>=-eq-ok (or_throw (get_config m id) "Chain is not supported") _ h in
    (
      c,
      refl,
      ap (λ t. get id t.1.rpc_connections) (sym (pair_of made))
          ∙ get-set_same id _ m.rpc_connections
          ∙ ap (λ t. some t.0) (pair_of made),
    )
  where
    pair_of : {x y : RpcConnection × ChainManager} → ok x ≡ ok y → x ≡ y
    pair_of e = cc

-- Once a connection of a chain was handed out, every later request for that chain, after any calls of
-- the manager's methods and of its connections, returns the connection that is there, with the
-- configuration of the first, and changes nothing; removing the chain or adding it again with another
-- configuration has no effect on it.
pub rpc_connection_kept :
    (m next later : ChainManager) (id : ℕ) (c : RpcConnection)
    → get_rpc_connection m (some id) ≡ ok (c, next)
    → Later next later
    → (d : RpcConnection) × (d.config ≡ c.config)
      × (get_rpc_connection later (some id) ≡ ok (d, later))
unfolding get_rpc_connection
rpc_connection_kept m next later id c h calls =
    let (d, kept, found) =
      Later-Has id c.config calls (connected-Has m next id c (get id m.rpc_connections) refl h) in
    (d, kept, unfold connect_to in ap (connect_to later id) found)
