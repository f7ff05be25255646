-- ===== src/Chains/Rpc.antt =====
-- `RpcConnection` (src/chains/chain-manager.ts): calls rotate through the URLs of a chain.
use Prim.Native.String.{String}
use nero_mpc_sdk.Base.{
  ℕ, zero, suc, ◌+◌, ◌%◌, ◌<◌, ◌≡◌, refl, sym, ap, ◌∙◌, arith, length, Option, get_elem?,
}
use native.Mathlib.Nat.{mod-add-mod, mod-eq_of_lt, mod-lt, add-mod_right}
use nero_mpc_sdk.Base.Throws.{Throws, ok, throw}
use nero_mpc_sdk.Chains.Configs.{ChainConfig}

pub record RpcConnection : Type 0 where
  pub config : ChainConfig
  pub current_rpc_index : ℕ

unfoldable pub rpc_url : RpcConnection → Option String
rpc_url connection = get_elem? connection.config.rpc_urls connection.current_rpc_index

unfoldable pub rotate_rpc : RpcConnection → RpcConnection
rotate_rpc connection = record connection {
  current_rpc_index = (connection.current_rpc_index + 1) % length connection.config.rpc_urls;
}

-- The connection after `k` rotations.
unfoldable pub rotated : ℕ → RpcConnection → RpcConnection
rotated zero connection = connection
rotated (suc k) connection = rotated k (rotate_rpc connection)

module _ {ℓ} {A : Type ℓ} where
  -- The `try` and its `catch`.
  unfoldable pub settle :
      Throws A → RpcConnection → (String → Throws A × RpcConnection) → Throws A × RpcConnection
  settle (ok a) connection retry = (ok a, connection)
  settle (throw e) connection retry = retry e

  -- The answers of `executeCall` are given by attempt; the state after it is part of the result.
  unfoldable pub call_loop :
      (Option String → ℕ → Throws A) → ℕ → ℕ → String → RpcConnection → Throws A × RpcConnection
  call_loop execute_call zero attempt last_error connection = (throw last_error, connection)
  call_loop execute_call (suc left) attempt last_error connection =
      settle (execute_call (rpc_url connection) attempt) connection
        (λ e. call_loop execute_call left (suc attempt) e (rotate_rpc connection))

  unfoldable pub call : (Option String → ℕ → Throws A) → RpcConnection → Throws A × RpcConnection
  call execute_call connection =
      call_loop execute_call (length connection.config.rpc_urls) 0 "RPC call failed" connection

  call_loop_throw :
      (execute : Option String → ℕ → Throws A) (left attempt : ℕ) (last e : String)
      (c : RpcConnection)
      → execute (rpc_url c) attempt ≡ throw e
      → call_loop execute (suc left) attempt last c
        ≡ call_loop execute left (suc attempt) e (rotate_rpc c)
  unfolding call_loop settle
  call_loop_throw execute left attempt last e c h =
      ap (λ t. settle t c (λ f. call_loop execute left (suc attempt) f (rotate_rpc c))) h

  call_loop_ok :
      (execute : Option String → ℕ → Throws A) (left attempt : ℕ) (last : String)
      (c : RpcConnection) (a : A)
      → execute (rpc_url c) attempt ≡ ok a
      → call_loop execute (suc left) attempt last c ≡ (ok a, c)
  unfolding call_loop settle
  call_loop_ok execute left attempt last c a h =
      ap (λ t. settle t c (λ f. call_loop execute left (suc attempt) f (rotate_rpc c))) h

  first_success :
      (execute : Option String → ℕ → Throws A) (k left attempt : ℕ) (last : String)
      (c : RpcConnection) (a : A)
      → k < left
      → ((i : ℕ) → i < k → (e : String) × (execute (rpc_url (rotated i c)) (attempt + i) ≡ throw e))
      → execute (rpc_url (rotated k c)) (attempt + k) ≡ ok a
      → call_loop execute left attempt last c ≡ (ok a, rotated k c)
  unfolding rotated
  first_success execute zero (suc left) attempt last c a lt failed found =
      call_loop_ok execute left attempt last c a
        (ap (execute (rpc_url c)) {x = attempt} {y = attempt + 0} (omega arith) ∙ found)
  first_success execute (suc k) (suc left) attempt last c a lt failed found =
      let (e, first) = failed 0 (omega arith) in
      call_loop_throw execute left attempt last e c
        (ap (execute (rpc_url c)) {x = attempt} {y = attempt + 0} (omega arith) ∙ first)
      ∙ first_success execute k left (suc attempt) e (rotate_rpc c) a (omega arith)
          (λ i h.
            let (e', later) = failed (suc i) (omega arith) in
            (
              e',
              ap (execute (rpc_url (rotated i (rotate_rpc c)))) {x = suc attempt + i}
                    {y = attempt + suc i} (omega arith)
                  ∙ later,
            ))
          (ap (execute (rpc_url (rotated k (rotate_rpc c)))) {x = suc attempt + k}
              {y = attempt + suc k} (omega arith)
            ∙ found)
  first_success execute k zero attempt last c a lt failed found = absurd (omega arith)

  from_zero :
      (i : ℕ) (execute : Option String → ℕ → Throws A) (c : RpcConnection) {result : Throws A}
      → execute (rpc_url (rotated i c)) i ≡ result
      → execute (rpc_url (rotated i c)) (0 + i) ≡ result
  from_zero i execute c e =
      ap (execute (rpc_url (rotated i c))) {x = 0 + i} {y = i} (omega arith) ∙ e

  -- If the first `k` attempts fail, on the URLs that the rotation goes through, and the next one,
  -- within the number of URLs, answers, then the call returns that answer, and the connection stays
  -- at the URL that gave it.
  pub call_first_success :
      (execute : Option String → ℕ → Throws A) (k : ℕ) (c : RpcConnection) (a : A)
      → k < length c.config.rpc_urls
      → ((i : ℕ) → i < k → (e : String) × (execute (rpc_url (rotated i c)) i ≡ throw e))
      → execute (rpc_url (rotated k c)) k ≡ ok a
      → call execute c ≡ (ok a, rotated k c)
  unfolding call
  call_first_success execute k c a lt failed found =
      first_success execute k (length c.config.rpc_urls) 0 "RPC call failed" c a lt
        (λ i h. let (e, f) = failed i h in (e, from_zero i execute c f))
        (from_zero k execute c found)

  all_fail :
      (execute : Option String → ℕ → Throws A) (left attempt : ℕ) (last : String)
      (c : RpcConnection)
      → ((i : ℕ)
          → i < left
          → (e : String) × (execute (rpc_url (rotated i c)) (attempt + i) ≡ throw e))
      → (e : String) × (call_loop execute left attempt last c ≡ (throw e, rotated left c))
  unfolding rotated call_loop
  all_fail execute zero attempt last c failed = (last, refl)
  all_fail execute (suc left) attempt last c failed =
      let (e, first) = failed 0 (omega arith) in
      let (e', rest) = all_fail execute left (suc attempt) e (rotate_rpc c) (λ i h.
        let (f, later) = failed (suc i) (omega arith) in
        (
          f,
          ap (execute (rpc_url (rotated i (rotate_rpc c)))) {x = suc attempt + i}
                {y = attempt + suc i} (omega arith)
              ∙ later,
        )) in
      (
        e',
        call_loop_throw execute left attempt last e c
              (ap (execute (rpc_url c)) {x = attempt} {y = attempt + 0} (omega arith) ∙ first)
            ∙ rest,
      )

-- `k` rotations keep the configuration and move the index by `k`, around the list.
rotated_index :
    (k : ℕ) (c : RpcConnection)
    → c.current_rpc_index < length c.config.rpc_urls
    → ((rotated k c).config ≡ c.config)
      × ((rotated k c).current_rpc_index ≡ (c.current_rpc_index + k) % length c.config.rpc_urls)
unfolding rotated rotate_rpc
rotated_index zero c lt = (
  refl,
  sym (mod-eq_of_lt lt)
      ∙ ap (λ t. t % length c.config.rpc_urls) {y = c.current_rpc_index + 0} (omega arith),
)
rotated_index (suc k) c lt =
    let (same, moved) =
      rotated_index k (rotate_rpc c) (mod-lt (c.current_rpc_index + 1) (omega arith)) in
    (
      same,
      moved
          ∙ mod-add-mod (c.current_rpc_index + 1) (length c.config.rpc_urls) k
          ∙ ap (λ t. t % length c.config.rpc_urls) {y = c.current_rpc_index + suc k} (omega arith),
    )

-- If no attempt answers, the call throws, and the index is back at the URL it started from.
pub call_all_fail :
    {A : Type 0} (execute : Option String → ℕ → Throws A) (c : RpcConnection)
    → c.current_rpc_index < length c.config.rpc_urls
    → ((i : ℕ)
        → i < length c.config.rpc_urls
        → (e : String) × (execute (rpc_url (rotated i c)) i ≡ throw e))
    → (e : String) × (next : RpcConnection) × (call execute c ≡ (throw e, next))
      × (next.config ≡ c.config)
      × (next.current_rpc_index ≡ c.current_rpc_index)
unfolding call
call_all_fail execute c lt failed =
    let n = length c.config.rpc_urls in
    let (e, result) =
      all_fail execute n 0 "RPC call failed" c
        (λ i h. let (e, f) = failed i h in (e, from_zero i execute c f)) in
    let (same, moved) = rotated_index n c lt in
    (e, rotated n c, result, same, moved ∙ around c.current_rpc_index n lt)
  where
    around : (i n : ℕ) → i < n → (i + n) % n ≡ i
    around i n h = add-mod_right i n ∙ mod-eq_of_lt h
