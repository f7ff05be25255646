-- ===== src/Transport/Retry.antt =====
-- `createRetryMiddleware` (src/transport/middleware/retry.ts). Times are whole milliseconds, and the
-- random part of a delay, by attempt, is an argument.
use Prim.Native.Nat.{min}
use nero_mpc_sdk.Base.{
  ℕ, zero, suc, ◌+◌, ◌*◌, ◌^◌, ◌≤◌, ◌≡◌, ◌≢◌, ◌⊎◌, ◌==◌, ==_iff, refl, ap, ◌∙◌, subst, arith, Bool,
  true, false, not, ◌||◌, if◌then◌else◌, Bool-cases, inl, inr, List, [], ◌∷◌, length, All, Option,
  none, some,
}
use nero_mpc_sdk.Base.Throws.{Throws, ok, throw}

-- The configuration that the middleware works with; `is_retryable` tells whether the request's method
-- is one of those to retry.
pub record RetryConfig : Type 0 where
  pub max_retries : ℕ
  pub retryable_statuses : List ℕ
  pub base_delay_ms : ℕ
  pub max_delay_ms : ℕ
  pub is_retryable : Bool

pub record Response : Type 0 where
  pub status : ℕ
  pub retry_after_ms : Option ℕ

unfoldable pub compute_delay : ℕ → ℕ → ℕ → ℕ → Option ℕ → ℕ
compute_delay jitter attempt base_delay_ms max_delay_ms (some retry_after_ms) =
    min retry_after_ms max_delay_ms
compute_delay jitter attempt base_delay_ms max_delay_ms none =
    min (base_delay_ms * 2 ^ attempt + jitter) max_delay_ms

unfoldable pub includes_status : List ℕ → ℕ → Bool
includes_status [] status = false
includes_status (s ∷ statuses) status =
    let rest = includes_status statuses status in if s == status then true else rest

-- Whether the answer of an attempt is final.
unfoldable pub is_final : RetryConfig → ℕ → Throws Response → Bool
is_final config attempt (ok response) =
    not config.is_retryable
    || ((attempt == config.max_retries)
        || not (includes_status config.retryable_statuses response.status))
is_final config attempt (throw error) = not config.is_retryable || (attempt == config.max_retries)

unfoldable pub header_of : Throws Response → Option ℕ
header_of (ok response) = response.retry_after_ms
header_of (throw error) = none

module _ (config : RetryConfig) (jitter : ℕ → ℕ) (next : ℕ → Throws Response) where
  -- The result and the delays slept, with the attempts left; `last` is what the
  -- code after the loop returns, which is not reached: the last attempt is final.
  unfoldable pub retry_loop : ℕ → ℕ → Throws Response → Throws Response × List ℕ
  retry_loop zero attempt last = (last, [])
  retry_loop (suc left) attempt last =
      let rest = retry_loop left (suc attempt) (next attempt) in
      if is_final config attempt (next attempt) then (next attempt, []) else (
        rest.0,
        compute_delay (jitter attempt) attempt config.base_delay_ms config.max_delay_ms
              (header_of (next attempt))
            ∷ rest.1,
      )

  unfoldable pub retry : Throws Response × List ℕ
  retry = retry_loop (suc config.max_retries) 0 (throw "no attempt")

  compute_delay-le :
      (j attempt : ℕ) (header : Option ℕ)
      → compute_delay j attempt config.base_delay_ms config.max_delay_ms header
        ≤ config.max_delay_ms
  unfolding compute_delay
  compute_delay-le j attempt (some r) = omega arith
  compute_delay-le j attempt none = omega arith

  -- The status is one of the list.
  unfoldable pub IsListed : ℕ → List ℕ → Type 0
  IsListed status [] = ⊥
  IsListed status (s ∷ statuses) = (s ≡ status) ⊎ IsListed status statuses

  includes_status-true :
      (statuses : List ℕ) (status : ℕ)
      → includes_status statuses status ≡ true
      → IsListed status statuses
  unfolding includes_status IsListed
  includes_status-true [] status h = cc
  includes_status-true (s ∷ statuses) status h = elim (Bool-cases (s == status)) [
    | inl e ↦ inl ((==_iff s status).0 e)
    | inr e ↦ inr (includes_status-true statuses status (ground arith))
  ]

  includes_status-false :
      (statuses : List ℕ) (status : ℕ)
      → includes_status statuses status ≡ false
      → ¬ IsListed status statuses
  unfolding includes_status IsListed
  includes_status-false [] status h listed = listed
  includes_status-false (s ∷ statuses) status h (inl e) = ground arith
  includes_status-false (s ∷ statuses) status h (inr listed) =
      includes_status-false statuses status (ground arith) listed

  -- A request of a method to be retried whose answer is an error or a status to be retried.
  unfoldable pub AsksRetry : Throws Response → Type 0
  AsksRetry (ok response) =
      (config.is_retryable ≡ true) × IsListed response.status config.retryable_statuses
  AsksRetry (throw error) = config.is_retryable ≡ true

  -- The `k` attempts from `attempt` on all ask for a retry.
  unfoldable pub AllAskRetry : ℕ → ℕ → Type 0
  AllAskRetry attempt zero = Unit {0}
  AllAskRetry attempt (suc k) = AsksRetry (next attempt) × AllAskRetry (suc attempt) k

  is_final-false :
      (attempt : ℕ) (t : Throws Response)
      → is_final config attempt t ≡ false
      → (attempt ≢ config.max_retries) × AsksRetry t
  unfolding is_final AsksRetry
  is_final-false attempt (ok response) h = ground (
    arith,
    includes_status-true config.retryable_statuses response.status,
    includes_status-false config.retryable_statuses response.status,
  )
  is_final-false attempt (throw error) h = ground arith

  is_final-true :
      (attempt : ℕ) (t : Throws Response)
      → is_final config attempt t ≡ true
      → (attempt ≡ config.max_retries) ⊎ (¬ AsksRetry t)
  unfolding is_final AsksRetry
  is_final-true attempt (ok response) h = ground (
    arith,
    includes_status-true config.retryable_statuses response.status,
    includes_status-false config.retryable_statuses response.status,
  )
  is_final-true attempt (throw error) h = ground arith

  -- The outcome of the loop: after attempts that all ask for a retry, the answer of the first that
  -- does not or of the last, with one delay for each attempt before it.
  abbrev pub Outcome : ℕ → Throws Response × List ℕ → Type 0
  Outcome attempt r =
      (k : ℕ) × (attempt + k ≤ config.max_retries)
      × AllAskRetry attempt k
      × (r.0 ≡ next (attempt + k))
      × ((attempt + k ≡ config.max_retries) ⊎ (¬ AsksRetry (next (attempt + k))))
      × (length r.1 ≡ k)
      × All (λ d. d ≤ config.max_delay_ms) r.1

  loop_final :
      (left attempt : ℕ) (last : Throws Response)
      → is_final config attempt (next attempt) ≡ true
      → retry_loop (suc left) attempt last ≡ (next attempt, [])
  unfolding retry_loop
  loop_final left attempt last e = rw e

  loop_again :
      (left attempt : ℕ) (last : Throws Response)
      → is_final config attempt (next attempt) ≡ false
      → retry_loop (suc left) attempt last ≡ (
        (retry_loop left (suc attempt) (next attempt)).0,
        compute_delay
              (jitter attempt)
              attempt
              config.base_delay_ms
              config.max_delay_ms
              (header_of (next attempt))
            ∷ (retry_loop left (suc attempt) (next attempt)).1,
      )
  unfolding retry_loop
  loop_again left attempt last e = rw e

  Ended : ℕ → Type 0
  Ended attempt = (attempt ≡ config.max_retries) ⊎ (¬ AsksRetry (next attempt))

  at_once :
      (left attempt : ℕ) (last : Throws Response)
      → attempt ≤ config.max_retries
      → is_final config attempt (next attempt) ≡ true
      → Outcome attempt (retry_loop (suc left) attempt last)
  unfolding AllAskRetry Ended
  at_once left attempt last h e = rw (loop_final left attempt last e) (
    0,
    omega arith,
    tt,
    ap next (omega arith),
    subst Ended {x = attempt} {y = attempt + 0} (omega arith)
        (is_final-true attempt (next attempt) e),
    refl,
    tt,
  )

  retry_loop_lem :
      (left attempt : ℕ) (last : Throws Response)
      → attempt + suc left ≡ suc config.max_retries
      → Outcome attempt (retry_loop (suc left) attempt last)
  unfolding AllAskRetry Ended
  retry_loop_lem zero attempt last e = elim (Bool-cases (is_final config attempt (next attempt))) [
    | inl f ↦ at_once zero attempt last (omega arith) f
    | inr f ↦ absurd ((is_final-false attempt (next attempt) f).0 (omega arith))
  ]
  retry_loop_lem (suc left) attempt last e =
      elim (Bool-cases (is_final config attempt (next attempt))) [
        | inl f ↦ at_once (suc left) attempt last (omega arith) f
        | inr f ↦
            let (k, within, asked, answer, final, slept, bounded) =
              retry_loop_lem left (suc attempt) (next attempt) (omega arith) in
            rw (loop_again (suc left) attempt last f) (
              suc k,
              omega arith,
              ((is_final-false attempt (next attempt) f).1, asked),
              answer ∙ ap next (omega arith),
              subst Ended {y = attempt + suc k} (omega arith) final,
              ap suc slept,
              (compute_delay-le (jitter attempt) attempt (header_of (next attempt)), bounded),
            )
      ]

-- The middleware always ends: it makes attempts as long as each asks for a retry (the method is one
-- to be retried, and the answer is an error or has a status to be retried), and returns the answer of
-- the first attempt that does not, or of the last that `maxRetries` allows. It has slept once for
-- each attempt before it, never longer than `maxDelayMs`.
pub retry-Outcome :
    (config : RetryConfig) (jitter : ℕ → ℕ) (next : ℕ → Throws Response)
    → Outcome config jitter next 0 (retry config jitter next)
unfolding retry
retry-Outcome config jitter next =
    retry_loop_lem config jitter next config.max_retries 0 (throw "no attempt") (omega arith)
