-- ===== src/Transport/Tests.antt =====
-- A request that succeeds at the second attempt, and a full queue.
use nero_mpc_sdk.Base.{ℕ, zero, suc, arith, replicate, true, false, [], ◌∷◌, none, some}
use nero_mpc_sdk.Base.Throws.{Throws, ok}
use nero_mpc_sdk.Transport.Retry.{RetryConfig, Response, Outcome, retry, retry-Outcome}
use nero_mpc_sdk.Transport.Queue.{
  SocketClient, IsBounded, send, flush_message_queue, queue_stays-IsBounded,
}

abbrev defaults : RetryConfig
defaults = record {
  max_retries = 3;
  retryable_statuses = 429 ∷ 500 ∷ 502 ∷ 503 ∷ 504 ∷ [];
  base_delay_ms = 500;
  max_delay_ms = 10000;
  is_retryable = true;
}

abbrev answers : ℕ → Throws Response
answers zero = ok (record { status = 503; retry_after_ms = some 2000 })
answers (suc attempt) = ok (record { status = 200; retry_after_ms = none })

retry-Outcome_example : Outcome defaults (λ a. 7) answers 0 (retry defaults (λ a. 7) answers)
retry-Outcome_example = retry-Outcome defaults (λ a. 7) answers

abbrev full : SocketClient
full = record {
  is_open = false;
  message_queue = replicate 100 (record { message = 1; timestamp = 0 });
  reconnect_attempt = 0;
  waiting = false;
}

queue_stays-IsBounded_example :
    IsBounded (send 70000 2 full).0 × IsBounded (flush_message_queue 70000 full).0
queue_stays-IsBounded_example = queue_stays-IsBounded 70000 2 full (omega arith)
