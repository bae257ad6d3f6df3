-- ===== src/Retry/Defs.antt =====
-- src/anti_blocking/retry.rs: `RetryConfig`, `ClassifyRetry` and `retry_with_backoff`. The operation
-- is a function of a state, as an `FnMut` is; the random numbers are a function of the attempt.
use skipjack_mcp.Base.{
  ℕ, zero, suc, ◌+◌, ◌-◌, ◌^◌, Bool, true, false, not, ◌&&◌, Option, none, some, List, [], ◌∷◌, ltb,
  leb, ◌==◌, if◌then◌else◌,
}
use skipjack_mcp.Base.Float.{F64}
use skipjack_mcp.Search.{
  ProviderError, http_error, rate_limited, access_denied, captcha_detected, timeout, internal,
  Result, ok, err,
}

pub record RetryConfig : Type 0 where
  pub base_delay_secs : ℕ
  pub max_attempts : ℕ
  pub cap_secs : ℕ

-- The trait, as what it says of each error.
pub record ClassifyRetry (E : Type 0) : Type 0 where
  pub is_retryable : E → Bool
  pub retry_after_hint : E → Option ℕ

unfoldable pub provider_is_retryable : ProviderError → Bool
provider_is_retryable access_denied = false
provider_is_retryable (captcha_detected p) = false
provider_is_retryable (http_error status body) = if status == 404 then false else leb 500 status
provider_is_retryable (rate_limited h) = true
provider_is_retryable (timeout t) = true
provider_is_retryable (internal m) = true
provider_is_retryable _ = false

unfoldable pub provider_retry_after_hint : ProviderError → Option ℕ
provider_retry_after_hint (rate_limited retry_after) = retry_after
provider_retry_after_hint access_denied = none
provider_retry_after_hint _ = none

abbrev pub provider_classify : ClassifyRetry ProviderError
provider_classify = record {
  is_retryable = provider_is_retryable;
  retry_after_hint = provider_retry_after_hint;
}

-- `1u64.checked_shl(attempt).unwrap_or(u64::MAX)`
unfoldable pub shift : ℕ → ℕ
shift attempt = if ltb attempt 64 then 2 ^ attempt else 2 ^ 64 - 1

-- What the loop ends in. `panicked` is the assertion on `max_attempts`, the conversion of a delay, or
-- the last `expect`.
pub data Ending (T E : Type 0) : Type 0 where
  done : Result E T → Ending T E
  panicked : Ending T E

module _ (f64 : F64) where
  open f64 use {Carrier, of_ℕ, mul, min_of, max_of, lt}

  -- The delay after a failed attempt, in seconds, for a random number `r`.
  unfoldable pub delay_secs : RetryConfig → ℕ → Carrier → Option ℕ → Carrier
  unfolding shift
  delay_secs config attempt r hint =
      let computed =
        min_of (mul (of_ℕ config.base_delay_secs) (of_ℕ (shift attempt))) (of_ℕ config.cap_secs) in
      let jittered = mul r computed in
      elim hint [ some retry_after ↦ max_of jittered (of_ℕ retry_after) | none ↦ jittered ]

  -- `Duration::from_secs_f64` converts the number of seconds; it panics on any other.
  unfoldable pub is_duration : Carrier → Bool
  is_duration secs = not (lt secs (of_ℕ 0)) && lt secs (of_ℕ (2 ^ 64))

  module _ {S T E : Type 0} (classify : ClassifyRetry E) (f : S → Result E T × S)
      (config : RetryConfig) (random : ℕ → Carrier) where
    -- The body of the `for` loop after the call of `f`; `again` is the rest of the loop.
    unfoldable pub after_call :
        ℕ → Result E T → S → (E → Ending T E × S × List Carrier) → Ending T E × S × List Carrier
    unfolding delay_secs is_duration
    after_call attempt (ok value) s again = (done (ok value), s, [])
    after_call attempt (err e) s again =
        if classify.is_retryable e
        then (if leb config.max_attempts (attempt + 1)
            then (done (err e), s, [])
            else (let delay =
                  delay_secs config attempt (random attempt) (classify.retry_after_hint e) in
                let (ending, s', delays) = again e in
                if is_duration delay then (ending, s', delay ∷ delays) else (panicked, s, [])))
        else (done (err e), s, [])

    -- `for attempt in 0..max_attempts`, with the number of rounds left.
    unfoldable pub retry_loop : ℕ → ℕ → Option E → S → Ending T E × S × List Carrier
    retry_loop zero attempt none s = (panicked, s, [])
    retry_loop zero attempt (some last_error) s = (done (err last_error), s, [])
    retry_loop (suc left) attempt last_error s =
        after_call attempt (f s).0 (f s).1 (λ e. retry_loop left (attempt + 1) (some e) (f s).1)

    -- The result, the state after the calls, and the delays slept.
    unfoldable pub retry_with_backoff : S → Ending T E × S × List Carrier
    retry_with_backoff s =
        if config.max_attempts == 0
        then (panicked, s, [])
        else retry_loop config.max_attempts 0 none s
