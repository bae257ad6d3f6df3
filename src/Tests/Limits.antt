-- ===== src/Tests/Limits.antt =====
-- The rate limiter, the retry loop and the health states at concrete inputs.
use skipjack_mcp.Base.{
  ℕ, suc, ◌+◌, ◌≤◌, ◌<◌, ◌^◌, ◌≡◌, ◌⊎◌, refl, none, some, List, [], ◌∷◌, ltb, arith, if◌then◌else◌,
}
use skipjack_mcp.Base.Text.{Text, bytes}
use skipjack_mcp.Base.Float.{whole}
use skipjack_mcp.Search.{ProviderError, rate_limited, Result, ok, err}
use skipjack_mcp.RateLimiter.Defs.{window, Call, round, acquire, run, granted, sleeping}
use skipjack_mcp.RateLimiter.Counting.{within, times}
use skipjack_mcp.RateLimiter.Bound.{grants_bounded}
use skipjack_mcp.RateLimiter.Waiting.{acquire_alone}
use skipjack_mcp.Retry.Defs.{
  RetryConfig, ClassifyRetry, provider_is_retryable, provider_classify, retry_with_backoff,
  panicked, retry_loop, after_call, delay_secs, is_duration, provider_retry_after_hint,
}
use skipjack_mcp.Health.Defs.{HealthState, success, failure, new, degraded}
use skipjack_mcp.Health.Invariant.{fail, recheck, apply_all, IsConsistent, new-IsConsistent}
use skipjack_mcp.Health.Window.{IsChronicle}

abbrev brave : Text
brave = bytes "brave"

abbrev calls : List Call
calls =
    record { name = brave; rpm = 2; now = 5 }
    ∷ record { name = brave; rpm = 2; now = 7 }
    ∷ record { name = brave; rpm = 2; now = 9 }
    ∷ []

grants_bounded_example : within 5 (times brave (run calls [] []).1) ≤ 2
grants_bounded_example =
    grants_bounded brave 2 calls 5 (ground arith) (ground arith)
      (ground arith, (ground arith, (ground arith, tt)))
      ((λ e. refl), ((λ e. refl), ((λ e. refl), tt)))

acquire_alone_example :
    ((round brave 2 11 (run calls [] []).0).1 ≡ granted)
    ⊎ (d : ℕ) × ((round brave 2 11 (run calls [] []).0).1 ≡ sleeping d)
      × (0 < d)
      × (d ≤ window)
      × ((acquire brave 2 (11 ∷ (11 + d + 6) ∷ []) (run calls [] []).0).1 ≡ some (11 + d + 6))
acquire_alone_example =
    acquire_alone brave 2 calls 11 6 [] (ground arith) (ground arith)
      (ground arith, (ground arith, (ground arith, tt)))
      ((λ e. refl), ((λ e. refl), ((λ e. refl), tt))) (ground arith)

abbrev config : RetryConfig
config = record { base_delay_secs = 1; max_attempts = 3; cap_secs = 60 }

-- Fails twice with a hint, and then succeeds.
abbrev flaky : ℕ → Result ProviderError ℕ × ℕ
flaky calls_made =
    (if ltb calls_made 2 then err (rate_limited (some 7)) else ok calls_made, suc calls_made)

abbrev never_random : ℕ → ℕ
never_random attempt = 0

abbrev patient : ClassifyRetry ProviderError
patient = record { is_retryable = provider_is_retryable; retry_after_hint = λ e. some 7 }

-- A `Retry-After` header of 2^64 seconds, which no `Duration` holds.
abbrev unbounded : ℕ → Result ProviderError ℕ × ℕ
unbounded calls_made = (err (rate_limited (some (2 ^ 64))), suc calls_made)

retry-panicked :
    (retry_with_backoff whole provider_classify unbounded config never_random 0).0 ≡ panicked
unfolding retry_with_backoff retry_loop after_call delay_secs is_duration provider_is_retryable
    provider_retry_after_hint
retry-panicked = refl

new-IsConsistent_example :
    IsConsistent 3 60 4 (apply_all (fail 1 ∷ fail 2 ∷ fail 3 ∷ recheck 70 ∷ []) (new 3 60))
new-IsConsistent_example =
    new-IsConsistent 3 60 (fail 1 ∷ fail 2 ∷ fail 3 ∷ recheck 70 ∷ []) (ground arith) (ground arith)

abbrev worn : HealthState
worn = record {
  events = (3, success) ∷ (5, failure) ∷ [];
  consecutive_failures = 1;
  status = degraded;
  consecutive_failure_threshold = 3;
  window_duration = 300000000000;
  unhealthy_since = none;
  recovery_cooldown = 60;
}

worn-IsChronicle : IsChronicle 5 worn
worn-IsChronicle = ((ground arith, (ground arith, tt)), ground arith)
