-- ===== src/Retry/Success.antt =====
-- src/anti_blocking/retry.rs. What a retried operation leaves behind when it succeeds.
use skipjack_mcp.Base.{
  ℕ, zero, suc, ◌+◌, ◌≡◌, refl, ap, ◌∙◌, Option, none, some, List, leb, ◌==◌, Bool-cases, inl, inr,
}
use skipjack_mcp.Base.Float.{F64}
use skipjack_mcp.Search.{Result, ok, err}
use skipjack_mcp.Retry.Defs.{
  RetryConfig, ClassifyRetry, Ending, done, delay_secs, is_duration, after_call, retry_loop,
  retry_with_backoff,
}

module _ (f64 : F64) {S T E : Type 0} (classify : ClassifyRetry E) (f : S → Result E T × S)
    (config : RetryConfig) (random : ℕ → f64.Carrier) (P : T → S → Type 0)
    (step : (s : S) (v : T) → (f s).0 ≡ ok v → P v (f s).1) where
  after-success :
      (attempt : ℕ) (s : S) (v : T) (again : E → Ending T E × S × List (f64.Carrier))
      → ((e : E) → (again e).0 ≡ done (ok v) → P v (again e).1)
      → (r : Result E T) → (f s).0 ≡ r
      → (after_call f64 classify f config random attempt r (f s).1 again).0 ≡ done (ok v)
      → P v (after_call f64 classify f config random attempt r (f s).1 again).1
  unfolding after_call
  after-success attempt s v again h (ok value) e k =
      let same : value ≡ v = cc in step s v (e ∙ ap ok same)
  after-success attempt s v again h (err e) r k = elim (Bool-cases (classify.is_retryable e)) [
    | inl retryable ↦ elim (Bool-cases (leb config.max_attempts (attempt + 1))) [
      | inl last ↦ let wrong = rw (retryable, last) at k in cc
      | inr more ↦
          elim (Bool-cases (
            is_duration f64
              (delay_secs f64 config attempt (random attempt) (classify.retry_after_hint e)))) [
                | inl fits ↦ rw (retryable, more, fits) (h e (rw (retryable, more, fits) at k))
                | inr panics ↦ let wrong = rw (retryable, more, panics) at k in cc
              ]
    ]
    | inr final ↦ let wrong = rw final at k in cc
  ]

  loop-success :
      (left attempt : ℕ) (last : Option E) (s : S) (v : T)
      → (retry_loop f64 classify f config random left attempt last s).0 ≡ done (ok v)
      → P v (retry_loop f64 classify f config random left attempt last s).1
  unfolding retry_loop
  loop-success zero attempt none s v h = cc
  loop-success zero attempt (some e) s v h = cc
  loop-success (suc left) attempt last s v h =
      after-success attempt s v
        (λ e. retry_loop f64 classify f config random left (attempt + 1) (some e) (f s).1)
        (λ e. loop-success left (attempt + 1) (some e) (f s).1 v) (f s).0 refl h

  -- What every successful call establishes of its value and the state that it leaves holds of the
  -- value that the retry returns and of the state after it.
  pub retry-success :
      (s : S) (v : T)
      → (retry_with_backoff f64 classify f config random s).0 ≡ done (ok v)
      → P v (retry_with_backoff f64 classify f config random s).1
  unfolding retry_with_backoff
  retry-success s v h = elim (Bool-cases (config.max_attempts == 0)) [
    | inl nothing ↦ let wrong = rw nothing at h in cc
    | inr some_calls ↦
        rw some_calls (loop-success config.max_attempts 0 none s v (rw some_calls at h))
  ]
