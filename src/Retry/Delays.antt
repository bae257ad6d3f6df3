-- ===== src/Retry/Delays.antt =====
-- src/anti_blocking/retry.rs. How long the loop sleeps.
use skipjack_mcp.Base.{
  ℕ, zero, suc, ◌+◌, ◌^◌, ◌≡◌, refl, true, false, Option, none, some, List, leb, ◌==◌, All, inl,
  inr, Bool-cases,
}
use skipjack_mcp.Base.Float.{F64}
use skipjack_mcp.Search.{Result, ok, err}
use skipjack_mcp.Retry.Defs.{
  RetryConfig, ClassifyRetry, Ending, shift, delay_secs, is_duration, after_call, retry_loop,
  retry_with_backoff,
}

module _ (f64 : F64) where
  open f64 use {Carrier, of_ℕ, mul, min_of, max_of, lt, is_nan}

  -- `thread_rng().gen::<f64>()` lies in [0, 1).
  abbrev pub InUnit : Carrier → Type 0
  InUnit r = (lt r (of_ℕ 0) ≡ false) × (lt r (of_ℕ 1) ≡ true)

  module _ (config : RetryConfig) (attempt : ℕ) (r : Carrier) (u : InUnit r) where
    abbrev computed : Carrier
    computed =
        min_of (mul (of_ℕ config.base_delay_secs) (of_ℕ (shift attempt))) (of_ℕ config.cap_secs)

    jittered-le-cap : lt (of_ℕ config.cap_secs) (mul r computed) ≡ false
    jittered-le-cap =
        f64.lt_cotrans (of_ℕ config.cap_secs) computed (mul r computed)
          (f64.min_number _ _ (f64.of_ℕ_number config.cap_secs)) (f64.min_le_right _ _)
          (f64.scale_le r computed u.0 u.1
            (f64.min_nonneg _ _ (f64.mul_nonneg _ _) (f64.of_ℕ_nonneg _)))

    jittered_lt :
        lt (of_ℕ config.cap_secs) (of_ℕ (2 ^ 64)) ≡ true
        → (lt (mul r computed) (of_ℕ 0) ≡ false) × (lt (mul r computed) (of_ℕ (2 ^ 64)) ≡ true)
    jittered_lt capped =
        f64.scale_lt r computed (of_ℕ (2 ^ 64)) u.0 u.1
          (f64.min_nonneg _ _ (f64.mul_nonneg _ _) (f64.of_ℕ_nonneg _))
          (f64.min_lt _ (of_ℕ config.cap_secs) (of_ℕ (2 ^ 64)) capped)

    -- A delay is at least its hint, if it has one.
    abbrev pub IsHonoured : Option ℕ → Carrier → Type 0
    IsHonoured none delay = Unit
    IsHonoured (some h) delay = lt delay (of_ℕ h) ≡ false

    -- Where the cap and the hint are less than 2^64 seconds, the delay is a `Duration`.
    pub delay_secs-is_duration :
        (hint : Option ℕ)
        → lt (of_ℕ config.cap_secs) (of_ℕ (2 ^ 64)) ≡ true
        → ((h : ℕ) → hint ≡ some h → lt (of_ℕ h) (of_ℕ (2 ^ 64)) ≡ true)
        → is_duration f64 (delay_secs f64 config attempt r hint) ≡ true
    unfolding delay_secs is_duration
    delay_secs-is_duration none capped hints =
        let scaled = jittered_lt capped in rw (scaled.0, scaled.1) refl
    delay_secs-is_duration (some k) capped hints =
        let scaled = jittered_lt capped in
        let above =
          f64.lt_cotrans _ (of_ℕ k) (of_ℕ 0) (f64.of_ℕ_number k)
            (f64.max_ge_right (mul r computed) (of_ℕ k)) (f64.of_ℕ_nonneg k) in
        let below = f64.max_lt (mul r computed) (of_ℕ k) _ scaled.1 (hints k refl) in
        rw (above, below) refl

    -- For a random number in [0, 1), a delay without a hint is at most the cap; one with a
    -- hint is at least the hint, and at most any bound on the cap and the hint.
    pub delay_bounds :
        (hint : Option ℕ) (bound : Carrier)
        → lt bound (of_ℕ config.cap_secs) ≡ false
        → ((h : ℕ) → hint ≡ some h → lt bound (of_ℕ h) ≡ false)
        → (lt bound (delay_secs f64 config attempt r hint) ≡ false)
          × IsHonoured hint (delay_secs f64 config attempt r hint)
    unfolding delay_secs
    delay_bounds none bound capped hints = (
      f64.lt_cotrans bound (of_ℕ config.cap_secs) _ (f64.of_ℕ_number _) capped jittered-le-cap,
      tt,
    )
    delay_bounds (some k) bound capped hints = (
      f64.max_le _ _ bound
          (f64.lt_cotrans bound (of_ℕ config.cap_secs) _ (f64.of_ℕ_number _) capped jittered-le-cap)
          (hints k refl),
      f64.max_ge_right _ (of_ℕ k),
    )

  module _ {S T E : Type 0} (classify : ClassifyRetry E) (f : S → Result E T × S)
      (config : RetryConfig) (random : ℕ → Carrier) (units : (n : ℕ) → InUnit (random n))
      (bound : Carrier) (capped : lt bound (of_ℕ config.cap_secs) ≡ false)
      (hints : (e : E) (h : ℕ)
        → classify.retry_after_hint e ≡ some h
        → lt bound (of_ℕ h) ≡ false) where
    abbrev AreBounded : Ending T E × S × List Carrier → Type 0
    AreBounded run = All (λ d. lt bound d ≡ false) run.2

    after-AreBounded :
        (attempt : ℕ) (r : Result E T) (s : S) (again : E → Ending T E × S × List Carrier)
        → ((e : E) → AreBounded (again e))
        → AreBounded (after_call f64 classify f config random attempt r s again)
    unfolding after_call
    after-AreBounded attempt (ok value) s again rest = tt
    after-AreBounded attempt (err e) s again rest = elim (Bool-cases (classify.is_retryable e)) [
      | inl retry ↦ elim (Bool-cases (leb config.max_attempts (attempt + 1))) [
        | inl out ↦ rw (retry, out) tt
        | inr more ↦
            let delay =
              delay_secs f64 config attempt (random attempt) (classify.retry_after_hint e) in
            elim (Bool-cases (is_duration f64 delay)) [
              | inl fits ↦
                  rw (retry, more, fits)
                    (
                      (delay_bounds config attempt (random attempt) (units attempt)
                          (classify.retry_after_hint e) bound capped (hints e)).0,
                      rest e,
                    )
              | inr panics ↦ rw (retry, more, panics) tt
            ]
      ]
      | inr fatal ↦ rw fatal tt
    ]

    loop-AreBounded :
        (left attempt : ℕ) (last_error : Option E) (s : S)
        → AreBounded (retry_loop f64 classify f config random left attempt last_error s)
    unfolding retry_loop
    loop-AreBounded zero attempt none s = tt
    loop-AreBounded zero attempt (some e) s = tt
    loop-AreBounded (suc left) attempt last_error s =
        after-AreBounded attempt (f s).0 (f s).1 _
          (λ e. loop-AreBounded left (attempt + 1) (some e) (f s).1)

    -- For random numbers in [0, 1), no delay of the whole retry loop exceeds a bound on the
    -- cap and on every `Retry-After` hint.
    pub delays_bounded :
        (s : S)
        → All (λ d. lt bound d ≡ false) (retry_with_backoff f64 classify f config random s).2
    unfolding retry_with_backoff
    delays_bounded s = elim (Bool-cases (config.max_attempts == 0)) [
      | inl refused ↦ rw refused tt
      | inr some_left ↦ rw some_left (loop-AreBounded config.max_attempts 0 none s)
    ]
