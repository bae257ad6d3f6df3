-- ===== src/Health/Invariant.antt =====
-- src/daemon/manager.rs. What holds of a health state after any sequence of calls.
use skipjack_mcp.Base.{
  ℕ, suc, ◌+◌, ◌-◌, ◌^◌, ◌≤◌, ◌<◌, ◌≡◌, ◌≢◌, ◌↔◌, refl, true, some, List, [], ◌∷◌, leb, length,
  arith, is_some, Option-cases, Bool-cases, leb→le, ◌⊎◌, inl, inr,
}
use native.Mathlib.Nat.{add-zero, add-suc, suc-add, zero-add}
use skipjack_mcp.Health.Defs.{
  HealthStatus, healthy, degraded, unhealthy, is_status_unhealthy, HealthState, new, prune_expired,
  record_success, record_failure, is_healthy, check_recovery,
}

-- A call of one of the methods that change the state, with the clock that it reads.
pub data Op : Type 0 where
  succeed fail recheck : ℕ → Op

abbrev pub apply : Op → HealthState → HealthState
apply (succeed now) h = record_success now h
apply (fail now) h = record_failure now h
apply (recheck now) h = check_recovery now h

abbrev pub apply_all : List Op → HealthState → HealthState
apply_all [] h = h
apply_all (op ∷ ops) h = apply_all ops (apply op h)

-- `calls` bounds the failures counted, so that the counter does not wrap.
pub record IsConsistent (threshold cooldown calls : ℕ) (h : HealthState) : Type 0 where
  pub threshold_kept : h.consecutive_failure_threshold ≡ threshold
  pub cooldown_kept : h.recovery_cooldown ≡ cooldown
  pub counted : h.consecutive_failures ≤ calls
  pub over : h.status ≡ unhealthy → threshold ≤ h.consecutive_failures
  pub under : h.consecutive_failures < threshold ⊎ (h.status ≡ unhealthy)
  pub since : is_some h.unhealthy_since ≡ is_status_unhealthy h.status
  pub failing : h.status ≢ healthy → 0 < h.consecutive_failures

module _ (threshold cooldown calls : ℕ) (h : HealthState) (pos : 0 < threshold) where
  succeed-IsConsistent :
      (now : ℕ)
      → IsConsistent threshold cooldown calls h
      → IsConsistent threshold cooldown (suc calls) (record_success now h)
  unfolding record_success prune_expired
  succeed-IsConsistent now i = ground arith

  fail-IsConsistent :
      (now : ℕ)
      → suc calls < 2 ^ 32
      → IsConsistent threshold cooldown calls h
      → IsConsistent threshold cooldown (suc calls) (record_failure now h)
  unfolding record_failure prune_expired
  fail-IsConsistent now room i = ground arith

  recheck-IsConsistent :
      (now : ℕ)
      → IsConsistent threshold cooldown calls h
      → IsConsistent threshold cooldown (suc calls) (check_recovery now h)
  unfolding check_recovery
  recheck-IsConsistent now i = ground arith

run-IsConsistent :
    (threshold cooldown : ℕ) (ops : List Op) (calls : ℕ) (h : HealthState)
    → 0 < threshold
    → calls + length ops < 2 ^ 32
    → IsConsistent threshold cooldown calls h
    → IsConsistent threshold cooldown (calls + length ops) (apply_all ops h)
run-IsConsistent threshold cooldown [] calls h pos room i = rw add-zero i
run-IsConsistent threshold cooldown (op ∷ ops) calls h pos room i =
    rw (add-suc, ← suc-add)
      (run-IsConsistent threshold cooldown ops (suc calls) (apply op h) pos (omega arith) (step op))
  where
    step : (o : Op) → IsConsistent threshold cooldown (suc calls) (apply o h)
    step (succeed now) = succeed-IsConsistent threshold cooldown calls h pos now i
    step (fail now) = fail-IsConsistent threshold cooldown calls h pos now (omega arith) i
    step (recheck now) = recheck-IsConsistent threshold cooldown calls h pos now i

-- From a new health state with a positive threshold, after fewer than 2 ^ 32 calls of its
-- methods at any times: the configuration is kept, the state is Unhealthy exactly when its
-- failures in a row have reached the threshold, the time of the transition is set exactly for an
-- Unhealthy state, and a state that is not Healthy has failed since its last success.
pub new-IsConsistent :
    (threshold cooldown : ℕ) (ops : List Op)
    → 0 < threshold
    → length ops < 2 ^ 32
    → IsConsistent threshold cooldown (length ops) (apply_all ops (new threshold cooldown))
unfolding new
new-IsConsistent threshold cooldown ops pos room = rw (← zero-add (length ops)) (
    run-IsConsistent threshold cooldown ops 0 (new threshold cooldown) pos (rw zero-add room)
      (record {
        threshold_kept = refl;
        cooldown_kept = refl;
        counted = omega arith;
        over = λ e. cc;
        under = inl pos;
        since = refl;
        failing = λ h. absurd (h refl);
      }))

status_cases : (s : HealthStatus) → (s ≡ healthy) ⊎ (s ≢ healthy)
status_cases healthy = inl refl
status_cases degraded = inr (λ e. cc)
status_cases unhealthy = inr (λ e. cc)

-- The recheck makes a state healthy exactly when it was Healthy, or Unhealthy since an instant
-- that lies at least the cooldown back; so never when it was Degraded.
pub check_recovery_iff :
    (now : ℕ) (h : HealthState)
    → (is_healthy (check_recovery now h) ≡ true) ↔ (
        (h.status ≡ healthy)
        ⊎ ((h.status ≡ unhealthy)
            × ((since : ℕ) × (h.unhealthy_since ≡ some since)
                × (h.recovery_cooldown ≤ now - since))))
unfolding check_recovery is_healthy
check_recovery_iff now h = elim (Option-cases h.unhealthy_since) [
  | inl never ↦ (λ e. ground arith, λ d. ground arith)
  | inr (since, at) ↦ (
    λ e. elim (Bool-cases (leb h.recovery_cooldown (now - since))) [
      | inl over ↦ elim (status_cases h.status) [
        | inl fine ↦ inl fine
        | inr bad ↦ inr (ground arith, (since, at, leb→le h.recovery_cooldown (now - since) over))
      ]
      | inr wait ↦ inl (ground arith)
    ],
    λ d. ground arith,
  )
]
