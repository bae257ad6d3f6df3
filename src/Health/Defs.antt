-- ===== src/Health/Defs.antt =====
-- src/daemon/manager.rs: `HealthState` and its methods. An `Instant` is a number of nanoseconds
-- since an epoch that lies at least the window in the past, or not: `checked_sub` is written out.
-- Each method reads the clock once.
use skipjack_mcp.Base.{
  ℕ, ◌+◌, ◌-◌, ◌*◌, ◌%◌, ◌^◌, Bool, true, false, ◌&&◌, Option, none, some, List, [], ◌∷◌, ◌++◌, ltb,
  leb, ◌==◌, if◌then◌else◌, length, filter_by,
}

pub data HealthEvent : Type 0 where
  success failure : HealthEvent

pub data HealthStatus : Type 0 where
  healthy degraded unhealthy : HealthStatus

pub record HealthState : Type 0 where
  pub events : List (ℕ × HealthEvent)
  pub consecutive_failures : ℕ  -- u32
  pub status : HealthStatus
  pub consecutive_failure_threshold : ℕ  -- u32
  pub window_duration : ℕ
  pub unhealthy_since : Option ℕ
  pub recovery_cooldown : ℕ

abbrev pub is_status_healthy : HealthStatus → Bool
is_status_healthy healthy = true
is_status_healthy degraded = false
is_status_healthy unhealthy = false

abbrev pub is_status_unhealthy : HealthStatus → Bool
is_status_unhealthy unhealthy = true
is_status_unhealthy healthy = false
is_status_unhealthy degraded = false

unfoldable pub new : ℕ → ℕ → HealthState
new consecutive_failure_threshold recovery_cooldown = record {
  events = [];
  consecutive_failures = 0;
  status = healthy;
  consecutive_failure_threshold = consecutive_failure_threshold;
  window_duration = 300000000000;
  unhealthy_since = none;
  recovery_cooldown = recovery_cooldown;
}

-- `now.checked_sub(window).unwrap_or(now)`
abbrev pub cutoff : ℕ → ℕ → ℕ
cutoff now window = if leb window now then now - window else now

-- The loop of `prune_expired`.
unfoldable pub drop_before : ℕ → List (ℕ × HealthEvent) → List (ℕ × HealthEvent)
drop_before limit [] = []
drop_before limit ((t, e) ∷ events) =
    let rest = drop_before limit events in if ltb t limit then rest else (t, e) ∷ events

unfoldable pub prune_expired : ℕ → HealthState → HealthState
prune_expired now h = record h { events = drop_before (cutoff now h.window_duration) h.events }

abbrev pub is_success : ℕ × HealthEvent → Bool
is_success (t, success) = true
is_success (t, failure) = false

abbrev pub in_window : ℕ → HealthState → List (ℕ × HealthEvent)
in_window now h = filter_by (λ e. leb (cutoff now h.window_duration) e.0) h.events

-- The score as a fraction, successes over events; 1 over 1 with no events in the window.
unfoldable pub health_score : ℕ → HealthState → ℕ × ℕ
health_score now h =
    let total = length (in_window now h) in
    if total == 0 then (1, 1) else (length (filter_by is_success (in_window now h)), total)

-- `health_score() < 0.5`
abbrev pub below_half : ℕ × ℕ → Bool
below_half (successes, total) = ltb (2 * successes) total

unfoldable pub record_success : ℕ → HealthState → HealthState
record_success now h =
    let p = prune_expired now h in
    record p {
      events = p.events ++ (now, success) ∷ [];
      consecutive_failures = 0;
      unhealthy_since = none;
      status = healthy;
    }

-- The counter overflows at 2 ^ 32 in a release build.
unfoldable pub record_failure : ℕ → HealthState → HealthState
record_failure now h =
    let p = prune_expired now h in
    let r = record p {
      events = p.events ++ (now, failure) ∷ [];
      consecutive_failures = (p.consecutive_failures + 1) % 2 ^ 32;
    } in
    if leb r.consecutive_failure_threshold r.consecutive_failures
    then record r { status = unhealthy; unhealthy_since = some now }
    else if leb 3 (length r.events) && below_half (health_score now r)
    then record r { status = degraded }
    else r

unfoldable pub is_healthy : HealthState → Bool
is_healthy h = is_status_healthy h.status

unfoldable pub recover : HealthState → HealthState
recover h = record h { status = healthy; consecutive_failures = 0; unhealthy_since = none }

unfoldable pub check_recovery : ℕ → HealthState → HealthState
unfolding recover
check_recovery now h =
    if is_status_unhealthy h.status
    then elim h.unhealthy_since [
      | none ↦ h
      | some since ↦ if leb h.recovery_cooldown (now - since) then recover h else h
    ]
    else h
