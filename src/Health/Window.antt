-- ===== src/Health/Window.antt =====
-- src/daemon/manager.rs. The event window of a health state.
use skipjack_mcp.Base.{
  ℕ, ◌≤◌, ◌≡◌, refl, ap, true, List, [], ◌∷◌, ◌++◌, ltb, leb, filter_by, filter_by-append, arith,
  tests, le→leb, Bool-cases, inl, inr,
}
use skipjack_mcp.Health.Defs.{
  HealthEvent, success, failure, HealthState, cutoff, drop_before, prune_expired, in_window,
  record_success, record_failure,
}

-- Timestamps from `low` on that never fall.
abbrev pub IsOrdered : ℕ → List (ℕ × HealthEvent) → Type 0
IsOrdered low [] = Unit
IsOrdered low ((t, e) ∷ events) = (low ≤ t) × IsOrdered t events

abbrev pub latest : ℕ → List (ℕ × HealthEvent) → ℕ
latest low [] = low
latest low ((t, e) ∷ events) = latest t events

keep_all :
    (limit low : ℕ) (events : List (ℕ × HealthEvent))
    → limit ≤ low
    → IsOrdered low events
    → filter_by (λ e. leb limit e.0) events ≡ events
keep_all limit low [] h o = refl
keep_all limit low ((t, e) ∷ events) h o =
    rw (le→leb limit t (omega (arith, o.0)))
      (ap (◌∷◌ (t, e)) (keep_all limit t events (omega (arith, o.0)) o.1))

-- In order, dropping from the front is the same as filtering.
drop_before-eq-filter :
    (limit low : ℕ) (events : List (ℕ × HealthEvent))
    → IsOrdered low events
    → drop_before limit events ≡ filter_by (λ e. leb limit e.0) events
unfolding drop_before
drop_before-eq-filter limit low [] o = refl
drop_before-eq-filter limit low ((t, e) ∷ events) o = elim (Bool-cases (ltb t limit)) [
  | inl old ↦ ground (arith, drop_before-eq-filter limit t events o.1)
  | inr new ↦ ground (arith, keep_all limit t events (omega tests) o.1)
]

append-IsOrdered :
    (low t : ℕ) (e : HealthEvent) (events : List (ℕ × HealthEvent))
    → IsOrdered low events
    → latest low events ≤ t
    → IsOrdered low (events ++ (t, e) ∷ []) × (latest low (events ++ (t, e) ∷ []) ≡ t)
append-IsOrdered low t e [] o le = ((le, tt), refl)
append-IsOrdered low t e ((u, f) ∷ events) o le =
    let (rest, last) = append-IsOrdered u t e events o.1 le in ((o.0, rest), last)

-- What is left keeps its order, and is no older than the cutoff.
drop_before-IsOrdered :
    (limit low now : ℕ) (events : List (ℕ × HealthEvent))
    → IsOrdered low events
    → latest low events ≤ now
    → IsOrdered 0 (drop_before limit events)
      × (latest 0 (drop_before limit events) ≤ now)
      × IsOrdered limit (drop_before limit events)
unfolding drop_before
drop_before-IsOrdered limit low now [] o le = (tt, omega arith, tt)
drop_before-IsOrdered limit low now ((t, e) ∷ events) o le = elim (Bool-cases (ltb t limit)) [
  | inl old ↦ rw old (drop_before-IsOrdered limit t now events o.1 le)
  | inr new ↦ rw new ((omega arith, o.1), le, (omega tests, o.1))
]

-- The events are in order and none is later than `now`.
abbrev pub IsChronicle : ℕ → HealthState → Type 0
IsChronicle now h = IsOrdered 0 h.events × (latest 0 h.events ≤ now)

module _ (before now : ℕ) (h : HealthState) (le : before ≤ now) (o : IsChronicle before h) where
  abbrev kept : List (ℕ × HealthEvent)
  kept = drop_before (cutoff now h.window_duration) h.events

  kept-IsOrdered :
      IsOrdered 0 kept × (latest 0 kept ≤ now) × IsOrdered (cutoff now h.window_duration) kept
  kept-IsOrdered =
      drop_before-IsOrdered (cutoff now h.window_duration) 0 now h.events o.0 (omega (arith, o.1))

  cutoff-le : leb (cutoff now h.window_duration) now ≡ true
  cutoff-le = ground arith

  window_push :
      (e : HealthEvent)
      → filter_by (λ x. leb (cutoff now h.window_duration) x.0) (kept ++ (now, e) ∷ [])
        ≡ kept ++ (now, e) ∷ []
  window_push e = rw (
    filter_by-append,
    keep_all (cutoff now h.window_duration) (cutoff now h.window_duration) kept (omega arith)
        kept-IsOrdered.2,
    cutoff-le,
  )

  pushed :
      (e : HealthEvent)
      → IsOrdered 0 (kept ++ (now, e) ∷ []) × (latest 0 (kept ++ (now, e) ∷ []) ≤ now)
  pushed e =
      let (order, last) = append-IsOrdered 0 now e kept kept-IsOrdered.0 kept-IsOrdered.1 in
      (order, omega (arith, last))

  -- Under a clock that does not run back, a success is added to exactly the events of the
  -- window, the score of the new state counts all of its events, and these stay in order.
  pub record_success_window :
      ((record_success now h).events ≡ in_window now h ++ (now, success) ∷ [])
      × (in_window now (record_success now h) ≡ (record_success now h).events)
      × IsChronicle now (record_success now h)
  unfolding record_success prune_expired
  record_success_window = (
    ap (λ l. l ++ (now, success) ∷ [])
        (drop_before-eq-filter (cutoff now h.window_duration) 0 h.events o.0),
    window_push success,
    pushed success,
  )

  failure_events :
      ((record_failure now h).events ≡ kept ++ (now, failure) ∷ [])
      × ((record_failure now h).window_duration ≡ h.window_duration)
  unfolding record_failure prune_expired
  failure_events = (ground arith, ground arith)

  -- Under a clock that does not run back, a failure is added to exactly the events of the
  -- window, the score of the new state counts all of its events, and these stay in order.
  pub record_failure_window :
      ((record_failure now h).events ≡ in_window now h ++ (now, failure) ∷ [])
      × (in_window now (record_failure now h) ≡ (record_failure now h).events)
      × IsChronicle now (record_failure now h)
  record_failure_window =
      rw (failure_events.0, failure_events.1)
        (
          ap (λ l. l ++ (now, failure) ∷ [])
              (drop_before-eq-filter (cutoff now h.window_duration) 0 h.events o.0),
          window_push failure,
          pushed failure,
        )
