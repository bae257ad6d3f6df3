-- ===== src/RateLimiter/Bound.antt =====
-- src/anti_blocking/rate_limiter.rs. The grants within 60 seconds.
use skipjack_mcp.Base.{
  ℕ, ◌%◌, ◌^◌, ◌≤◌, ◌<◌, ◌≡◌, sym, true, false, List, [], ◌∷◌, ◌++◌, ltb, ◌==◌, if◌then◌else◌,
  length, arith, All-append, length-append, inl, inr, Bool-cases, tests,
}
use skipjack_mcp.Base.Text.{Text, text_eq, text_eq_iff, text_eq_refl}
use mathlib.Core.Path.{subst₂}
use skipjack_mcp.Base.Dict.{lookup, lookup-insert}
use skipjack_mcp.RateLimiter.Defs.{
  Windows, Outcome, granted, sleeping, panicked, prune, critical, entry, round, Call, note, run,
}
use skipjack_mcp.RateLimiter.Counting.{
  recent, within, times, IsMonotone, recent-append, recent-le-length, recent-prune, length-prune-le,
  within-le-recent, Tracks, push, past_later, past-prune, push-sleep_for,
}

module _ (rpm now t : ℕ) (q g : List ℕ) (pos : 0 < rpm) (u32 : rpm < 2 ^ 32) (le : now ≤ t) where
  Tracks-sleep : Tracks rpm now q g → Tracks rpm t (prune t q) g
  Tracks-sleep h = record {
    bounded = omega (arith, h.bounded, length-prune-le t q);
    past = past-prune now t t q le h.past;
    tracked = λ later p. omega (arith, h.tracked later (omega arith), recent-prune t later q p);
    limited = h.limited;
  }

  Tracks-grant :
      length (prune t q) < rpm → Tracks rpm now q g → Tracks rpm t (prune t q ++ t ∷ []) (t ∷ g)
  unfolding recent
  Tracks-grant room h = record {
    bounded = omega (arith, length-append (prune t q) (t ∷ []));
    past =
        All-append (λ x. x ≤ t) (prune t q) (t ∷ []) (past-prune now t t q le h.past)
          (omega arith, tt);
    tracked = λ later p. omega (
      arith,
      h.tracked later (omega arith),
      recent-prune t later q p,
      recent-append later (prune t q) (t ∷ []),
    );
    limited = λ start. ground (
      arith,
      h.limited start,
      h.tracked t le,
      recent-prune t t q,
      recent-le-length t (prune t q),
      within-le-recent start t g,
    );
  }

  -- Both ways to leave the critical section keep the promise.
  Tracks-critical :
      Tracks rpm now q g → Tracks rpm t (critical rpm t q).0 (push (critical rpm t q).1 t g)
  unfolding critical
  Tracks-critical h = elim (Bool-cases (ltb (length (prune t q) % 2 ^ 32) rpm)) [
    | inl room ↦ rw room (Tracks-grant (omega (tests, room, length-prune-le t q, h.bounded)) h)
    | inr full ↦ rw (full, push-sleep_for) (Tracks-sleep h)
  ]

-- A round touches the queue of its own resource alone.
entry_other :
    (c : Call) (name : Text) (windows : Windows)
    → text_eq c.name name ≡ false
    → entry name (round c.name c.rpm c.now windows).0 ≡ entry name windows
unfolding round
entry_other c name windows other =
    ground
      (arith, lookup-insert c.name name (critical c.rpm c.now (entry c.name windows)).0 windows)

pub round_self :
    (name : Text) (rpm now : ℕ) (windows : Windows)
    → 0 < rpm
    → (entry name (round name rpm now windows).0 ≡ (critical rpm now (entry name windows)).0)
      × ((round name rpm now windows).1 ≡ (critical rpm now (entry name windows)).1)
unfolding round
round_self name rpm now windows pos =
    let zero : (rpm == 0) ≡ false = ground arith in
    (
      ground (
        arith,
        text_eq_refl name,
        lookup-insert name name (critical rpm now (entry name windows)).0 windows,
      ),
      ground arith,
    )

times-note :
    (c : Call) (name : Text) (o : Outcome) (grants : List (Text × ℕ))
    → times name (note c o grants)
      ≡ (if text_eq c.name name then push o c.now (times name grants) else times name grants)
times-note c name granted grants = ground arith
times-note c name (sleeping d) grants = ground arith
times-note c name panicked grants = ground arith

-- The calls for `name` all pass `rpm`.
abbrev pub Uses : Text → ℕ → List Call → Type 0
Uses name rpm [] = Unit
Uses name rpm (c ∷ calls) = (text_eq c.name name ≡ true → c.rpm ≡ rpm) × Uses name rpm calls

-- The instant of the last round.
abbrev pub last_now : ℕ → List Call → ℕ
last_now now [] = now
last_now now (c ∷ calls) = last_now c.now calls

abbrev pub Holds : Text → ℕ → ℕ → Windows → List (Text × ℕ) → Type 0
Holds name rpm now windows grants = Tracks rpm now (entry name windows) (times name grants)

Tracks-later : (rpm now t : ℕ) (q g : List ℕ) → now ≤ t → Tracks rpm now q g → Tracks rpm t q g
Tracks-later rpm now t q g le h = record {
  bounded = h.bounded;
  past = past_later now t q le h.past;
  tracked = λ later p. h.tracked later (omega arith);
  limited = h.limited;
}

module _ (name : Text) (rpm : ℕ) (pos : 0 < rpm) (u32 : rpm < 2 ^ 32) where
  Holds-self :
      (now t : ℕ) (windows : Windows) (grants : List (Text × ℕ))
      → now ≤ t
      → Holds name rpm now windows grants
      → Tracks rpm t
          (entry name (round name rpm t windows).0)
          (push (round name rpm t windows).1 t (times name grants))
  Holds-self now t windows grants le h =
      let (queue, outcome) = round_self name rpm t windows pos in
      rw (queue, outcome)
        (Tracks-critical rpm now t (entry name windows) (times name grants) pos u32 le h)

  Holds-round :
      (c : Call) (now : ℕ) (windows : Windows) (grants : List (Text × ℕ))
      → now ≤ c.now
      → (text_eq c.name name ≡ true → c.rpm ≡ rpm)
      → Holds name rpm now windows grants
      → Holds name rpm c.now
          (round c.name c.rpm c.now windows).0
          (note c (round c.name c.rpm c.now windows).1 grants)
  Holds-round c now windows grants le uses h = elim (Bool-cases (text_eq c.name name)) [
    | inl self ↦
        rw (times-note, self)
          (subst₂
            (λ m r.
              Tracks rpm c.now (entry name (round m r c.now windows).0)
                (push (round m r c.now windows).1 c.now (times name grants)))
            (sym ((text_eq_iff c.name name).0 self)) (sym (uses self))
            (Holds-self now c.now windows grants le h))
    | inr other ↦
        rw (times-note, other, entry_other c name windows other)
          (Tracks-later rpm now c.now (entry name windows) (times name grants) le h)
  ]

  Holds-run :
      (calls : List Call) (now : ℕ) (windows : Windows) (grants : List (Text × ℕ))
      → IsMonotone now calls
      → Uses name rpm calls
      → Holds name rpm now windows grants
      → Holds name rpm
          (last_now now calls)
          (run calls windows grants).0
          (run calls windows grants).1
  unfolding run
  Holds-run [] now windows grants mono uses h = h
  Holds-run (c ∷ calls) now windows grants mono uses h =
      Holds-run calls c.now (round c.name c.rpm c.now windows).0
        (note c (round c.name c.rpm c.now windows).1 grants) mono.1 uses.1
        (Holds-round c now windows grants mono.0 uses.0 h)

  pub Holds-reachable :
      (calls : List Call)
      → IsMonotone 0 calls
      → Uses name rpm calls
      → Holds name rpm (last_now 0 calls) (run calls [] []).0 (run calls [] []).1
  unfolding lookup recent
  Holds-reachable calls mono uses = Holds-run calls 0 [] [] mono uses (record {
    bounded = omega arith;
    past = tt;
    tracked = λ later p. omega arith;
    limited = λ s. omega arith;
  })

-- From an empty limiter, after any interleaving of rounds under a clock that never runs back,
-- any 60 seconds hold at most `rpm` grants of a resource whose calls all pass the same `rpm`, a
-- positive `u32`.
pub grants_bounded :
    (name : Text) (rpm : ℕ) (calls : List Call) (start : ℕ)
    → 0 < rpm
    → rpm < 2 ^ 32
    → IsMonotone 0 calls
    → Uses name rpm calls
    → within start (times name (run calls [] []).1) ≤ rpm
grants_bounded name rpm calls start pos u32 mono uses =
    (Holds-reachable name rpm pos u32 calls mono uses).limited start
