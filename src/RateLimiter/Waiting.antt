-- ===== src/RateLimiter/Waiting.antt =====
-- src/anti_blocking/rate_limiter.rs. How long `acquire` waits.
use skipjack_mcp.Base.{
  ℕ, suc, ◌+◌, ◌-◌, ◌%◌, ◌^◌, ◌≤◌, ◌<◌, ◌≡◌, refl, ap, ◌∙◌, ◌⊎◌, List, [], ◌∷◌, some, ltb, length,
  arith, lt→ltb, le→leb, tests, All, inl, inr, Bool-cases,
}
use skipjack_mcp.Base.Text.{Text}
use skipjack_mcp.RateLimiter.Defs.{
  window, Windows, granted, sleeping, prune, sleep_for, critical, entry, round, acquire, Call, run,
}
use skipjack_mcp.RateLimiter.Counting.{IsMonotone, length-prune-le, past-prune}
use skipjack_mcp.RateLimiter.Bound.{Holds-reachable, Uses, last_now, round_self}

-- A queue that has room grants at once.
critical_room :
    (rpm t : ℕ) (q : List ℕ)
    → rpm < 2 ^ 32
    → length (prune t q) < rpm
    → (critical rpm t q).1 ≡ granted
unfolding critical
critical_room rpm t q u32 room = rw (lt→ltb (length (prune t q) % 2 ^ 32) rpm (omega arith))

-- The oldest entry that pruning keeps is younger than the window.
prune_head : (now : ℕ) (q : List ℕ) (x : ℕ) (ts : List ℕ) → prune now q ≡ x ∷ ts → now - x < window
unfolding prune
prune_head now [] x ts e = cc
prune_head now (y ∷ q) x ts e = ground (arith, prune_head now q x ts)

-- The state after a round that must wait.
record MustWait (rpm now : ℕ) (q : List ℕ) : Type 0 where
  oldest : ℕ
  others : List ℕ
  kept : (critical rpm now q).0 ≡ oldest ∷ others
  young : now - oldest < window
  seen : oldest ≤ now
  room : length others < rpm
  delay : (critical rpm now q).1 ≡ sleeping (window - (now - oldest))

module _ (rpm now : ℕ) (q : List ℕ) (pos : 0 < rpm) (u32 : rpm < 2 ^ 32) where
  critical_split :
      (l : List ℕ)
      → prune now q ≡ l
      → length l ≤ rpm
      → All (λ x. x ≤ now) l
      → ((critical rpm now q).1 ≡ granted) ⊎ MustWait rpm now q
  critical_split [] e h past = inl (critical_room rpm now q u32 (rw e pos))
  critical_split (x ∷ ts) e h past = elim (Bool-cases (ltb (suc (length ts)) rpm)) [
    | inl room ↦ inl (critical_room rpm now q u32 (rw e (omega tests)))
    | inr full ↦
        let young : now - x < window = prune_head now q x ts e in
        let size : suc (length ts) % 2 ^ 32 ≡ suc (length ts) = omega arith in
        inr (record {
          oldest = x;
          others = ts;
          kept = unfold critical in rw (e, size, full);
          young = young;
          seen = past.0;
          room = omega arith;
          delay = unfold critical sleep_for in rw (e, size, full, lt→ltb (now - x) window young);
        })
  ]

  -- Once the wait is over the slot is free.
  wait_over :
      (w : MustWait rpm now q) (t : ℕ)
      → now + (window - (now - w.oldest)) ≤ t
      → (critical rpm t (critical rpm now q).0).1 ≡ granted
  wait_over w t le = rw w.kept (
      critical_room rpm t (w.oldest ∷ w.others) u32 (
        unfold prune in
        rw (le→leb window (t - w.oldest) (omega (arith, w.young, w.seen)))
          (omega (arith, length-prune-le t w.others, w.room))))

second_round :
    (name : Text) (rpm now t : ℕ) (clock : List ℕ) (windows : Windows) {d : ℕ}
    → (round name rpm now windows).1 ≡ sleeping d
    → (round name rpm t (round name rpm now windows).0).1 ≡ granted
    → (acquire name rpm (now ∷ t ∷ clock) windows).1 ≡ some t
unfolding acquire
second_round name rpm now t clock windows asleep free = ground arith

-- After any interleaving of rounds, a task that is alone from some instant on, with a positive
-- `u32` as its `rpm`, is granted its slot at once, or sleeps for a positive time of at most 60
-- seconds and is granted in its next round, whenever that is after the sleep.
pub acquire_alone :
    (name : Text) (rpm : ℕ) (calls : List Call) (now late : ℕ) (clock : List ℕ)
    → 0 < rpm
    → rpm < 2 ^ 32
    → IsMonotone 0 calls
    → Uses name rpm calls
    → last_now 0 calls ≤ now
    → let windows = (run calls [] []).0 in
      ((round name rpm now windows).1 ≡ granted)
      ⊎ (d : ℕ) × ((round name rpm now windows).1 ≡ sleeping d)
        × (0 < d)
        × (d ≤ window)
        × ((acquire name rpm (now ∷ (now + d + late) ∷ clock) windows).1 ≡ some (now + d + late))
acquire_alone name rpm calls now late clock pos u32 mono uses le =
    let windows = (run calls [] []).0 in
    let q = entry name windows in
    let h = Holds-reachable name rpm pos u32 calls mono uses in
    let (queue, outcome) = round_self name rpm now windows pos in
    elim (critical_split rpm now q pos u32 (prune now q) refl
      (omega (arith, h.bounded, length-prune-le now q))
      (past-prune (last_now 0 calls) now now q le h.past)) [
        | inl free ↦ inl (outcome ∙ free)
        | inr w ↦ inr (
          window - (now - w.oldest),
          outcome ∙ w.delay,
          omega (arith, w.young),
          omega arith,
          let t = now + (window - (now - w.oldest)) + late in
              second_round name rpm now t clock windows (outcome ∙ w.delay) (
                (round_self name rpm t (round name rpm now windows).0 pos).1
                ∙ ap (λ r. (critical rpm t r).1) queue
                ∙ wait_over rpm now q pos u32 w t (omega arith)),
        )
      ]
