-- ===== src/RateLimiter/Counting.antt =====
-- src/anti_blocking/rate_limiter.rs. Counting the grants of a span of time.
use skipjack_mcp.Base.{
  ℕ, ◌+◌, ◌-◌, ◌≤◌, ◌<◌, ◌≡◌, refl, ◌&&◌, List, [], ◌∷◌, ◌++◌, ltb, leb, if◌then◌else◌, length,
  arith, All, inl, inr, Bool-cases,
}
use skipjack_mcp.Base.Text.{Text, text_eq}
use skipjack_mcp.RateLimiter.Defs.{
  window, Outcome, granted, sleeping, panicked, prune, sleep_for, Call,
}

-- The number of instants that a window ending at `now` still holds.
unfoldable pub recent : ℕ → List ℕ → ℕ
recent now [] = 0
recent now (t ∷ ts) = (if ltb now (t + window) then 1 else 0) + recent now ts

-- The instants from `start` on, within 60 seconds.
abbrev pub within : ℕ → List ℕ → ℕ
within start [] = 0
within start (t ∷ ts) = (if leb start t && ltb t (start + window) then 1 else 0) + within start ts

-- The instants at which `name` was granted.
abbrev pub times : Text → List (Text × ℕ) → List ℕ
times name [] = []
times name ((n, t) ∷ grants) = if text_eq n name then t ∷ times name grants else times name grants

-- The clock never runs back.
abbrev pub IsMonotone : ℕ → List Call → Type 0
IsMonotone now [] = Unit
IsMonotone now (c ∷ calls) = (now ≤ c.now) × IsMonotone c.now calls

pub recent-append :
    (now : ℕ) (xs ys : List ℕ) → recent now (xs ++ ys) ≡ recent now xs + recent now ys
unfolding recent
recent-append now [] ys = omega arith
recent-append now (x ∷ xs) ys = omega (arith, recent-append now xs ys)

pub recent-le-length : (now : ℕ) (xs : List ℕ) → recent now xs ≤ length xs
unfolding recent
recent-le-length now [] = omega arith
recent-le-length now (x ∷ xs) = ground (arith, recent-le-length now xs)

-- Pruning drops only what no later window holds.
pub recent-prune : (t now : ℕ) (q : List ℕ) → t ≤ now → recent now (prune t q) ≡ recent now q
unfolding recent prune
recent-prune t now [] h = refl
recent-prune t now (x ∷ q) h = ground (arith, recent-prune t now q h)

pub length-prune-le : (t : ℕ) (q : List ℕ) → length (prune t q) ≤ length q
unfolding prune
length-prune-le t [] = omega arith
length-prune-le t (x ∷ q) = ground (arith, length-prune-le t q)

pub recent_later : (t now : ℕ) (xs : List ℕ) → t ≤ now → recent now xs ≤ recent t xs
unfolding recent
recent_later t now [] h = omega arith
recent_later t now (x ∷ xs) h = ground (arith, recent_later t now xs h)

-- All that lies in a window around `now` is recent at `now`.
pub within-le-recent :
    (start now : ℕ) (xs : List ℕ) → now < start + window → within start xs ≤ recent now xs
unfolding recent
within-le-recent start now [] h = omega arith
within-le-recent start now (x ∷ xs) h = ground (arith, within-le-recent start now xs h)

-- What holds of the queue of one resource and of the instants granted so far.
pub record Tracks (rpm now : ℕ) (queue granted_at : List ℕ) : Type 0 where
  pub bounded : length queue ≤ rpm
  pub past : All (λ x. x ≤ now) queue
  pub tracked : (later : ℕ) → now ≤ later → recent later granted_at ≤ recent later queue
  pub limited : (start : ℕ) → within start granted_at ≤ rpm

abbrev pub push : Outcome → ℕ → List ℕ → List ℕ
push granted t granted_at = t ∷ granted_at
push (sleeping d) t granted_at = granted_at
push panicked t granted_at = granted_at

pub past_later :
    (now later : ℕ) (q : List ℕ) → now ≤ later → All (λ x. x ≤ now) q → All (λ x. x ≤ later) q
past_later now later [] le h = tt
past_later now later (x ∷ q) le h = (omega (arith, h.0), past_later now later q le h.1)

pub past-prune :
    (now later t : ℕ) (q : List ℕ)
    → now ≤ later
    → All (λ x. x ≤ now) q
    → All (λ x. x ≤ later) (prune t q)
unfolding prune
past-prune now later t [] le h = tt
past-prune now later t (x ∷ q) le h = elim (Bool-cases (leb window (t - x))) [
  | inl old ↦ rw old (past-prune now later t q le h.1)
  | inr new ↦ rw new (omega (arith, h.0), past_later now later q le h.1)
]

pub push-sleep_for : (now t : ℕ) (q g : List ℕ) → push (sleep_for now q) t g ≡ g
unfolding sleep_for
push-sleep_for now t [] g = refl
push-sleep_for now t (x ∷ q) g = refl
