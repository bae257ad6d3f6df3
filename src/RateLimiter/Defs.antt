-- ===== src/RateLimiter/Defs.antt =====
-- src/anti_blocking/rate_limiter.rs: the state and the loop of `acquire`.
use skipjack_mcp.Base.{
  ℕ, ◌-◌, ◌%◌, ◌^◌, List, [], ◌∷◌, ◌++◌, Option, none, some, ltb, leb, ◌==◌, if◌then◌else◌, length,
  unwrap_or,
}
use skipjack_mcp.Base.Text.{Text}
use skipjack_mcp.Base.Dict.{lookup, insert}

-- `Duration::from_secs(60)`
abbrev pub window : ℕ
window = 60000000000

-- The timestamps of the recent requests, oldest first, of each resource.
abbrev pub Windows : Type 0
Windows = List (Text × List ℕ)

-- What one round of the loop in `acquire` ends in. `panicked` is a failed `assert!` or `expect`.
pub data Outcome : Type 0 where
  granted : Outcome
  sleeping : ℕ → Outcome
  panicked : Outcome

-- The `while` loop that pops expired entries from the front.
unfoldable pub prune : ℕ → List ℕ → List ℕ
prune now [] = []
prune now (t ∷ ts) = let rest = prune now ts in if leb window (now - t) then rest else t ∷ ts

-- How long to wait for the oldest entry.
unfoldable pub sleep_for : ℕ → List ℕ → Outcome
sleep_for now [] = panicked
sleep_for now (oldest ∷ ts) =
    let age = now - oldest in sleeping (if ltb age window then window - age else 0)

-- The critical section, on the queue of one resource.
unfoldable pub critical : ℕ → ℕ → List ℕ → List ℕ × Outcome
unfolding prune sleep_for
critical rpm now queue =
    let kept = prune now queue in
    if ltb (length kept % 2 ^ 32) rpm
    then (kept ++ now ∷ [], granted)
    else (kept, sleep_for now kept)

-- `windows.entry(name).or_default()`
abbrev pub entry : Text → Windows → List ℕ
entry name windows = unwrap_or (lookup name windows) []

-- One round of the loop, with the assertion before it.
unfoldable pub round : Text → ℕ → ℕ → Windows → Windows × Outcome
round name rpm now windows =
    if rpm == 0
    then (windows, panicked)
    else let (queue, outcome) = critical rpm now (entry name windows) in
      (insert name queue windows, outcome)

-- The loop of `acquire`, one clock reading for each round; the instant of the grant, or `none`
-- while it still waits.
unfoldable pub acquire : Text → ℕ → List ℕ → Windows → Windows × Option ℕ
acquire name rpm [] windows = (windows, none)
acquire name rpm (now ∷ clock) windows =
    let (windows', outcome) = round name rpm now windows in
    let again = acquire name rpm clock windows' in
    elim outcome [
      | granted ↦ (windows', some now)
      | sleeping d ↦ again
      | panicked ↦ (windows', none)
    ]

-- A round of some task. The mutex makes rounds atomic, so a list of them is any interleaving of
-- the tasks.
pub record Call : Type 0 where
  pub name : Text
  pub rpm : ℕ
  pub now : ℕ

-- The grants, newest first, as pairs of a resource and an instant.
abbrev pub note : Call → Outcome → List (Text × ℕ) → List (Text × ℕ)
note c granted grants = (c.name, c.now) ∷ grants
note c (sleeping d) grants = grants
note c panicked grants = grants

unfoldable pub run : List Call → Windows → List (Text × ℕ) → Windows × List (Text × ℕ)
run [] windows grants = (windows, grants)
run (c ∷ calls) windows grants =
    let (windows', outcome) = round c.name c.rpm c.now windows in
    run calls windows' (note c outcome grants)
