-- ===== src/Retry/Attempts.antt =====
-- src/anti_blocking/retry.rs. The loop as a whole: which call decides, and how many calls there
-- are.
use skipjack_mcp.Base.{ℕ, zero, suc, ◌<◌, ◌≡◌, ◌⊎◌, true, false, List, length}
use skipjack_mcp.Search.{Result, ok, err}
use skipjack_mcp.Retry.Defs.{ClassifyRetry, Ending, done}

module _ {S T E : Type 0} (f : S → Result E T × S) where
  -- The state before the `n`-th call.
  pub state_at : ℕ → S → S
  state_at zero s = s
  state_at (suc n) s = state_at n (f s).1

  -- What the `n`-th call returns.
  abbrev pub outcome : ℕ → S → Result E T
  outcome n s = (f (state_at n s)).0

module _ {T E : Type 0} (classify : ClassifyRetry E) where
  -- A failure that the loop may retry.
  abbrev pub IsTransient : Result E T → Type 0
  IsTransient (ok value) = ⊥
  IsTransient (err e) = classify.is_retryable e ≡ true

  -- A result that ends the loop by itself.
  abbrev pub IsFinal : Result E T → Type 0
  IsFinal (ok value) = Unit
  IsFinal (err e) = classify.is_retryable e ≡ false

module _ {S T E D : Type 0} (classify : ClassifyRetry E) (f : S → Result E T × S) where
  -- The loop ended with the result of call `last`, after `last` retries; `n` calls at most were
  -- allowed.
  pub record Decides (n : ℕ) (s : S) (run : Ending T E × S × List D) : Type 0 where
    pub last : ℕ
    pub in_range : last < n
    pub result : run.0 ≡ done (outcome f last s)
    pub final_state : run.1 ≡ state_at f (suc last) s
    pub slept : length run.2 ≡ last
    pub earlier : (j : ℕ) → j < last → IsTransient classify (outcome f j s)
    pub reason : IsFinal classify (outcome f last s) ⊎ (suc last ≡ n)
