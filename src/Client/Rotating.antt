-- ===== src/Client/Rotating.antt =====
-- src/anti_blocking/rotating_client.rs: `RotatingClient`. The closure that builds a client reads and
-- changes a state `B`; an error that is only logged is dropped.
use skipjack_mcp.Base.{ℕ, Bool, ◌+◌, ◌%◌, ◌^◌, ◌&&◌, ltb, ◌==◌, if◌then◌else◌}
use skipjack_mcp.Search.{ProviderError, Result, ok, err}

pub record RotatingClient (C : Type 0) : Type 0 where
  pub current : C
  pub counter : ℕ  -- AtomicUsize
  pub threshold : ℕ

module _ {C B : Type 0} (build_client : B → Result ProviderError C × B) where
  unfoldable pub new : ℕ → B → Result ProviderError (RotatingClient C) × B
  new threshold builder =
      let (built, builder') = build_client builder in
      (
        elim built [
          | err e ↦ err e
          | ok c ↦ ok (record { current = c; counter = 0; threshold = threshold })
        ],
        builder',
      )

  -- `fetch_add` and the sum wrap.
  abbrev pub count : RotatingClient C → ℕ
  count rotating = (rotating.counter + 1) % 2 ^ 64

  abbrev pub is_due : RotatingClient C → Bool
  is_due rotating = ltb 0 rotating.threshold && count rotating % rotating.threshold == 0

  abbrev pub replaced : RotatingClient C → Result ProviderError C → RotatingClient C
  replaced rotating (ok new_client) = record rotating { current = new_client }
  replaced rotating (err e) = rotating

  -- The client that a request gets.
  unfoldable pub client : RotatingClient C → B → C × (RotatingClient C × B)
  client rotating builder =
      let counted = record rotating { counter = count rotating } in
      let (built, builder') = build_client builder in
      let rotated = replaced counted built in
      if is_due rotating
      then (rotated.current, (rotated, builder'))
      else (counted.current, (counted, builder))
