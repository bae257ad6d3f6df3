-- ===== src/Client/Rotations.antt =====
-- src/anti_blocking/rotating_client.rs. Which client a request gets.
use skipjack_mcp.Base.{
  ℕ, zero, suc, ◌+◌, ◌/◌, ◌%◌, ◌^◌, ◌<◌, ◌≡◌, refl, ◌&&◌, &&-eq-true, ==_iff, sym, ap, ◌∙◌, inl,
  inr, true, false, ltb, ◌==◌, if◌then◌else◌, arith, tests, Bool-cases,
}
use skipjack_mcp.Search.{ProviderError, Result, ok, err, Result-cases}
use skipjack_mcp.Client.Rotating.{RotatingClient, new, client, replaced}

div_next : (n t : ℕ) → 0 < t → (n + 1) % t ≡ 0 → (n + 1) / t ≡ n / t + 1
div_next n t pos e = grind arith

div_same : (n t : ℕ) → 0 < t → 0 < (n + 1) % t → (n + 1) / t ≡ n / t
div_same n t pos e = grind arith

-- The rebuilds that `n` requests bring.
abbrev pub rebuilds : ℕ → ℕ → ℕ
rebuilds threshold n = if threshold == 0 then 0 else n / threshold

rebuilds_due :
    (n t : ℕ) → (ltb 0 t && (n + 1) % t == 0) ≡ true → rebuilds t (n + 1) ≡ suc (rebuilds t n)
rebuilds_due n t due =
    let (pos, e) = &&-eq-true (ltb 0 t) ((n + 1) % t == 0) due in
    let step = div_next n t (omega tests) ((==_iff ((n + 1) % t) 0).0 e) in ground (arith, step)

rebuilds_same :
    (n t : ℕ) → (ltb 0 t && (n + 1) % t == 0) ≡ false → rebuilds t (n + 1) ≡ rebuilds t n
rebuilds_same n t due = elim (Bool-cases (t == 0)) [
  | inl z ↦ rw z refl
  | inr p ↦ let same = div_same n t (ground arith) (ground arith) in ground (arith, same)
]

module _ {C : Type 0} (outcomes : ℕ → Result ProviderError C) (first : C) where
  -- The closure, which counts its calls.
  abbrev pub build : ℕ → Result ProviderError C × ℕ
  build made = (outcomes made, suc made)

  -- The client of the last build that succeeded, the first and `k` more being made.
  unfoldable pub latest : ℕ → C
  latest zero = first
  latest (suc k) = elim (outcomes (suc k)) [ ok c ↦ c | err e ↦ latest k ]

  -- What a client is after `n` requests, and the builds made.
  abbrev pub after : ℕ → ℕ → RotatingClient C × ℕ
  after threshold n = (
    record { current = latest (rebuilds threshold n); counter = n; threshold = threshold },
    suc (rebuilds threshold n),
  )

  replaced-latest :
      (threshold k m n : ℕ)
      → m ≡ n
      → replaced build
          (record { current = latest k; counter = m; threshold = threshold })
          (outcomes (suc k))
        ≡ record { current = latest (suc k); counter = n; threshold = threshold }
  unfolding latest
  replaced-latest threshold k m n e = elim (Result-cases (outcomes (suc k))) [
    | inl (c, made) ↦ rw (e, latest, made) refl
    | inr (x, failed) ↦ rw (e, latest, failed) refl
  ]

  one_call :
      (threshold n : ℕ)
      → n + 1 < 2 ^ 64
      → client build (after threshold n).0 (after threshold n).1
        ≡ (latest (rebuilds threshold (n + 1)), after threshold (n + 1))
  unfolding client
  one_call threshold n fits =
      let counted : (n + 1) % 2 ^ 64 ≡ n + 1 = omega arith in
      elim (Bool-cases (ltb 0 threshold && (n + 1) % threshold == 0)) [
        | inl due ↦
            rw (counted, due, rebuilds_due n threshold due)
              (ap (λ (r : RotatingClient C). (r.current, (r, suc (suc (rebuilds threshold n)))))
                (replaced-latest threshold (rebuilds threshold n) ((n + 1) % 2 ^ 64) (n + 1)
                  counted))
        | inr idle ↦ rw (counted, idle, rebuilds_same n threshold idle) refl
      ]

  -- `n` requests.
  unfoldable pub requests : ℕ → RotatingClient C × ℕ → RotatingClient C × ℕ
  requests zero state = state
  requests (suc n) state = let (rotating, made) = requests n state in (client build rotating made).1

  after_requests :
      (threshold n : ℕ) → n < 2 ^ 64 → requests n (after threshold 0) ≡ after threshold n
  unfolding requests
  after_requests threshold zero fits = refl
  after_requests threshold (suc n) fits =
      let before = after_requests threshold n (omega arith) in
      let next : n + 1 ≡ suc n = omega arith in
      ap (λ (s : RotatingClient C × ℕ). (client build s.0 s.1).1) before
      ∙ ap (λ r. r.1) (one_call threshold n (omega arith))
      ∙ ap (after threshold) next

  abbrev pub fresh : ℕ → RotatingClient C
  fresh threshold = record { current = first; counter = 0; threshold = threshold }

  after-fresh : (threshold : ℕ) → after threshold 0 ≡ (fresh threshold, 1)
  unfolding latest
  after-fresh threshold =
      let none_yet : rebuilds threshold 0 ≡ 0 = grind arith in rw (none_yet, latest) refl

  -- When the first build succeeds, `new` makes just it; at any of the first 2 ^ 64 - 1
  -- requests of the new client, the builds made are that one and one for every `threshold`
  -- requests so far, this one included, none if the threshold is zero, and the request gets
  -- the client of the last of them that succeeded.
  pub client-latest :
      (threshold n : ℕ)
      → outcomes 0 ≡ ok first
      → n + 1 < 2 ^ 64
      → (new build threshold 0 ≡ (ok (fresh threshold), 1))
        × ((client build (requests n (fresh threshold, 1)).0 (requests n (fresh threshold, 1)).1).0
            ≡ latest (rebuilds threshold (n + 1)))
        × ((client build
              (requests n (fresh threshold, 1)).0
              (requests n (fresh threshold, 1)).1).1.1
            ≡ suc (rebuilds threshold (n + 1)))
  unfolding new
  client-latest threshold n e fits =
      let state : requests n (fresh threshold, 1) ≡ after threshold n =
        ap (requests n) (sym (after-fresh threshold)) ∙ after_requests threshold n (omega arith) in
      let call =
        ap (λ (s : RotatingClient C × ℕ). client build s.0 s.1) state ∙ one_call threshold n fits in
      (rw (e, new) refl, ap (λ r. r.0) call, ap (λ r. r.1.1) call)
