-- ===== src/Rank/Scores.antt =====
-- src/search/rank.rs. What the composite scores are.
use skipjack_mcp.Base.{
  ℕ, ◌+◌, ◌^◌, ◌%◌, ◌≡◌, refl, ap, Option, none, some, List, [], ◌∷◌, ◌++◌, if◌then◌else◌, leb,
  length, length-append, filter_by, filter_by-append, unwrap_or, arith,
}
use skipjack_mcp.Base.Text.{Text, text_eq, text_eq_iff}
use skipjack_mcp.Base.Dict.{lookup, insert, lookup-insert}
use skipjack_mcp.Base.Float.{F64}
use skipjack_mcp.Search.{SearchResult}
use skipjack_mcp.Rank.Defs.{
  ℤ, pos, negsuc, RankingConfig, RankingDimension, FreshnessBonusDimension, freshness_factor,
  compute_composite_score, with_score, score_all,
}

-- The number of results of a provider.
abbrev pub count : {F : Type 0} → Text → List (SearchResult F) → ℕ
count name results = length (filter_by (λ r. text_eq r.provider_name name) results)

module _ (f64 : F64) (age_days : Text → Option ℤ) (config : RankingConfig (f64.Carrier))
    (provider_weights : List (Text × f64.Carrier)) where
  open f64 use {Carrier, of_ℕ, add, mul, div}

  -- The age of a date in days, if there is a date that can be read.
  abbrev pub age : Option Text → Option ℤ
  age none = none
  age (some date) = age_days date

  -- One within the window of days, a half for an unknown age, and otherwise nothing.
  abbrev pub recency : ℕ → Option ℤ → Carrier
  recency window none = div (of_ℕ 1) (of_ℕ 2)
  recency window (some (pos days)) = if leb (days % 2 ^ 32) window then of_ℕ 1 else of_ℕ 0
  recency window (some (negsuc days)) = of_ℕ 0

  -- The contribution of a dimension that is enabled, after the others.
  abbrev pub contribute : RankingDimension Carrier → Carrier → Carrier → Carrier
  contribute dimension factor others =
      if dimension.enabled then add others (mul dimension.weight factor) else others

  abbrev pub of_freshness : FreshnessBonusDimension Carrier → RankingDimension Carrier
  of_freshness dimension = record { enabled = dimension.enabled; weight = dimension.weight }

  -- The sum of the weights of the enabled dimensions, times: the weight of the provider, or one;
  -- one by the position among the results of the provider, counted from one; and the recency.
  abbrev pub expected_score : SearchResult Carrier → ℕ → Carrier
  expected_score r position =
      contribute (of_freshness config.freshness_bonus)
        (recency config.freshness_bonus.window_days (age r.published_date))
        (contribute config.result_position (div (of_ℕ 1) (add (of_ℕ 1) (of_ℕ position))) (
          contribute config.provider_reputation
            (unwrap_or (lookup r.provider_name provider_weights) (of_ℕ 1)) (of_ℕ 0)))

  freshness-recency :
      (window : ℕ) (date : Option Text)
      → freshness_factor f64 age_days window date ≡ recency window (age date)
  unfolding freshness_factor
  freshness-recency window none = refl
  freshness-recency window (some date) = of_age (age_days date) refl
    where
      of_age :
          (days : Option ℤ)
          → age_days date ≡ days
          → freshness_factor f64 age_days window (some date) ≡ recency window days
      of_age none e = rw (e, freshness_factor) refl
      of_age (some (pos days)) e = rw (e, freshness_factor) refl
      of_age (some (negsuc days)) e = rw (e, freshness_factor) refl

  composite-expected :
      (r : SearchResult Carrier) (position : ℕ)
      → compute_composite_score f64 age_days r position config provider_weights
        ≡ expected_score r position
  unfolding compute_composite_score
  composite-expected r position =
      rw
        (
          freshness-recency config.freshness_bonus.window_days r.published_date,
          compute_composite_score,
        )
        refl

  -- Each result with the score of its position among the results of its provider, given the results
  -- before it.
  abbrev pub scored :
      List (SearchResult Carrier) → List (SearchResult Carrier) → List (SearchResult Carrier)
  scored earlier [] = []
  scored earlier (r ∷ results) =
      with_score f64 age_days r (expected_score r (count r.provider_name earlier))
      ∷ scored (earlier ++ r ∷ []) results

  counted :
      (r : SearchResult Carrier) (earlier : List (SearchResult Carrier)) (name : Text)
      → count name (earlier ++ r ∷ [])
        ≡ (if text_eq r.provider_name name then count name earlier + 1 else count name earlier)
  counted r earlier name =
      let p = λ (q : SearchResult Carrier). text_eq q.provider_name name in
      rw
        (
          filter_by-append p earlier (r ∷ []),
          length-append (filter_by p earlier) (filter_by p (r ∷ [])),
        )
        (ground arith)

  pub score_all-scored :
      (positions : List (Text × ℕ)) (earlier results : List (SearchResult Carrier))
      → ((name : Text) → unwrap_or (lookup name positions) 0 ≡ count name earlier)
      → score_all f64 age_days config provider_weights positions results ≡ scored earlier results
  unfolding score_all
  score_all-scored positions earlier [] h = refl
  score_all-scored positions earlier (r ∷ results) h =
      let name = r.provider_name in
      let here = h name in
      rw (here, composite-expected r (count name earlier))
        (ap (◌∷◌ (with_score f64 age_days r (expected_score r (count name earlier)))) (
          score_all-scored (insert name (count name earlier + 1) positions) (earlier ++ r ∷ [])
            results
            (λ other.
              let law = lookup-insert name other (count name earlier + 1) positions in
              ground (arith, law, h other, counted r earlier other, text_eq_iff name other))))
