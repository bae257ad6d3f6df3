-- ===== src/Rank/Defs.antt =====
-- src/search/rank.rs: `compute_composite_score` and `rank`. The number of days from a date in the
-- form "%Y-%m-%d" until today, by the crate chrono, is a parameter, and so is the sort, since the
-- comparison is no total order where a score is NaN.
use skipjack_mcp.Base.{
  ℕ, suc, ◌+◌, ◌^◌, ◌%◌, Bool, false, not, ◌&&◌, ◌||◌, Option, none, some, List, [], ◌∷◌, map,
  if◌then◌else◌, leb, ltb, unwrap_or,
}
use skipjack_mcp.Base.Text.{Text}
use skipjack_mcp.Base.Dict.{lookup, insert}
use skipjack_mcp.Base.Float.{F64}
use skipjack_mcp.Base.Sort.{Sorter}
use skipjack_mcp.Search.{SearchResult}

pub data ℤ : Type 0 where
  pos : ℕ → ℤ
  negsuc : ℕ → ℤ

pub record RankingDimension (F : Type 0) : Type 0 where
  pub enabled : Bool
  pub weight : F

pub record FreshnessBonusDimension (F : Type 0) : Type 0 where
  pub enabled : Bool
  pub weight : F
  pub window_days : ℕ

pub record RankingConfig (F : Type 0) : Type 0 where
  pub provider_reputation : RankingDimension F
  pub result_position : RankingDimension F
  pub freshness_bonus : FreshnessBonusDimension F

-- `age_days >= 0 && (age_days as u32) <= window_days`
abbrev pub in_window : ℕ → ℤ → Bool
in_window window (pos age) = leb (age % 2 ^ 32) window
in_window window (negsuc age) = false

unfoldable pub enumerate : {A : Type 0} → ℕ → List A → List (ℕ × A)
enumerate i [] = []
enumerate i (x ∷ xs) = (i, x) ∷ enumerate (suc i) xs

module _ (f64 : F64) (age_days : Text → Option ℤ) where
  open f64 use {Carrier, of_ℕ, add, mul, div, lt}

  abbrev pub half : Carrier
  half = div (of_ℕ 1) (of_ℕ 2)

  unfoldable pub freshness_factor : ℕ → Option Text → Carrier
  freshness_factor window none = half
  freshness_factor window (some date_str) = elim (age_days date_str) [
    | none ↦ half
    | some age ↦ if in_window window age then of_ℕ 1 else of_ℕ 0
  ]

  unfoldable pub compute_composite_score :
      SearchResult Carrier → ℕ → RankingConfig Carrier → List (Text × Carrier) → Carrier
  unfolding freshness_factor lookup
  compute_composite_score result position config provider_weights =
      let reputation = config.provider_reputation in
      let by_position = config.result_position in
      let freshness = config.freshness_bonus in
      let s0 : Carrier = of_ℕ 0 in
      let s1 : Carrier =
        if reputation.enabled
        then add s0 (
            mul reputation.weight
              (unwrap_or (lookup result.provider_name provider_weights) (of_ℕ 1)))
        else s0 in
      let s2 : Carrier =
        if by_position.enabled
        then add s1 (mul by_position.weight (div (of_ℕ 1) (add (of_ℕ 1) (of_ℕ position))))
        else s1 in
      if freshness.enabled
      then add s2
          (mul freshness.weight (freshness_factor freshness.window_days result.published_date))
      else s2

  abbrev pub with_score : SearchResult Carrier → Carrier → SearchResult Carrier
  with_score r score = record {
    title = r.title;
    url = r.url;
    snippet = r.snippet;
    published_date = r.published_date;
    provider_name = r.provider_name;
    rank_score = score;
  }

  module _ (config : RankingConfig Carrier) (provider_weights : List (Text × Carrier)) where
    -- The loop over the results, with `provider_positions` as its state.
    unfoldable pub score_all :
        List (Text × ℕ) → List (SearchResult Carrier) → List (SearchResult Carrier)
    unfolding lookup insert
    score_all provider_positions [] = []
    score_all provider_positions (result ∷ results) =
        let at : ℕ = unwrap_or (lookup result.provider_name provider_positions) 0 in
        with_score result (compute_composite_score result at config provider_weights)
        ∷ score_all (insert result.provider_name (at + 1) provider_positions) results

    -- The comparison is `Greater`: by score, and then by index.
    abbrev pub behind : ℕ × SearchResult Carrier → ℕ × SearchResult Carrier → Bool
    behind (ai, a) (bi, b) =
        lt a.rank_score b.rank_score || (not (lt b.rank_score a.rank_score) && ltb bi ai)

    unfoldable pub rank : Sorter → List (SearchResult Carrier) → List (SearchResult Carrier)
    unfolding enumerate score_all
    rank sorter results = map (λ e. e.1) (sorter.sort behind (enumerate 0 (score_all [] results)))
