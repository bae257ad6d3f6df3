-- ===== src/Rank/Ranking.antt =====
-- src/search/rank.rs. What `rank` returns.
use mathlib.Core.List.{Permᴰ}
use skipjack_mcp.Base.{
  ℕ, suc, ◌≤◌, ◌≡◌, ◌⊎◌, refl, true, false, Option, List, [], ◌∷◌, map, ltb, unwrap_or, All, arith,
  tests, Bool-cases, inl, inr,
}
use skipjack_mcp.Base.Text.{Text}
use skipjack_mcp.Base.Dict.{lookup}
use skipjack_mcp.Base.Float.{F64}
use skipjack_mcp.Base.Sort.{Sorter, IsSorted}
use skipjack_mcp.Search.{SearchResult}
use skipjack_mcp.Rank.Defs.{ℤ, RankingConfig, score_all, enumerate, behind, rank}
use skipjack_mcp.Rank.Scores.{scored, score_all-scored}

module _ (f64 : F64) (age_days : Text → Option ℤ) (config : RankingConfig (f64.Carrier))
    (provider_weights : List (Text × f64.Carrier)) where
  open f64 use {Carrier, lt, lt_asym, lt_cotrans, is_nan}

  abbrev pub Indexed : Type 0
  Indexed = ℕ × SearchResult Carrier

  start_counted : (name : Text) → unwrap_or (lookup {V = ℕ} name []) 0 ≡ 0
  unfolding lookup
  start_counted name = refl

  all_scored :
      (results : List (SearchResult Carrier))
      → score_all f64 age_days config provider_weights [] results
        ≡ scored f64 age_days config provider_weights [] results
  all_scored results =
      score_all-scored f64 age_days config provider_weights [] [] results start_counted

  abbrev sorted_by : Sorter → List (SearchResult Carrier) → List Indexed
  sorted_by sorter results =
      sorter.sort (behind f64 age_days config provider_weights) (enumerate 0 results)

  -- The results with their indices, in the order of the ranking.
  pub rank_indexed :
      (sorter : Sorter) (results : List (SearchResult Carrier))
      → (indexed : List Indexed) × (map (λ e. e.1) indexed
          ≡ rank f64 age_days config provider_weights sorter results)
        × Permᴰ indexed (enumerate 0 (scored f64 age_days config provider_weights [] results))
  unfolding rank
  rank_indexed sorter results =
      let b = behind f64 age_days config provider_weights in
      let all = scored f64 age_days config provider_weights [] results in
      (
        sorted_by sorter all,
        rw (rank, all_scored results) refl,
        sorter.sort-perm b (enumerate 0 all),
      )

  -- The first scores more; or neither does, and it has been before the second.
  abbrev pub IsAhead : Indexed → Indexed → Type 0
  IsAhead (i, a) (j, b) =
      (lt b.rank_score a.rank_score ≡ true)
      ⊎ ((lt a.rank_score b.rank_score ≡ false) × (lt b.rank_score a.rank_score ≡ false) × (i ≤ j))

  abbrev pub IsDescending : List Indexed → Type 0
  IsDescending [] = Unit
  IsDescending (x ∷ []) = Unit
  IsDescending (x ∷ y ∷ ys) = IsAhead x y × IsDescending (y ∷ ys)

  -- A ranking of results: each keeps its index, and each is ahead of the next one.
  pub record IsRanking (results ranked : List (SearchResult Carrier)) : Type 0 where
    pub indexed : List Indexed
    pub without : map (λ e. e.1) indexed ≡ ranked
    pub same : Permᴰ indexed (enumerate 0 results)
    pub descending : IsDescending indexed

  behind_asym :
      (x y : Indexed)
      → behind f64 age_days config provider_weights x y ≡ true
      → behind f64 age_days config provider_weights y x ≡ false
  behind_asym (i, a) (j, b) h =
      let down = lt_asym a.rank_score b.rank_score in
      let up = lt_asym b.rank_score a.rank_score in ground (arith, down, up)

  behind-IsAhead :
      (x y : Indexed) → behind f64 age_days config provider_weights x y ≡ false → IsAhead x y
  behind-IsAhead (i, a) (j, b) h = elim (Bool-cases (lt b.rank_score a.rank_score)) [
    | inl more ↦ inl more
    | inr no_more ↦ elim (Bool-cases (lt a.rank_score b.rank_score)) [
      | inl less ↦ absurd (ground arith)
      | inr no_less ↦
          let early : ltb j i ≡ false = ground arith in
          inr (no_less, no_more, omega (arith, tests, early))
    ]
  ]

  IsSorted-IsDescending :
      (xs : List Indexed)
      → IsSorted (behind f64 age_days config provider_weights) xs
      → IsDescending xs
  IsSorted-IsDescending [] h = tt
  IsSorted-IsDescending (x ∷ []) h = tt
  IsSorted-IsDescending (x ∷ y ∷ ys) h =
      (behind-IsAhead x y h.0, IsSorted-IsDescending (y ∷ ys) h.1)

  abbrev pub IsNumber : SearchResult Carrier → Type 0
  IsNumber r = is_nan r.rank_score ≡ false

  -- Among numbers the comparison is a total order.
  behind_cotrans :
      (x y z : Indexed)
      → IsNumber x.1
      → IsNumber y.1
      → IsNumber z.1
      → behind f64 age_days config provider_weights x y ≡ false
      → behind f64 age_days config provider_weights y z ≡ false
      → behind f64 age_days config provider_weights x z ≡ false
  behind_cotrans (i, a) (j, b) (k, c) na nb nc h l =
      let over = lt_cotrans a.rank_score b.rank_score c.rank_score nb in
      let back = lt_cotrans b.rank_score c.rank_score a.rank_score nc in
      let forth = lt_cotrans c.rank_score a.rank_score b.rank_score na in
      ground (arith, over, back, forth)

  IsNumber-enumerate :
      (i : ℕ) (results : List (SearchResult Carrier))
      → All IsNumber results
      → All (λ (e : Indexed). IsNumber e.1) (enumerate i results)
  unfolding enumerate
  IsNumber-enumerate i [] h = tt
  IsNumber-enumerate i (r ∷ results) h = (h.0, IsNumber-enumerate (suc i) results h.1)

  -- For any sort that keeps the elements and orders them where the comparison is a total
  -- order, and where no composite score is NaN, `rank` returns all results, each of them
  -- scored by the weights of the enabled dimensions, times the weight of its provider or one,
  -- one divided by its place among the results of its provider, and its recency: one within
  -- the window of days, a half where the age is unknown, and otherwise nothing. Each result
  -- scores more than the next one, or neither scores more and it stood first in the input.
  pub rank-IsRanking :
      (sorter : Sorter) (results : List (SearchResult Carrier))
      → All IsNumber (scored f64 age_days config provider_weights [] results)
      → IsRanking
          (scored f64 age_days config provider_weights [] results)
          (rank f64 age_days config provider_weights sorter results)
  unfolding rank
  rank-IsRanking sorter results numbers =
      let b = behind f64 age_days config provider_weights in
      let all = scored f64 age_days config provider_weights [] results in
      record {
        indexed = sorted_by sorter all;
        without = rw (rank, all_scored results) refl;
        same = sorter.sort-perm b (enumerate 0 all);
        descending = IsSorted-IsDescending (sorted_by sorter all) (
            sorter.sort-IsSorted b (λ e. IsNumber e.1) (enumerate 0 all) behind_asym behind_cotrans
              (IsNumber-enumerate 0 all numbers));
      }
