-- ===== src/Tests/Results.antt =====
-- Canonical URLs, merging and ranking at concrete inputs.
use mathlib.Core.List.{Permᴰ, Nodup}
use mathlib.Core.List.Permᴰ
use skipjack_mcp.Base.{
  ℕ, ◌≤◌, ◌≡◌, refl, inr, true, false, Option, none, some, List, [], ◌∷◌, map, length, All, arith,
  any, ◌==◌,
}
use skipjack_mcp.Base.Text.{Text, bytes}
use skipjack_mcp.Base.Float.{whole}
use skipjack_mcp.Base.Sort.{IsSorted, insertion}
use skipjack_mcp.Search.{SearchResult, SearchResponse}
use skipjack_mcp.Url.Defs.{UrlCrate, keeps, canonicalize_url, lower_scheme_and_host}
use skipjack_mcp.Url.Canonical.{Parts, IsParted, kept, spelled, canonicalize_url-forgets}
use skipjack_mcp.Url.Split.{IsFree}
use skipjack_mcp.Merge.Defs.{merge, scores_less}
use skipjack_mcp.Merge.Best.{IsBest}
use skipjack_mcp.Merge.Merged.{gather, merge-IsRanked, merge-IsBest}
use skipjack_mcp.Rank.Defs.{RankingConfig, ℤ, pos, rank}
use skipjack_mcp.Rank.Scores.{scored}
use skipjack_mcp.Rank.Ranking.{IsRanking, rank-IsRanking}

abbrev hit : Text → ℕ → SearchResult ℕ
hit url score = record {
  title = [];
  url = url;
  snippet = [];
  published_date = some (bytes "2026-01-01");
  provider_name = bytes "brave";
  rank_score = score;
}

abbrev response : List (SearchResult ℕ) → SearchResponse ℕ
response results = record {
  request_id = bytes "r";
  results = results;
  total_found = length results;
  providers_used = bytes "brave" ∷ [];
  cache_hit = false;
  elapsed_ms = 0;
}

abbrev responses : List (SearchResponse ℕ)
responses =
    response (hit (bytes "a") 1 ∷ hit (bytes "b") 2 ∷ []) ∷ response (hit (bytes "a") 3 ∷ []) ∷ []

abbrev same : Text → Text
same url = url

abbrev in_order : List (SearchResult ℕ) → List (SearchResult ℕ)
in_order results = results

in_order-perm : (xs : List (SearchResult ℕ)) → Permᴰ (in_order xs) xs
in_order-perm xs = Permᴰ.refl xs

merge-IsRanked_example :
    (length (merge whole same in_order responses 5).results ≤ 5)
    × IsSorted (scores_less whole same) (merge whole same in_order responses 5).results
    × Nodup (map (λ r. same r.url) (merge whole same in_order responses 5).results)
merge-IsRanked_example = merge-IsRanked whole same in_order in_order-perm responses 5

merge-IsBest_example :
    All
      (λ r. IsBest whole same (gather whole same responses []) (same r.url) (some r))
      (merge whole same in_order responses 5).results
merge-IsBest_example =
    merge-IsBest whole same in_order in_order-perm responses 5
      ((refl, (refl, tt)), ((refl, tt), tt))

abbrev config : RankingConfig ℕ
config = record {
  provider_reputation = record { enabled = true; weight = 2 };
  result_position = record { enabled = true; weight = 1 };
  freshness_bonus = record { enabled = true; weight = 1; window_days = 7 };
}

abbrev age_days : Text → Option ℤ
age_days date = some (pos 3)

rank-IsRanking_example :
    IsRanking whole age_days config []
      (scored whole age_days config [] [] (hit (bytes "a") 0 ∷ hit (bytes "b") 0 ∷ []))
      (rank whole age_days config [] insertion (hit (bytes "a") 0 ∷ hit (bytes "b") 0 ∷ []))
rank-IsRanking_example =
    rank-IsRanking whole age_days config [] insertion (hit (bytes "a") 0 ∷ hit (bytes "b") 0 ∷ [])
      (refl, (refl, tt))

-- URLs as they are.
abbrev plain : UrlCrate
plain = record {
  Url = Text;
  parse = λ text. some text;
  scheme = λ url. bytes "http";
  host_str = λ url. none;
  set_scheme = λ scheme url. url;
  set_host = λ host url. url;
  as_str = λ url. url;
}

abbrev first : Parts
first = record {
  base = bytes "http://a/b";
  query = some (bytes "gclid=7", bytes "utm_source=x" ∷ []);
  fragment = some (bytes "top");
}

-- The same page, with a slash and without a query.
abbrev second : Parts
second = record { base = bytes "http://a/b/"; query = none; fragment = none }

free : (c : ℕ) (s : Text) → any (λ d. d == c) s ≡ false → IsFree c s
free c [] h = tt
free c (d ∷ s) h = (ground arith, free c s (ground arith))

first-IsParted : IsParted first
first-IsParted = (
  free b'?' first.base refl,
  free b'#' first.base refl,
  (free b'&' (bytes "gclid=7") refl, (free b'&' (bytes "utm_source=x") refl, tt)),
  (free b'#' (bytes "gclid=7") refl, (free b'#' (bytes "utm_source=x") refl, tt)),
)

second-IsParted : IsParted second
second-IsParted = (free b'?' second.base refl, free b'#' second.base refl, tt, tt)

spelled_lem : (p : Parts) → lower_scheme_and_host plain (spelled p) ≡ spelled p
unfolding lower_scheme_and_host
spelled_lem p = refl

nothing_kept : kept first ≡ []
unfolding keeps
nothing_kept = refl

canonicalize_url-forgets_example :
    canonicalize_url plain (spelled first) ≡ canonicalize_url plain (spelled second)
canonicalize_url-forgets_example =
    canonicalize_url-forgets plain (spelled first) (spelled second) first second first-IsParted
      second-IsParted (spelled_lem first) (spelled_lem second)
      (inr (nothing_kept, (refl, refl, refl))) nothing_kept
