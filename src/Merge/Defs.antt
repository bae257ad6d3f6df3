-- ===== src/Merge/Defs.antt =====
-- src/search/merge.rs: `ResultMerger::merge`. The function that canonicalizes a URL is a parameter
-- here (`Url.Defs.canonicalize_url` is the source's), and so is the order in which a `HashMap` yields
-- its values.
use skipjack_mcp.Base.{
  ℕ, ◌+◌, Bool, false, none, some, List, [], ◌∷◌, ◌++◌, map, if◌then◌else◌, take,
}
use skipjack_mcp.Base.Text.{Text, contains}
use skipjack_mcp.Base.Dict.{lookup, insert}
use skipjack_mcp.Base.Float.{F64}
use skipjack_mcp.Base.Sort.{sort_by}
use skipjack_mcp.Search.{SearchResult, SearchResponse}

-- `first().map(request_id).unwrap_or_default()`
abbrev pub first_id : {F : Type 0} → List (SearchResponse F) → Text
first_id [] = []
first_id (r ∷ responses) = r.request_id

-- The loop over `response.providers_used`.
unfoldable pub add_names : List Text → List Text → List Text
add_names used [] = used
add_names used (name ∷ names) =
    add_names (if contains used name then used else used ++ name ∷ []) names

module _ (f64 : F64) (canonicalize : Text → Text) where
  open f64 use {Carrier, lt}

  abbrev pub Hit : Type 0
  Hit = SearchResult Carrier

  abbrev pub Seen : Type 0
  Seen = List (Text × Hit)

  -- The body of the loop over the results of a response.
  unfoldable pub see : Seen → Hit → Seen
  unfolding insert lookup
  see seen result =
      let canonical = canonicalize result.url in
      elim (lookup canonical seen) [
        | some existing ↦
            if lt existing.rank_score result.rank_score then insert canonical result seen else seen
        | none ↦ insert canonical result seen
      ]

  unfoldable pub see_all : Seen → List Hit → Seen
  see_all seen [] = seen
  see_all seen (result ∷ results) = see_all (see seen result) results

  -- The state of the loop over the responses.
  pub record Merging : Type 0 where
    pub seen : Seen
    pub providers_used : List Text
    pub total_found : ℕ

  unfoldable pub take_in : Merging → List (SearchResponse Carrier) → Merging
  unfolding add_names
  take_in m [] = m
  take_in m (response ∷ responses) =
      take_in
        (record {
          seen = see_all m.seen response.results;
          providers_used = add_names m.providers_used response.providers_used;
          total_found = m.total_found + response.total_found;
        })
        responses

  -- `b.rank_score.partial_cmp(&a.rank_score)` is `Greater`.
  abbrev pub scores_less : Hit → Hit → Bool
  scores_less a b = lt a.rank_score b.rank_score

  unfoldable pub merge :
      (List Hit → List Hit) → List (SearchResponse Carrier) → ℕ → SearchResponse Carrier
  merge order responses limit =
      let m = take_in (record { seen = []; providers_used = []; total_found = 0 }) responses in
      record {
        request_id = first_id responses;
        results = take limit (sort_by scores_less (order (map (λ e. e.1) m.seen)));
        total_found = m.total_found;
        providers_used = m.providers_used;
        cache_hit = false;
        elapsed_ms = 0;
      }
