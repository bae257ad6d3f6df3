-- ===== src/Mcp/Requests.antt =====
-- src/mcp.rs. Which calls of the tool `search` are passed on.
use skipjack_mcp.Base.{
  ℕ, ◌≤◌, ◌<◌, ◌≡◌, ◌↔◌, refl, sym, ap, inl, inr, false, ◌||◌, Option, ltb, ◌==◌, is_empty, arith,
  Bool-cases,
}
use skipjack_mcp.Base.Text.{Text}
use skipjack_mcp.Search.{ok, Freshness, SearchRequest, Result-cases}
use skipjack_mcp.Server.Trim.{trim}
use skipjack_mcp.Mcp.Tools.{SearchParams, freshness_of, check_mode, search_request}

abbrev request_of : Text → SearchParams → Option Freshness → Option Text → SearchRequest
request_of request_id params freshness mode = record {
  request_id = request_id;
  query = params.query;
  limit = params.limit;
  providers = params.providers;
  language = params.language;
  country = params.country;
  safe_search = params.safe_search;
  freshness = freshness;
  dispatch_mode = mode;
}

-- The arguments are in order, and the request is made of them.
abbrev pub Accepts : Text → SearchParams → SearchRequest → Type 0
Accepts request_id params request =
    (is_empty (trim params.query) ≡ false)
    × (freshness_of params.freshness ≡ ok request.freshness)
    × (check_mode params.dispatch_mode ≡ ok request.dispatch_mode)
    × (0 < params.limit)
    × (params.limit ≤ 100)
    × (request ≡ request_of request_id params request.freshness request.dispatch_mode)

module _ (number : ℕ → Text) (request_id : Text) (params : SearchParams)
    (request : SearchRequest) where
  accepted :
      search_request number request_id params ≡ ok request → Accepts request_id params request
  unfolding search_request
  accepted h = elim (Bool-cases (is_empty (trim params.query))) [
    | inl blank ↦ absurd (let wrong = rw (blank, search_request) at h in cc)
    | inr text ↦ elim (Result-cases (freshness_of params.freshness)) [
      | inr (x, e) ↦ absurd (let wrong = rw (text, e, search_request) at h in cc)
      | inl (freshness, e) ↦ elim (Result-cases (check_mode params.dispatch_mode)) [
        | inr (x, f) ↦ absurd (let wrong = rw (text, e, f, search_request) at h in cc)
        | inl (mode, f) ↦ elim (Bool-cases (params.limit == 0 || ltb 100 params.limit)) [
          | inl out ↦ absurd (let wrong = rw (text, e, f, out, search_request) at h in cc)
          | inr in_range ↦
              let same : request_of request_id params freshness mode ≡ request =
                let made = rw (text, e, f, in_range, search_request) at h in cc in
              rw (← same) (text, e, f, ground (arith, in_range), ground (arith, in_range), refl)
        ]
      ]
    ]
  ]

  accepts : Accepts request_id params request → search_request number request_id params ≡ ok request
  unfolding search_request
  accepts (text, e, f, low, high, same) =
      let in_range : (params.limit == 0 || ltb 100 params.limit) ≡ false = ground arith in
      rw (text, e, f, in_range, search_request) (ap ok (sym same))

  -- The MCP tool `search` makes a request of its arguments exactly when the query is not
  -- blank, the checks of the freshness and of the dispatch mode accept theirs, and the limit
  -- is between 1 and 100; the request then carries the arguments, and the freshness and the
  -- mode as these checks read them.
  pub search_request_iff :
      (search_request number request_id params ≡ ok request) ↔ Accepts request_id params request
  search_request_iff = (accepted, accepts)
