-- ===== src/Providers/Honest.antt =====
-- src/search/providers. What a search of a provider answers.
use skipjack_mcp.Base.{
  ℕ, Bool, true, false, ◌≡◌, refl, inl, inr, some, List, [], ◌∷◌, length, All, Option-cases,
}
use skipjack_mcp.Base.Text.{Text}
use skipjack_mcp.Base.Float.{F64}
use skipjack_mcp.Search.{
  ProviderError, Result, ok, err, SearchRequest, SearchResponse, SearchResult, Result-cases,
}
use skipjack_mcp.RateLimiter.Defs.{acquire}
use skipjack_mcp.Providers.Http.{
  HttpRequest, Reply, SendFailure, timed_out, failed, Http, Line, response_of, finish_with,
  received, exchange,
}
use skipjack_mcp.Providers.Brave.{BraveWebResult}
use skipjack_mcp.Providers.Brave as Brave
use skipjack_mcp.Providers.DuckDuckGo.{Container}
use skipjack_mcp.Providers.DuckDuckGo as DuckDuckGo
use skipjack_mcp.Providers.Jina.{JinaResult}
use skipjack_mcp.Providers.Jina as Jina
use skipjack_mcp.Providers.Searxng.{SearxngResult}
use skipjack_mcp.Providers.Searxng as Searxng
use skipjack_mcp.Providers.Backend.{
  Backend, duckduckgo, brave, jina, searxng, provider_of, Parsers, search,
}
use skipjack_mcp.Providers.Parsed.{
  IsFrom, brave_parsed, duckduckgo_parsed, jina_parsed, searxng_parsed,
}

module _ {F : Type 0} where
  -- The response is to the request, and all that it says of the provider and of its results is so.
  abbrev pub IsHonest : Bool → Text → SearchRequest → SearchResponse F → Type 0
  IsHonest checks name request response =
      (response.request_id ≡ request.request_id)
      × (response.providers_used ≡ name ∷ [])
      × (response.total_found ≡ length response.results)
      × (response.cache_hit ≡ false)
      × All (IsFrom checks name) response.results

module _ (f64 : F64) where
  open f64 use {Carrier}

  ok_inj : {E B : Type 0} {a b : B} → ◌≡◌ {A = Result E B} (ok a) (ok b) → a ≡ b
  ok_inj h = cc

  -- The end of a search, when every parsed result is the provider's.
  module _ (http : Http) (checks : Bool) (name : Text)
      (parse : Text → Result ProviderError (List (SearchResult Carrier)))
      (parsed : (body : Text) (results : List (SearchResult Carrier))
        → parse body ≡ ok results
        → All (IsFrom checks name) results)
      (request : SearchRequest) (response : SearchResponse Carrier) where
    finish-IsHonest :
        (page : Result ProviderError Text)
        → finish_with http name page parse request ≡ ok response
        → IsHonest checks name request response
    unfolding finish_with
    finish-IsHonest (err e) h = cc
    finish-IsHonest (ok body) h = elim (Result-cases (parse body)) [
      | inl (results, e) ↦
          let same : response_of http name request results ≡ response =
            let built = rw (e, finish_with) at h in cc in
          rw (← same) (refl, refl, refl, refl, parsed body results e)
      | inr (x, e) ↦ absurd (let wrong = rw (e, finish_with) at h in cc)
    ]

  some_inj : {B : Type 0} {a b : B} → some a ≡ some b → a ≡ b
  some_inj h = cc

  received_ok :
      {B : Type 0} (unsent : Text → Text) (elapsed_secs : ℕ)
      (parse : Reply → Result ProviderError B) (outcome : Result SendFailure Reply) (b : B)
      → received unsent elapsed_secs parse outcome ≡ ok b
      → (reply : Reply) × (parse reply ≡ ok b)
  received_ok unsent elapsed_secs parse (ok reply) b h = (reply, h)
  received_ok unsent elapsed_secs parse (err timed_out) b h = cc
  received_ok unsent elapsed_secs parse (err (failed e)) b h = cc

  -- A search that succeeds has had a reply.
  exchange_reply :
      {B : Type 0} (http : Http) (name : Text) (rpm : ℕ) (rounds : List ℕ) (sent : HttpRequest)
      (unsent : Text → Text) (parse : Reply → Result ProviderError B) (line : Line http) (b : B)
      → (exchange http name rpm rounds sent unsent parse line).0 ≡ some (ok b)
      → (reply : Reply) × (parse reply ≡ ok b)
  unfolding exchange
  exchange_reply http name rpm rounds sent unsent parse line b h =
      elim (Option-cases (acquire name rpm rounds line.windows).1) [
        | inl n ↦ absurd (let wrong = rw (n, exchange) at h in cc)
        | inr (at, e) ↦
            received_ok unsent http.elapsed_secs parse _ b (some_inj (rw (e, exchange) at h))
      ]

  module _ (parsers : Parsers f64) where
    -- SearXNG is the one that checks neither title nor URL.
    abbrev pub checks_results : Backend → Bool
    checks_results (duckduckgo p) = true
    checks_results (brave p) = true
    checks_results (jina p) = true
    checks_results (searxng p) = false

    -- When the search of a provider succeeds, its response has the id of the request, names
    -- the provider as the one used, counts its results and is not marked as a hit; each
    -- result names the provider, and has a title and a URL unless the provider is SearXNG.
    pub search-IsHonest :
        (http : Http) (backend : Backend) (rounds : List ℕ) (request : SearchRequest)
        (line : Line http) (response : SearchResponse Carrier)
        → (search f64 parsers http backend rounds request line).0 ≡ some (ok response)
        → IsHonest (checks_results backend) (provider_of backend).name request response
    unfolding search DuckDuckGo.search DuckDuckGo.finish Brave.search Brave.finish Jina.search
        Jina.finish Searxng.search Searxng.finish
    search-IsHonest http (duckduckgo p) rounds request line response h =
        let (reply, e) = exchange_reply http _ p.rpm rounds _ _ _ line response h in
        finish-IsHonest http true _ (DuckDuckGo.parse_results f64 parsers.duckduckgo_page)
          (duckduckgo_parsed f64 parsers) request response (DuckDuckGo.page_of reply) e
    search-IsHonest http (brave p) rounds request line response h = elim (Option-cases p.api_key) [
      | inl n ↦ absurd (let wrong = rw (n, search, Brave.search) at h in cc)
      | inr (key, k) ↦
          let (reply, e) =
            exchange_reply http _ p.rpm rounds _ _ _ line response
              (rw (k, search, Brave.search) at h) in
          finish-IsHonest http true _ (Brave.parse_results f64 parsers.brave_response)
            (brave_parsed f64 parsers) request response (Brave.page_of reply) e
    ]
    search-IsHonest http (jina p) rounds request line response h =
        let (reply, e) = exchange_reply http _ p.rpm rounds _ _ _ line response h in
        finish-IsHonest http true _ (Jina.parse_results f64 parsers.jina_response parsers.number)
          (jina_parsed f64 parsers) request response (Jina.page_of reply) e
    search-IsHonest http (searxng p) rounds request line response h =
        let (reply, e) = exchange_reply http _ p.rpm rounds _ _ _ line response h in
        finish-IsHonest http false _ (Searxng.parse_results f64 parsers.searxng_response)
          (searxng_parsed f64 parsers) request response (Searxng.page_of reply) e
