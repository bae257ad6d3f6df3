-- ===== src/Providers/Searxng.antt =====
-- src/search/providers/searxng.rs: `SearxngProvider`. serde_json is a parameter.
use skipjack_mcp.Base.{
  ℕ, ◌+◌, ◌-◌, ◌*◌, ◌/◌, ◌%◌, Bool, ◌&&◌, ◌||◌, Option, none, some, List, [], ◌∷◌, ◌++◌, ltb, leb,
  ◌==◌, if◌then◌else◌, map, length, is_some, unwrap_or,
}
use skipjack_mcp.Base.Text.{Text, bytes}
use skipjack_mcp.Base.Float.{F64}
use skipjack_mcp.Search.{
  ProviderError, parse_error, Result, ok, err, ◌>>=◌, Freshness, day, week, month, year,
  SearchResult, SearchRequest, SearchResponse, web, privacy,
}
use skipjack_mcp.Rank.Defs.{enumerate}
use skipjack_mcp.Manager.Catalog.{Provider}
use skipjack_mcp.Providers.Clients.{ProviderClientConfig, Reqwest, agent_client}
use skipjack_mcp.Providers.Http.{
  get, Reply, Http, Line, no_hint, forbidden, body_of, finish_with, rank_score, exchange,
}

pub record SearxngResult (F : Type 0) : Type 0 where
  pub url : Text
  pub title : Text
  pub content : Text
  pub score : Option F
  pub published_date : Option Text

pub record SearxngResponse (F : Type 0) : Type 0 where
  pub query : Text
  pub number_of_results : ℕ
  pub results : List (SearxngResult F)

pub record SearxngProvider : Type 0 where
  pub available : Bool
  pub base_url : Text
  pub rpm : ℕ

unfoldable pub new_searxng : Option Text → ℕ → SearxngProvider
new_searxng base_url rpm = record {
  available = is_some base_url;
  base_url = unwrap_or base_url [];
  rpm = rpm;
}

abbrev pub as_provider : SearxngProvider → Provider
as_provider p = record {
  name = bytes "searxng";
  description = bytes "SearXNG self-hosted metasearch engine (JSON API, no API key required)";
  tags = web ∷ privacy ∷ [];
  is_available = p.available;
}

abbrev pub is_unreserved : ℕ → Bool
is_unreserved b =
    (leb b'A' b && leb b b'Z')
    || (leb b'a' b && leb b b'z')
    || (leb b'0' b && leb b b'9')
    || b == b'-'
    || b == b'_'
    || b == b'.'
    || b == b'~'

-- A digit of `{:02X}`.
abbrev pub hex_digit : ℕ → ℕ
hex_digit d = if ltb d 10 then b'0' + d else b'A' + d - 10

abbrev pub encode_byte : ℕ → Text
encode_byte b =
    if is_unreserved b
    then b ∷ []
    else if b == b' '
    then bytes "%20"
    else b'%' ∷ hex_digit (b / 16) ∷ hex_digit (b % 16) ∷ []

unfoldable pub urlencoding : Text → Text
urlencoding [] = []
urlencoding (b ∷ s) = encode_byte b ++ urlencoding s

abbrev pub time_range : Freshness → Text
time_range day = bytes "day"
time_range week = bytes "week"
time_range month = bytes "month"
time_range year = bytes "year"

unfoldable pub build_search_url : SearxngProvider → SearchRequest → Text
unfolding urlencoding
build_search_url p request =
    p.base_url
    ++ bytes "/search?q="
    ++ urlencoding request.query
    ++ bytes "&format=json"
    ++ (elim request.language [ none ↦ [] | some lang ↦ bytes "&language=" ++ urlencoding lang ])
    ++ (if request.safe_search then bytes "&safesearch=2" else [])
    ++ (elim request.freshness [ none ↦ [] | some f ↦ bytes "&time_range=" ++ time_range f ])

-- The body, unless it is longer than 10 MB.
abbrev pub within_limit : Text → Result ProviderError Text
within_limit body =
    if ltb (10 * 1024 * 1024) (length body)
    then err (parse_error (bytes "response body too large"))
    else ok body

unfoldable pub page_of : Reply → Result ProviderError Text
unfolding body_of
page_of reply = do
  body ← body_of forbidden no_hint (λ e. bytes "failed to read SearXNG response body") reply
  within_limit body

module _ (f64 : F64) (from_str : Text → Result Text (SearxngResponse (f64.Carrier))) where
  abbrev pub to_result : ℕ × SearxngResult (f64.Carrier) → SearchResult (f64.Carrier)
  to_result (i, r) = record {
    title = r.title;
    url = r.url;
    snippet = r.content;
    published_date = r.published_date;
    provider_name = bytes "searxng";
    rank_score = unwrap_or r.score (rank_score f64 i);
  }

  unfoldable pub parse_results : Text → Result ProviderError (List (SearchResult (f64.Carrier)))
  unfolding enumerate
  parse_results json = elim (from_str json) [
    | err e ↦ err (parse_error (bytes "failed to parse SearXNG JSON response: " ++ e))
    | ok response ↦ ok (map to_result (enumerate 0 response.results))
  ]

  -- What follows the reply.
  unfoldable pub finish :
      Http → SearchRequest → Reply → Result ProviderError (SearchResponse (f64.Carrier))
  unfolding page_of parse_results finish_with
  finish http request reply =
      finish_with http (bytes "searxng") (page_of reply) parse_results request

  unfoldable pub search :
      (http : Http)
      → SearxngProvider
      → List ℕ
      → SearchRequest
      → Line http
      → Option (Result ProviderError (SearchResponse (f64.Carrier))) × Line http
  unfolding exchange finish build_search_url
  search http p rounds request line =
      exchange http (bytes "searxng") p.rpm rounds
        (record { url = build_search_url p request; headers = []; query = []; payload = get })
        (λ e. bytes "SearXNG HTTP request failed") (finish http request) line

-- `ua` is the User-Agent that is drawn.
unfoldable pub build_client :
    (reqwest : Reqwest) → ProviderClientConfig → Text → Result ProviderError (reqwest.Client)
unfolding agent_client
build_client reqwest config ua = agent_client reqwest config ua
