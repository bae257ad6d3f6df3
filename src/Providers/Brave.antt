-- ===== src/Providers/Brave.antt =====
-- src/search/providers/brave.rs: `BraveProvider`. serde_json is a parameter.
use skipjack_mcp.Base.{
  ℕ, Bool, not, ◌&&◌, Option, none, some, List, [], ◌∷◌, ◌++◌, ltb, if◌then◌else◌, map, filter_by,
  is_empty, is_some,
}
use skipjack_mcp.Base.Text.{Text, bytes}
use skipjack_mcp.Base.Float.{F64}
use skipjack_mcp.Search.{
  ProviderError, parse_error, not_configured, Result, ok, err, Freshness, day, week, month, year,
  SearchResult, SearchRequest, SearchResponse, web,
}
use skipjack_mcp.Url.Defs.{split_first}
use skipjack_mcp.Rank.Defs.{enumerate}
use skipjack_mcp.Server.Trim.{trim}
use skipjack_mcp.Manager.Catalog.{Provider}
use skipjack_mcp.Providers.Clients.{ProviderClientConfig, Reqwest, brave_client}
use skipjack_mcp.Providers.Http.{
  get, Reply, Http, Line, retry_after_hint, unauthorized_or_forbidden, body_of, finish_with,
  rank_score, exchange,
}

abbrev pub brave_api_base_url : Text
brave_api_base_url = bytes "https://api.search.brave.com/res/v1/web/search"

pub record BraveWebResult : Type 0 where
  pub title : Text
  pub url : Text
  pub description : Text
  pub page_age : Option Text

pub record BraveProvider : Type 0 where
  pub available : Bool
  pub base_url : Text
  pub api_key : Option Text
  pub rpm : ℕ

unfoldable pub new_brave : ℕ → Option Text → BraveProvider
new_brave rpm api_key = record {
  available = is_some api_key;
  base_url = brave_api_base_url;
  api_key = api_key;
  rpm = rpm;
}

abbrev pub safe_search_param : Bool → Text
safe_search_param safe_search = if safe_search then bytes "strict" else bytes "off"

abbrev pub freshness_param : Freshness → Text
freshness_param day = bytes "pd"
freshness_param week = bytes "pw"
freshness_param month = bytes "pm"
freshness_param year = bytes "py"

abbrev pub as_provider : BraveProvider → Provider
as_provider p = record {
  name = bytes "brave";
  description = bytes "Brave Search API (API key required, free tier: 20 RPM)";
  tags = web ∷ [];
  is_available = p.available;
}

-- `request.limit.clamp(1, 20)`
abbrev pub count_param : ℕ → ℕ
count_param limit = if ltb limit 1 then 1 else if ltb 20 limit then 20 else limit

abbrev pub optional : Text → Option Text → List (Text × Text)
optional name none = []
optional name (some value) = (name, value) ∷ []

-- `number` is `to_string` of a number.
unfoldable pub params : (ℕ → Text) → SearchRequest → List (Text × Text)
params number request =
    (bytes "q", request.query)
      ∷ (bytes "count", number (count_param request.limit))
      ∷ (bytes "safesearch", safe_search_param request.safe_search)
      ∷ optional (bytes "search_lang") request.language
    ++ optional (bytes "country") request.country
    ++ optional (bytes "freshness")
        (elim request.freshness [ none ↦ none | some f ↦ some (freshness_param f) ])

unfoldable pub page_of : Reply → Result ProviderError Text
unfolding body_of
page_of reply =
    body_of unauthorized_or_forbidden retry_after_hint
      (λ e. bytes "failed to read response body: " ++ e) reply

module _ (f64 : F64) (from_str : Text → Result Text (List BraveWebResult)) where
  abbrev pub to_result : ℕ × BraveWebResult → SearchResult (f64.Carrier)
  to_result (i, r) = record {
    title = r.title;
    url = r.url;
    snippet = r.description;
    published_date = elim r.page_age [ none ↦ none | some age ↦ some (split_first b'T' age) ];
    provider_name = bytes "brave";
    rank_score = rank_score f64 i;
  }

  abbrev pub is_kept : ℕ × BraveWebResult → Bool
  is_kept (i, r) = not (is_empty r.title) && not (is_empty r.url)

  unfoldable pub parse_results : Text → Result ProviderError (List (SearchResult (f64.Carrier)))
  unfolding enumerate trim
  parse_results body = if is_empty (trim body) then ok [] else elim (from_str body) [
    | err e ↦ err (parse_error (bytes "failed to parse Brave API response: " ++ e))
    | ok results ↦ ok (map to_result (filter_by is_kept (enumerate 0 results)))
  ]

  -- What follows the reply.
  unfoldable pub finish :
      Http → SearchRequest → Reply → Result ProviderError (SearchResponse (f64.Carrier))
  unfolding page_of parse_results finish_with
  finish http request reply = finish_with http (bytes "brave") (page_of reply) parse_results request

  unfoldable pub search :
      (http : Http)
      → (ℕ → Text)
      → BraveProvider
      → List ℕ
      → SearchRequest
      → Line http
      → Option (Result ProviderError (SearchResponse (f64.Carrier))) × Line http
  unfolding exchange params finish
  search http number p rounds request line = elim p.api_key [
    | none ↦ (some (err (not_configured (bytes "Brave API key not set"))), line)
    | some api_key ↦
        exchange http (bytes "brave") p.rpm rounds
          (record {
            url = p.base_url;
            headers =
                (bytes "X-Subscription-Token", api_key)
                ∷ (bytes "Accept", bytes "application/json")
                ∷ [];
            query = params number request;
            payload = get;
          })
          (λ e. bytes "HTTP request failed: " ++ e) (finish http request) line
  ]

unfoldable pub build_client :
    (reqwest : Reqwest) → ProviderClientConfig → Result ProviderError (reqwest.Client)
unfolding brave_client
build_client reqwest config = brave_client reqwest config
