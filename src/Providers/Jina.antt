-- ===== src/Providers/Jina.antt =====
-- src/search/providers/jina.rs: `JinaProvider`. serde_json is a parameter. The header with the API key is
-- set by the client that the provider's closure builds.
use skipjack_mcp.Base.{
  ℕ, suc, Bool, not, ◌||◌, Option, none, some, List, [], ◌∷◌, ◌++◌, ◌==◌, if◌then◌else◌, is_empty,
  unwrap_or,
}
use skipjack_mcp.Base.Text.{Text, bytes}
use skipjack_mcp.Base.Float.{F64}
use skipjack_mcp.Search.{
  ProviderError, http_error, parse_error, Result, ok, err, SearchResult, SearchRequest,
  SearchResponse, web,
}
use skipjack_mcp.Server.Trim.{trim}
use skipjack_mcp.Manager.Catalog.{Provider}
use skipjack_mcp.Providers.Clients.{ProviderClientConfig, Reqwest, jina_client}
use skipjack_mcp.Providers.Http.{
  json_body, Reply, Http, Line, retry_after_hint, unauthorized_or_forbidden, body_of, finish_with,
  rank_score, exchange,
}

abbrev pub jina_default_base_url : Text
jina_default_base_url = bytes "https://s.jina.ai"

pub record JinaResult : Type 0 where
  pub title : Option Text
  pub url : Option Text
  pub description : Option Text
  pub published_date : Option Text

pub record JinaResponse : Type 0 where
  pub code : ℕ
  pub data_of : List JinaResult

pub record JinaProvider : Type 0 where
  pub available : Bool
  pub base_url : Text
  pub api_key : Text
  pub rpm : ℕ

unfoldable pub new_jina : ℕ → Option Text → Option Text → JinaProvider
new_jina rpm api_key base_url = record {
  available = not (is_empty (unwrap_or api_key []));
  base_url = unwrap_or base_url jina_default_base_url;
  api_key = unwrap_or api_key [];
  rpm = rpm;
}

abbrev pub as_provider : JinaProvider → Provider
as_provider p = record {
  name = bytes "jina";
  description = bytes "Jina AI search (API-based, API key required, 100 RPM free tier)";
  tags = web ∷ [];
  is_available = p.available;
}

abbrev pub trimmed : Option Text → Text
trimmed text = trim (unwrap_or text [])

-- `filter(|d| !d.is_empty())`
abbrev pub non_empty : Option Text → Option Text
non_empty none = none
non_empty (some d) = if is_empty d then none else some d

unfoldable pub page_of : Reply → Result ProviderError Text
unfolding body_of
page_of reply =
    body_of unauthorized_or_forbidden retry_after_hint
      (λ e. bytes "failed to read response body: " ++ e) reply

module _ (f64 : F64) (from_str : Text → Result Text JinaResponse) (number : ℕ → Text) where
  -- The loop over the items, from position `i` on.
  unfoldable pub collect : ℕ → List JinaResult → List (SearchResult (f64.Carrier))
  unfolding trim
  collect i [] = []
  collect i (item ∷ items) =
      let rest = collect (suc i) items in
      if is_empty (trimmed item.title) || is_empty (trimmed item.url)
      then rest
      else record {
        title = trimmed item.title;
        url = trimmed item.url;
        snippet = trimmed item.description;
        published_date = non_empty item.published_date;
        provider_name = bytes "jina";
        rank_score = rank_score f64 i;
      }
        ∷ rest

  unfoldable pub parse_results : Text → Result ProviderError (List (SearchResult (f64.Carrier)))
  unfolding collect
  parse_results json = elim (from_str json) [
    | err e ↦ err (parse_error (bytes "failed to parse Jina JSON response: " ++ e))
    | ok response ↦
        if response.code == 200
        then ok (collect 0 response.data_of)
        else err (
            http_error response.code
              (bytes "Jina API returned non-200 code: " ++ number response.code))
  ]

  -- What follows the reply.
  unfoldable pub finish :
      Http → SearchRequest → Reply → Result ProviderError (SearchResponse (f64.Carrier))
  unfolding page_of parse_results finish_with
  finish http request reply = finish_with http (bytes "jina") (page_of reply) parse_results request

  unfoldable pub search :
      (http : Http)
      → JinaProvider
      → List ℕ
      → SearchRequest
      → Line http
      → Option (Result ProviderError (SearchResponse (f64.Carrier))) × Line http
  unfolding exchange finish
  search http p rounds request line =
      exchange http (bytes "jina") p.rpm rounds
        (record {
          url = p.base_url;
          headers =
              (bytes "content-type", bytes "application/json")
              ∷ (bytes "accept", bytes "application/json")
              ∷ [];
          query = [];
          payload = json_body request.query request.limit;
        })
        (λ e. bytes "HTTP request failed: " ++ e) (finish http request) line

-- `ua` is the User-Agent that is drawn.
unfoldable pub build_client :
    (reqwest : Reqwest)
    → JinaProvider
    → ProviderClientConfig
    → Text
    → Result ProviderError (reqwest.Client)
unfolding jina_client
build_client reqwest p config ua =
    jina_client reqwest config (not (is_empty p.api_key)) p.api_key ua
