-- ===== src/Providers/DuckDuckGo.antt =====
-- src/search/providers/duckduckgo.rs: `DuckDuckGoProvider`. The crate scraper is a parameter: a container
-- of a page is the texts of its first title link, with the `href` of that, of its first `.result__url`
-- and of its first `.result__snippet`.
use skipjack_mcp.Base.{
  ℕ, suc, Bool, ◌||◌, Option, none, some, List, [], ◌∷◌, ◌++◌, if◌then◌else◌, any, is_empty,
}
use skipjack_mcp.Base.Text.{Text, bytes, has_substring, to_lowercase}
use skipjack_mcp.Base.Float.{F64}
use skipjack_mcp.Search.{
  ProviderError, captcha_detected, Result, ok, err, ◌>>=◌, SearchResult, SearchRequest,
  SearchResponse, web, privacy,
}
use skipjack_mcp.Server.Trim.{trim}
use skipjack_mcp.Manager.Catalog.{Provider}
use skipjack_mcp.Providers.Clients.{ProviderClientConfig, Reqwest, agent_client}
use skipjack_mcp.Providers.Http.{
  form, Reply, Http, Line, no_hint, forbidden, body_of, finish_with, rank_score, exchange,
}

abbrev pub duckduckgo_html_base_url : Text
duckduckgo_html_base_url = bytes "https://html.duckduckgo.com/html/"

abbrev pub captcha_markers : List Text
captcha_markers =
    bytes "g-recaptcha"
    ∷ bytes "grecaptcha"
    ∷ bytes "cf-challenge"
    ∷ bytes "cf_captcha"
    ∷ bytes "challenge-form"
    ∷ bytes "/cdn-cgi/l/chk"
    ∷ bytes "checking your browser"
    ∷ []

pub record DuckDuckGoProvider : Type 0 where
  pub available : Bool
  pub base_url : Text
  pub rpm : ℕ

unfoldable pub new_duckduckgo : ℕ → Bool → DuckDuckGoProvider
new_duckduckgo rpm available = record {
  available = available;
  base_url = duckduckgo_html_base_url;
  rpm = rpm;
}

abbrev pub as_provider : DuckDuckGoProvider → Provider
as_provider p = record {
  name = bytes "duckduckgo";
  description = bytes "DuckDuckGo HTML search (scraping-based, no API key required)";
  tags = web ∷ privacy ∷ [];
  is_available = p.available;
}

-- Whether a marker is in the page; which one it is, nothing reads. Letters other than those of ASCII
-- do not matter for the markers.
unfoldable pub detect_captcha : Text → Bool
detect_captcha body =
    any (λ marker. has_substring (to_lowercase body) (to_lowercase marker)) captcha_markers

pub record Container : Type 0 where
  pub title_text : Option Text
  pub title_href : Option Text
  pub url_text : Option Text
  pub snippet_text : Option Text

abbrev pub trimmed : Option Text → Text
trimmed none = []
trimmed (some text) = trim text

-- `href` of the title link, or else the text of `.result__url`.
abbrev pub url_of : Container → Text
url_of c = elim c.title_href [ some href ↦ href | none ↦ trimmed c.url_text ]

-- The body, unless it is a challenge.
unfoldable pub page_of : Reply → Result ProviderError Text
unfolding body_of detect_captcha
page_of reply = do
  body ← body_of forbidden no_hint (λ e. bytes "failed to read response body: " ++ e) reply
  if detect_captcha body then err (captcha_detected (bytes "duckduckgo")) else ok body

module _ (f64 : F64) (parse_document : Text → Result ProviderError (List Container)) where
  -- The loop over the containers, from position `i` on.
  unfoldable pub collect : ℕ → List Container → List (SearchResult (f64.Carrier))
  unfolding trim
  collect i [] = []
  collect i (c ∷ containers) =
      let rest = collect (suc i) containers in
      if is_empty (trimmed c.title_text) || is_empty (url_of c)
      then rest
      else record {
        title = trimmed c.title_text;
        url = url_of c;
        snippet = trimmed c.snippet_text;
        published_date = none;
        provider_name = bytes "duckduckgo";
        rank_score = rank_score f64 i;
      }
        ∷ rest

  unfoldable pub parse_results : Text → Result ProviderError (List (SearchResult (f64.Carrier)))
  unfolding collect
  parse_results html = do containers ← parse_document html; ok (collect 0 containers)

  -- What follows the reply.
  unfoldable pub finish :
      Http → SearchRequest → Reply → Result ProviderError (SearchResponse (f64.Carrier))
  unfolding page_of parse_results finish_with
  finish http request reply =
      finish_with http (bytes "duckduckgo") (page_of reply) parse_results request

  unfoldable pub search :
      (http : Http)
      → DuckDuckGoProvider
      → List ℕ
      → SearchRequest
      → Line http
      → Option (Result ProviderError (SearchResponse (f64.Carrier))) × Line http
  unfolding exchange finish
  search http p rounds request line =
      exchange http (bytes "duckduckgo") p.rpm rounds
        (record {
          url = p.base_url;
          headers = [];
          query = [];
          payload = form ((bytes "q", request.query) ∷ []);
        })
        (λ e. bytes "HTTP request failed: " ++ e) (finish http request) line

-- `ua` is the User-Agent that is drawn.
unfoldable pub build_client :
    (reqwest : Reqwest) → ProviderClientConfig → Text → Result ProviderError (reqwest.Client)
unfolding agent_client
build_client reqwest config ua = agent_client reqwest config ua
