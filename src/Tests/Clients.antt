-- ===== src/Tests/Clients.antt =====
-- The clients and the answers of the providers at concrete inputs.
use mathlib.Core.List.{Permᴰ}
use mathlib.Core.List.Permᴰ
use skipjack_mcp.Base.{
  ℕ, suc, ◌≡◌, refl, true, none, some, List, [], ◌∷◌, All, ◌==◌, ◌%◌, is_empty, arith,
  if◌then◌else◌,
}
use skipjack_mcp.Base.Text.{Text, bytes}
use skipjack_mcp.Base.Dict as Dict
use skipjack_mcp.Base.Float.{whole}
use skipjack_mcp.Search.{
  ProviderError, internal, day, Result, ok, err, SearchRequest, SearchResponse, SearchResult,
}
use skipjack_mcp.Client.Rotating.{RotatingClient, client}
use skipjack_mcp.Client.Rotating as Rotating
use skipjack_mcp.Client.Rotations.{build, latest, rebuilds, requests, fresh, client-latest}
use skipjack_mcp.Client.Tls.{Rustls}
use skipjack_mcp.Providers.Searxng.{urlencoding}
use skipjack_mcp.Providers.Backend.{Parsers, duckduckgo, provider_of, search}
use skipjack_mcp.Providers.DuckDuckGo.{
  Container, collect, detect_captcha, new_duckduckgo, page_of, parse_results,
}
use skipjack_mcp.Providers.DuckDuckGo as DuckDuckGo
use skipjack_mcp.Providers.Honest.{IsHonest, checks_results, search-IsHonest}
use skipjack_mcp.Providers.Http.{Http, Line, body_of, exchange, finish_with, response_of}
use skipjack_mcp.RateLimiter.Defs.{acquire, critical, prune, round}
use skipjack_mcp.Server.Trim.{trim}
use skipjack_mcp.Providers.Escaped.{percent_decode, is_inert, urlencoding-decode}

-- The second build fails, and so does every later one of an even number.
abbrev outcomes : ℕ → Result ProviderError ℕ
outcomes n = if n % 2 == 1 then err (internal (bytes "no sockets")) else ok n

client-latest_example :
    (Rotating.new (build outcomes 0) 2 0 ≡ (ok (fresh outcomes 0 2), 1))
    × ((client
          (build outcomes 0)
          (requests outcomes 0 4 (fresh outcomes 0 2, 1)).0
          (requests outcomes 0 4 (fresh outcomes 0 2, 1)).1).0
        ≡ latest outcomes 0 (rebuilds 2 5))
    × ((client
          (build outcomes 0)
          (requests outcomes 0 4 (fresh outcomes 0 2, 1)).0
          (requests outcomes 0 4 (fresh outcomes 0 2, 1)).1).1.1
        ≡ suc (rebuilds 2 5))
client-latest_example = client-latest outcomes 0 2 4 refl (ground arith)

-- The first and the last of five suites change places where the list allows it.
abbrev swap : List ℕ → List ℕ
swap [] = []
swap (a ∷ []) = a ∷ []
swap (a ∷ b ∷ suites) = b ∷ a ∷ suites

abbrev rustls : Rustls
rustls = record {
  Suite = ℕ;
  Cert = Text;
  RootCertStore = List Text;
  ClientConfig = List ℕ × List Text;
  cipher_suites = 1 ∷ 2 ∷ 3 ∷ 4 ∷ 5 ∷ [];
  shuffle = swap;
  native_certs = bytes "root" ∷ [];
  native_errors = [];
  debug_errors = λ errors. bytes "errors";
  empty_store = [];
  add = λ store cert. ok (cert ∷ store);
  is_store_empty = is_empty;
  builder = λ suites store. ok (suites, store);
}

urlencoding-decode_example :
    (percent_decode (urlencoding (bytes "a b/c?")) ≡ bytes "a b/c?")
    × All (λ c. is_inert c ≡ true) (urlencoding (bytes "a b/c?"))
urlencoding-decode_example = urlencoding-decode (bytes "a b/c?") (ground arith)

abbrev request : SearchRequest
request = record {
  request_id = bytes "r";
  query = bytes "rust";
  limit = 100;
  providers = [];
  language = none;
  country = none;
  safe_search = true;
  freshness = some day;
  dispatch_mode = some (bytes "tiered");
}

-- A page with a container that has no title, and one that has.
abbrev container : Text → Container
container title = record {
  title_text = some title;
  title_href = some (bytes "https://example.com");
  url_text = none;
  snippet_text = none;
}

abbrev parsers : Parsers whole
parsers = record {
  brave_response = λ text. err text;
  duckduckgo_page = λ text. ok (container [] ∷ container (bytes " t ") ∷ []);
  jina_response = λ text. err text;
  searxng_response = λ text. err text;
  number = λ n. [];
}

abbrev http : Http
http = record {
  Client = Text;
  Builder = ℕ;
  build_client = λ n. (ok (bytes "client"), suc n);
  send = λ sender sent. ok (record {
    status = 200;
    canonical_reason = some (bytes "OK");
    retry_after = none;
    body = ok (bytes "page");
  });
  elapsed_secs = 0;
  elapsed_ms = 12;
}

abbrev line : Line http
line = record {
  windows = [];
  rotating = record { current = bytes "client"; counter = 0; threshold = 0 };
  builder = 1;
}

abbrev found : SearchResult ℕ
found = record {
  title = bytes "t";
  url = bytes "https://example.com";
  snippet = [];
  published_date = none;
  provider_name = bytes "duckduckgo";
  rank_score = whole.div 1 2;
}

abbrev answered : SearchResponse ℕ
answered = response_of http (bytes "duckduckgo") request (found ∷ [])

search_done :
    (search whole parsers http (duckduckgo (new_duckduckgo 30 true)) (7 ∷ []) request line).0
    ≡ some (ok answered)
unfolding search DuckDuckGo.search exchange DuckDuckGo.finish page_of parse_results finish_with
    body_of detect_captcha collect new_duckduckgo acquire round critical prune client trim
    Dict.lookup
search_done = refl

search-IsHonest_example :
    IsHonest
      (checks_results whole parsers (duckduckgo (new_duckduckgo 30 true)))
      (provider_of (duckduckgo (new_duckduckgo 30 true))).name
      request
      answered
search-IsHonest_example =
    search-IsHonest whole parsers http (duckduckgo (new_duckduckgo 30 true)) (7 ∷ []) request line
      answered search_done
