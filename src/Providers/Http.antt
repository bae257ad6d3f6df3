-- ===== src/Providers/Http.antt =====
-- What the four providers of src/search/providers share: the request that they send, what comes back, and
-- the steps of `search` around it. The crates reqwest and serde_json are parameters; a header that is
-- read is an `Option` of its text.
use skipjack_mcp.Base.{
  ℕ, ◌+◌, ◌^◌, Bool, false, ◌&&◌, ◌||◌, Option, none, some, List, [], ◌∷◌, leb, ltb, ◌==◌,
  if◌then◌else◌, length, unwrap_or,
}
use skipjack_mcp.Base.Text.{Text, bytes}
use skipjack_mcp.Base.Float.{F64}
use skipjack_mcp.Number.{parse_unsigned}
use skipjack_mcp.Search.{
  ProviderError, http_error, rate_limited, access_denied, timeout, internal, Result, ok, err, ◌>>=◌,
  SearchResult, SearchRequest, SearchResponse,
}
use skipjack_mcp.RateLimiter.Defs.{Windows, acquire}
use skipjack_mcp.Client.Rotating as Rotating
use skipjack_mcp.Client.Rotating.{RotatingClient}

pub data Payload : Type 0 where
  get : Payload
  form : List (Text × Text) → Payload
  json_body : (query : Text) → (limit : ℕ) → Payload

pub record HttpRequest : Type 0 where
  pub url : Text
  pub headers : List (Text × Text)
  pub query : List (Text × Text)
  pub payload : Payload

-- The status with its canonical reason, the header `Retry-After`, and the body or the error in it.
pub record Reply : Type 0 where
  pub status : ℕ
  pub canonical_reason : Option Text
  pub retry_after : Option Text
  pub body : Result Text Text

pub data SendFailure : Type 0 where
  timed_out : SendFailure
  failed : Text → SendFailure

-- The crates, and the clocks of a search.
pub record Http : Type 1 where
  pub Client : Type 0
  pub Builder : Type 0
  pub build_client : Builder → Result ProviderError Client × Builder
  pub send : Client → HttpRequest → Result SendFailure Reply
  pub elapsed_secs : ℕ
  pub elapsed_ms : ℕ

-- What a search reads and changes: the rate limiter of all providers, and the provider's client.
pub record Line (http : Http) : Type 0 where
  pub windows : Windows
  pub rotating : RotatingClient (http.Client)
  pub builder : http.Builder

-- `response.headers().get("Retry-After")` and its number of seconds.
abbrev pub retry_after_hint : Reply → Option ℕ
retry_after_hint reply = elim reply.retry_after [ none ↦ none | some v ↦ parse_unsigned (2 ^ 64) v ]

abbrev pub no_hint : Reply → Option ℕ
no_hint reply = none

abbrev pub is_success : ℕ → Bool
is_success status = leb 200 status && ltb status 300

abbrev pub unauthorized_or_forbidden : ℕ → Bool
unauthorized_or_forbidden status = status == 401 || status == 403

abbrev pub forbidden : ℕ → Bool
forbidden status = status == 403

-- The checks of the status, and the body.
unfoldable pub body_of :
    (ℕ → Bool) → (Reply → Option ℕ) → (Text → Text) → Reply → Result ProviderError Text
body_of is_denied hint unreadable reply =
    if is_denied reply.status
    then err access_denied
    else if reply.status == 429
    then err (rate_limited (hint reply))
    else if is_success reply.status
    then elim reply.body [ ok body ↦ ok body | err e ↦ err (internal (unreadable e)) ]
    else err (http_error reply.status (unwrap_or reply.canonical_reason (bytes "Unknown")))

-- The response of a search that found these results.
abbrev pub response_of :
    {F : Type 0} → Http → Text → SearchRequest → List (SearchResult F) → SearchResponse F
response_of http name request results = record {
  request_id = request.request_id;
  results = results;
  total_found = length results;
  providers_used = name ∷ [];
  cache_hit = false;
  elapsed_ms = http.elapsed_ms;
}

-- `1.0 / ((i + 1) as f64)`
abbrev pub rank_score : (f64 : F64) → ℕ → f64.Carrier
rank_score f64 i = f64.div (f64.of_ℕ 1) (f64.of_ℕ (i + 1))

-- The end of a search: the page, its results and the response.
unfoldable pub finish_with :
    {F : Type 0}
    → Http
    → Text
    → Result ProviderError Text
    → (Text → Result ProviderError (List (SearchResult F)))
    → SearchRequest
    → Result ProviderError (SearchResponse F)
finish_with http name page parse request = do
  body ← page
  results ← parse body
  ok (response_of http name request results)

-- What follows the request.
abbrev pub received :
    {A : Type 0}
    → (Text → Text)
    → ℕ
    → (Reply → Result ProviderError A)
    → Result SendFailure Reply
    → Result ProviderError A
received unsent elapsed_secs parse (ok reply) = parse reply
received unsent elapsed_secs parse (err timed_out) = err (timeout elapsed_secs)
received unsent elapsed_secs parse (err (failed e)) = err (internal (unsent e))

-- A slot of the rate limiter, the client, and the request; `parse` is what follows the reply. No result
-- stands for a search that never gets its slot.
unfoldable pub exchange :
    {A : Type 0} (http : Http)
    → Text
    → ℕ
    → List ℕ
    → HttpRequest
    → (Text → Text)
    → (Reply → Result ProviderError A)
    → Line http
    → Option (Result ProviderError A) × Line http
exchange http name rpm rounds request unsent parse line =
    let (windows, turn) = acquire name rpm rounds line.windows in
    let (client, (rotating, builder)) =
      Rotating.client http.build_client line.rotating line.builder in
    elim turn [
      | none ↦ (none, record line { windows = windows })
      | some at ↦ (
        some (received unsent http.elapsed_secs parse (http.send client request)),
        record { windows = windows; rotating = rotating; builder = builder },
      )
    ]
