-- ===== src/Mcp/Tools.antt =====
-- src/mcp.rs: the handlers of the four tools. The arguments are those that serde_json has read, and what
-- it makes of results is a parameter; `{:?}` of a response is left out of the error for an unexpected
-- one.
use skipjack_mcp.Base.{
  ℕ, Bool, true, ◌||◌, Option, none, some, List, [], ◌∷◌, ◌++◌, ltb, ◌==◌, if◌then◌else◌, is_empty,
}
use skipjack_mcp.Base.Text.{Text, bytes, text_eq}
use skipjack_mcp.Search.{
  Result, ok, err, ◌>>=◌, Freshness, day, week, month, year, SearchRequest, SearchResponse,
}
use skipjack_mcp.Cache.Defs.{CacheStats}
use skipjack_mcp.Fetch.Defs.{FetchResult, max_fetch_timeout_secs}
use skipjack_mcp.Server.Trim.{trim}
use skipjack_mcp.Server.Request.{Request}
use skipjack_mcp.Server.Response.{
  Response, ProviderInfo, search_result, provider_list, cache_stats, fetch_result, error,
}
use skipjack_mcp.Mcp.Client.{ErrorData, unreachable_code, failed}

pub record SearchParams : Type 0 where
  pub query : Text
  pub limit : ℕ
  pub providers : List Text
  pub language : Option Text
  pub country : Option Text
  pub safe_search : Bool
  pub freshness : Option Text
  pub dispatch_mode : Option Text

abbrev pub default_limit : ℕ
default_limit = 10

abbrev pub default_safe_search : Bool
default_safe_search = true

pub record FetchParams : Type 0 where
  pub url : Text
  pub timeout_secs : ℕ

abbrev pub default_fetch_timeout_secs : ℕ
default_fetch_timeout_secs = 15

abbrev pub map_daemon_error : ℕ → ℕ
map_daemon_error code = if code == 32601 then unreachable_code else code

abbrev pub sanitized : Text
sanitized = bytes "An internal daemon error occurred"

abbrev pub invalid : Text → ErrorData
invalid message = record { code = 32602; message = message }

-- The match on the text of the freshness.
unfoldable pub freshness_of : Option Text → Result ErrorData (Option Freshness)
freshness_of none = ok none
freshness_of (some f) =
    if text_eq f (bytes "Day")
    then ok (some day)
    else if text_eq f (bytes "Week")
    then ok (some week)
    else if text_eq f (bytes "Month")
    then ok (some month)
    else if text_eq f (bytes "Year")
    then ok (some year)
    else err (
        invalid (
          bytes "Invalid freshness value '"
          ++ f
          ++ bytes "'. Must be one of: Day, Week, Month, Year"))

abbrev pub is_mode : Text → Bool
is_mode mode = text_eq mode (bytes "concurrent") || text_eq mode (bytes "tiered")

unfoldable pub check_mode : Option Text → Result ErrorData (Option Text)
check_mode none = ok none
check_mode (some mode) =
    if is_mode mode
    then ok (some mode)
    else err (
        invalid
          (bytes "Invalid dispatch_mode '" ++ mode ++ bytes "'. Must be 'concurrent' or 'tiered'"))

-- The checks of the arguments, and the request; `request_id` is a fresh UUID.
unfoldable pub search_request : (ℕ → Text) → Text → SearchParams → Result ErrorData SearchRequest
unfolding trim freshness_of check_mode
search_request number request_id params =
    if is_empty (trim params.query)
    then err (invalid (bytes "Query must not be empty"))
    else elim (freshness_of params.freshness) [
      | err e ↦ err e
      | ok freshness ↦ elim (check_mode params.dispatch_mode) [
        | err e ↦ err e
        | ok mode ↦
            if params.limit == 0 || ltb 100 params.limit
            then err
                (invalid (bytes "limit must be between 1 and 100, got " ++ number params.limit))
            else ok (record {
              request_id = request_id;
              query = params.query;
              limit = params.limit;
              providers = params.providers;
              language = params.language;
              country = params.country;
              safe_search = params.safe_search;
              freshness = freshness;
              dispatch_mode = mode;
            })
      ]
    ]

unfoldable pub fetch_request : FetchParams → Result ErrorData Request
unfolding trim
fetch_request params =
    if is_empty (trim params.url)
    then err (invalid (bytes "URL must not be empty"))
    else if params.timeout_secs == 0 || ltb max_fetch_timeout_secs params.timeout_secs
    then err (invalid (bytes "timeout_secs must be between 1 and 120 seconds"))
    else ok (Request.fetch params.url params.timeout_secs)

-- What serde_json makes of the results: the text of a tool's answer.
pub record Printers (F : Type 0) : Type 0 where
  pub search_json : SearchResponse F → Result Text Text
  pub providers_json : List (ProviderInfo F) → Result Text Text
  pub stats_json : CacheStats F → Text
  -- The result with its error replaced by a fixed text, if there is one.
  pub fetch_json : FetchResult → Option Text → Result Text Text

module _ {F : Type 0} (printers : Printers F) where
  open printers use {search_json, providers_json, stats_json, fetch_json}

  abbrev pub serialized : Text → Result Text Text → Result ErrorData Text
  serialized what (ok json) = ok json
  serialized what (err e) = err (failed what e)

  -- An error of the daemon, or a response of another kind.
  abbrev pub refused : Text → Response F → Result ErrorData Text
  refused tool (error code message) =
      err (record { code = map_daemon_error code; message = sanitized })
  refused tool other = err (record {
    code = unreachable_code;
    message = bytes "Unexpected daemon response type for " ++ tool;
  })

  unfoldable pub search_answer : Response F → Result ErrorData Text
  search_answer (search_result response) =
      serialized (bytes "Failed to serialize search response: ") (search_json response)
  search_answer other = refused (bytes "search") other

  unfoldable pub providers_answer : Response F → Result ErrorData Text
  providers_answer (provider_list []) = ok (bytes "[]")
  providers_answer (provider_list (p ∷ providers)) =
      serialized (bytes "Failed to serialize provider list: ") (providers_json (p ∷ providers))
  providers_answer other = refused (bytes "list_providers") other

  unfoldable pub stats_answer : Response F → Result ErrorData Text
  stats_answer (cache_stats stats) = ok (stats_json stats)
  stats_answer other = refused (bytes "cache_stats") other

  unfoldable pub fetch_answer : Response F → Result ErrorData Text
  fetch_answer (fetch_result result) =
      serialized (bytes "Failed to serialize fetch result: ")
        (fetch_json result (elim result.error [ none ↦ none | some e ↦ some sanitized ]))
  fetch_answer other = refused (bytes "fetch") other

  -- The tools; `send` is `send_request` of the client.
  module _ (send : Request → Result ErrorData (Response F)) (number : ℕ → Text) where
    unfoldable pub handle_search : Text → Result Text SearchParams → Result ErrorData Text
    unfolding search_request search_answer
    handle_search request_id (err e) = err (invalid (bytes "Invalid search parameters: " ++ e))
    handle_search request_id (ok params) = do
      request ← search_request number request_id params
      response ← send (Request.search request)
      search_answer response

    unfoldable pub handle_list_providers : Result ErrorData Text
    unfolding providers_answer
    handle_list_providers = send Request.list_providers >>= providers_answer

    unfoldable pub handle_cache_stats : Result ErrorData Text
    unfolding stats_answer
    handle_cache_stats = send Request.cache_stats >>= stats_answer

    unfoldable pub handle_fetch : Result Text FetchParams → Result ErrorData Text
    unfolding fetch_request fetch_answer
    handle_fetch (err e) = err (invalid (bytes "Invalid fetch parameters: " ++ e))
    handle_fetch (ok params) = do
      request ← fetch_request params
      response ← send request
      fetch_answer response
