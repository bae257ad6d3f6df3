-- ===== src/Cli/Commands.antt =====
-- src/cli.rs: the conversions of arguments and the subcommands. What a command prints on its outputs is
-- not kept, but for the page that `fetch` prints; `status` and `providers` only print.
use skipjack_mcp.Base.{ℕ, ◌/◌, ◌%◌, Bool, Option, none, some, ◌++◌, ltb, if◌then◌else◌}
use skipjack_mcp.Base.Text.{Text, bytes, text_eq}
use skipjack_mcp.Number.{to_decimal}
use skipjack_mcp.Search.{Result, ok, ◌>>=◌, Freshness, day, week, month, year}
use skipjack_mcp.Fetch.Defs.{FetchError, FetchResult, max_fetch_timeout_secs}
use skipjack_mcp.Server.Request.{Request}
use skipjack_mcp.Server.Response.{Response, cache_cleared, fetch_result}
use skipjack_mcp.Cli.Client.{Failure, bail, check_response_error}

pub data FreshnessCli : Type 0 where
  day_cli : FreshnessCli
  week_cli : FreshnessCli
  month_cli : FreshnessCli
  year_cli : FreshnessCli

abbrev pub freshness_from : FreshnessCli → Freshness
freshness_from day_cli = day
freshness_from week_cli = week
freshness_from month_cli = month
freshness_from year_cli = year

pub data DispatchModeCli : Type 0 where
  concurrent : DispatchModeCli
  tiered : DispatchModeCli

abbrev pub dispatch_mode_from : DispatchModeCli → Text
dispatch_mode_from concurrent = bytes "concurrent"
dispatch_mode_from tiered = bytes "tiered"

unfoldable pub format_duration : ℕ → Text
unfolding to_decimal
format_duration secs =
    if ltb secs 60
    then to_decimal secs ++ bytes "s"
    else if ltb secs 3600
    then to_decimal (secs / 60) ++ bytes "m " ++ to_decimal (secs % 60) ++ bytes "s"
    else to_decimal (secs / 3600)
      ++ bytes "h "
      ++ to_decimal (secs % 3600 / 60)
      ++ bytes "m "
      ++ to_decimal (secs % 60)
      ++ bytes "s"

-- `send` is `send_request`, `debug` is `{:?}`, and `display` the text of the error in a result.
module _ {F : Type 0} (send : Request → Result Failure (Response F)) (debug : Response F → Text)
    (display : FetchError → Text) where
  abbrev pub cleared : Response F → Result Failure ℕ
  cleared (cache_cleared removed) = ok removed
  cleared other = bail (bytes "unexpected response type for CacheClear: " ++ debug other)

  -- The number of entries that it prints.
  unfoldable pub cmd_cache_clear : Option Text → Result Failure ℕ
  unfolding check_response_error
  cmd_cache_clear provider = do
    response ← send (Request.cache_clear provider)
    checked ← check_response_error response
    cleared checked

  -- Whether the result is printed as JSON or as the page; the page of an error is not.
  unfoldable pub fetched : Bool → Response F → Result Failure FetchResult
  unfolding to_decimal
  fetched json (fetch_result result) =
      if json
      then ok result
      else if text_eq result.status (bytes "error")
      then bail (
          bytes "fetch failed (HTTP "
          ++ to_decimal result.http_status
          ++ bytes "): "
          ++ (elim result.error [ none ↦ bytes "unknown error" | some e ↦ display e ]))
      else ok result
  fetched json other = bail (bytes "unexpected response type for Fetch: " ++ debug other)

  unfoldable pub cmd_fetch : Text → ℕ → Bool → Result Failure FetchResult
  unfolding fetched check_response_error to_decimal
  cmd_fetch url timeout_secs json =
      if ltb max_fetch_timeout_secs timeout_secs
      then bail (
          bytes "timeout "
          ++ to_decimal timeout_secs
          ++ bytes "s exceeds maximum allowed ("
          ++ to_decimal max_fetch_timeout_secs
          ++ bytes ")")
      else do
        response ← send (Request.fetch url timeout_secs)
        checked ← check_response_error response
        fetched json checked
