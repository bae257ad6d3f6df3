-- ===== src/Server/Dispatch.antt =====
-- src/daemon/server.rs: `dispatch_request`, with the accessors of src/daemon/manager.rs that it uses.
-- The orders in which the maps of providers and of health states are iterated are parameters; so are
-- the version of the package and what other requests do during a search.
use skipjack_mcp.Base.{ℕ, Bool, true, false, Option, none, some, List, map, if◌then◌else◌}
use skipjack_mcp.Base.Text.{Text, bytes}
use skipjack_mcp.Base.Dict as Dict
use skipjack_mcp.Base.Float.{F64}
use skipjack_mcp.Search.{
  Tag, web, news, academic, code, privacy, finance, images, video, shopping, knowledge, playwright,
  SearchRequest,
}
use skipjack_mcp.Health.Defs.{HealthState, HealthStatus, degraded, health_score, is_healthy}
use skipjack_mcp.Health.Defs as Health
use skipjack_mcp.Ssrf.Defs.{IpAddr, IpNets, Urls}
use skipjack_mcp.Fetch.Defs.{Web, handle_fetch}
use skipjack_mcp.Cache.Defs as Cached
use skipjack_mcp.Manager.Catalog.{Provider, all_providers}
use skipjack_mcp.Manager.Choice.{HealthStates}
use skipjack_mcp.Manager.Setting.{Shared, Setting, Manager}
use skipjack_mcp.Manager.Dispatch as Searching
use skipjack_mcp.Server.Request.{
  Request, search, list_providers, cache_stats, provider_status, cache_clear, health, fetch,
  shutdown,
}
use skipjack_mcp.Server.Response.{ProviderInfo, ProviderHealth, Response}
use skipjack_mcp.Server.Response as Answer

-- `format!("{:?}", tag)`
abbrev pub tag_debug : Tag → Text
tag_debug web = bytes "Web"
tag_debug news = bytes "News"
tag_debug academic = bytes "Academic"
tag_debug code = bytes "Code"
tag_debug privacy = bytes "Privacy"
tag_debug finance = bytes "Finance"
tag_debug images = bytes "Images"
tag_debug video = bytes "Video"
tag_debug shopping = bytes "Shopping"
tag_debug knowledge = bytes "Knowledge"
tag_debug playwright = bytes "Playwright"

abbrev pub is_status_degraded : HealthStatus → Bool
is_status_degraded Health.healthy = false
is_status_degraded degraded = true
is_status_degraded Health.unhealthy = false

module _ (f64 : F64) where
  -- The fraction as a number.
  abbrev pub as_f64 : ℕ × ℕ → f64.Carrier
  as_f64 (successes, total) = f64.div (f64.of_ℕ successes) (f64.of_ℕ total)

  unfoldable pub provider_info : ℕ → HealthStates → Provider → ProviderInfo (f64.Carrier)
  unfolding health_score is_healthy
  provider_info now snapshot p =
      let known = Dict.lookup p.name snapshot in
      record {
        name = p.name;
        description = p.description;
        tags = map tag_debug p.tags;
        available = p.is_available;
        healthy = elim known [ none ↦ true | some h ↦ is_healthy h ];
        health_score = elim known [ none ↦ f64.of_ℕ 1 | some h ↦ as_f64 (health_score now h) ];
      }

  unfoldable pub provider_health : ℕ → Text × HealthState → ProviderHealth (f64.Carrier)
  unfolding health_score is_healthy
  provider_health now (name, state) = record {
    name = name;
    healthy = is_healthy state;
    degraded = is_status_degraded state.status;
    health_score = as_f64 (health_score now state);
    success_count = 0;
    failure_count = state.consecutive_failures;
    last_error = none;
  }

-- What the daemon is made of, besides its manager, and what happens around a request.
pub record Daemon (f64 : F64) (setting : Setting f64) (manager : Manager (f64.Carrier))
    : Type 1 where
  pub web : Web
  pub nets : IpNets
  pub urls : Urls
  pub resolve : Text → ℕ → Option (List IpAddr)
  pub version : Text
  pub states_order : HealthStates → HealthStates
  pub late : setting.Outside → Bool
  pub events :
      (request : SearchRequest) → List Text → List (Searching.Event f64 setting manager request)
  pub elapsed : ℕ
  -- Whether a search returns: `search_tiered` waits for the tasks of a tier without a limit, and the
  -- sort of `rank` may panic on a score that is NaN.
  pub returns : SearchRequest → Shared × setting.Outside → Bool

module _ {f64 : F64} {setting : Setting f64} {manager : Manager (f64.Carrier)}
    (daemon : Daemon f64 setting manager) where
  open setting use {Outside, instant, provider_order}

  -- The response is `none` if the search does not return or `detect_spa` panics.
  unfoldable pub dispatch_request :
      Request → Shared × Outside → Option (Response (f64.Carrier)) × (Shared × Outside)
  unfolding Searching.search all_providers provider_info provider_health Cached.stats Cached.clear
      handle_fetch
  dispatch_request (search request) (shared, outside) =
      let (response, shared', outside') =
        Searching.search f64 setting manager request daemon.late (daemon.events request)
          daemon.elapsed shared outside in
      if daemon.returns request (shared, outside)
      then (some (Answer.search_result response), (shared', outside'))
      else (none, (shared, outside))
  dispatch_request list_providers (shared, outside) = (
    some (
        Answer.provider_list (
          map (provider_info f64 (instant outside) shared.health_states)
            (all_providers provider_order manager.catalog))),
    (shared, outside),
  )
  dispatch_request cache_stats (shared, outside) =
      (some (Answer.cache_stats (Cached.stats f64 shared.cache)), (shared, outside))
  dispatch_request provider_status (shared, outside) = (
    some (
        Answer.provider_status
          (map (provider_health f64 (instant outside)) (daemon.states_order shared.health_states))),
    (shared, outside),
  )
  dispatch_request (cache_clear provider) (shared, outside) =
      let (cache, removed) = Cached.clear shared.cache provider in
      (some (Answer.cache_cleared removed), (record shared { cache = cache }, outside))
  dispatch_request (fetch url timeout_secs) (shared, outside) = (
    elim (handle_fetch daemon.web daemon.nets daemon.urls daemon.resolve url timeout_secs).0 [
      | none ↦ none
      | some result ↦ some (Answer.fetch_result result)
    ],
    (shared, outside),
  )
  dispatch_request health (shared, outside) =
      (some (Answer.health (bytes "ok") 0 daemon.version), (shared, outside))
  dispatch_request shutdown (shared, outside) = (some Answer.shutdown_ack, (shared, outside))
