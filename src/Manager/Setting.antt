-- ===== src/Manager/Setting.antt =====
-- src/daemon/manager.rs: `Manager`. Its fields that change are a state that requests share; providers,
-- clocks, random numbers and serde_json are parameters, which read and change a state `Outside`.
use skipjack_mcp.Base.{ℕ, Option, List}
use skipjack_mcp.Base.Text.{Text}
use skipjack_mcp.Base.Sort.{Sorter}
use skipjack_mcp.Base.Float.{F64}
use skipjack_mcp.Search.{ProviderError, Result, SearchRequest, SearchResponse, SearchResult}
use skipjack_mcp.RateLimiter.Defs.{Windows}
use skipjack_mcp.Retry.Defs.{RetryConfig}
use skipjack_mcp.Cache.Defs.{Cache}
use skipjack_mcp.Rank.Defs.{ℤ, RankingConfig}
use skipjack_mcp.Manager.Catalog.{Provider, ProviderCatalog}
use skipjack_mcp.Manager.Choice.{HealthStates}

-- What the manager shares between requests and changes.
pub record Shared : Type 0 where
  pub cache : Cache
  pub windows : Windows
  pub health_states : HealthStates

-- The outside of the manager: its providers, clocks and source of random numbers, and the crates.
pub record Setting (f64 : F64) : Type 1 where
  pub Outside : Type 0
  pub CacheError : Type 0
  -- `Provider::search` of the provider of that name.
  pub provider_search :
      Text → SearchRequest → Outside → Result ProviderError (SearchResponse (f64.Carrier)) × Outside
  -- `now_secs` of the cache, and `Instant::now()` of the health states.
  pub now_secs : Outside → ℕ
  pub instant : Outside → ℕ
  -- The instants of the rounds of `acquire`.
  pub rounds : Outside → List ℕ × Outside
  pub random : Outside → ℕ → f64.Carrier
  pub sha256 : Text → Text
  pub from_str : Text → Result CacheError (SearchResponse (f64.Carrier))
  pub to_string : SearchResponse (f64.Carrier) → Result CacheError Text
  pub too_large : CacheError
  pub canonicalize : Text → Text
  pub age_days : Text → Option ℤ
  pub provider_order : List Provider → List Provider
  pub value_order : List (SearchResult (f64.Carrier)) → List (SearchResult (f64.Carrier))
  pub sorter : Sorter

-- The fields of `Manager` that do not change.
pub record Manager (F : Type 0) : Type 0 where
  pub catalog : ProviderCatalog
  pub retry_config : RetryConfig
  pub dispatch_mode : Text
  pub default_limit : ℕ
  pub provider_rpm : List (Text × ℕ)
  pub cache_ttl_secs : ℕ
  pub ranking : RankingConfig F
  pub provider_weights : List (Text × F)
