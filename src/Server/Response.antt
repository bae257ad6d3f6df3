-- ===== src/Server/Response.antt =====
-- src/daemon/protocol.rs: the responses of the socket. The code of an error is its magnitude, since
-- all are negative; `data`, which the daemon never sets, is left out.
use skipjack_mcp.Base.{ℕ, Bool, Option, List}
use skipjack_mcp.Base.Text.{Text}
use skipjack_mcp.Search.{SearchResponse}
use skipjack_mcp.Fetch.Defs.{FetchResult}
use skipjack_mcp.Cache.Defs.{CacheStats}

pub record ProviderInfo (F : Type 0) : Type 0 where
  pub name : Text
  pub description : Text
  pub tags : List Text
  pub available : Bool
  pub healthy : Bool
  pub health_score : F

pub record ProviderHealth (F : Type 0) : Type 0 where
  pub name : Text
  pub healthy : Bool
  pub degraded : Bool
  pub health_score : F
  pub success_count : ℕ
  pub failure_count : ℕ
  pub last_error : Option Text

pub data Response (F : Type 0) : Type 0 where
  search_result : SearchResponse F → Response F
  provider_list : List (ProviderInfo F) → Response F
  cache_stats : CacheStats F → Response F
  provider_status : List (ProviderHealth F) → Response F
  cache_cleared : ℕ → Response F
  health : (status : Text) → (uptime_secs : ℕ) → (version : Text) → Response F
  error : (code : ℕ) → (message : Text) → Response F
  fetch_result : FetchResult → Response F
  shutdown_ack : Response F
