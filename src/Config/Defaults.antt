-- ===== src/Config/Defaults.antt =====
-- src/config.rs: the defaults of the configuration. The home directory is a parameter: `none` where there
-- is none.
use skipjack_mcp.Base.{true, false, Option, none, [], ◌++◌, unwrap_or}
use skipjack_mcp.Base.Text.{Text, bytes}
use skipjack_mcp.Base.Float.{F64}
use skipjack_mcp.Rank.Defs.{RankingConfig, RankingDimension, FreshnessBonusDimension}
use skipjack_mcp.Config.Agents.{default_user_agents}
use skipjack_mcp.Config.Defs.{
  DaemonConfig, CacheConfig, SearchConfig, DispatchConfig, AntiBlockingConfig, ProviderConfig,
  TierDef, TierConfig, Config,
}

abbrev pub daemon_default : DaemonConfig
daemon_default = record {
  name = bytes "skipjackd";
  socket_dir = bytes "/tmp";
  pid_dir = bytes "/tmp";
  shutdown_grace_period_secs = 30;
  log_level = bytes "info";
  log_file = [];
}

-- A path of the home directory, which does not end in `/`.
abbrev pub default_cache_db_path : Option Text → Text
default_cache_db_path home = unwrap_or home (bytes ".") ++ bytes "/.cache/skipjackd/cache.db"

abbrev pub cache_default : Option Text → CacheConfig
cache_default home = record {
  db_path = default_cache_db_path home;
  default_ttl_secs = 3600;
  eviction_interval_secs = 300;
}

abbrev pub search_default : SearchConfig
search_default = record {
  default_limit = 10;
  max_limit = 100;
  request_timeout_secs = 60;
  unhealthy_recovery_cooldown_secs = 900;
}

abbrev pub dispatch_default : DispatchConfig
dispatch_default = record { mode = bytes "concurrent" }

unfoldable pub anti_blocking_default : AntiBlockingConfig
unfolding default_user_agents
anti_blocking_default = record {
  user_agents = default_user_agents;
  page_delay_min_ms = 500;
  page_delay_max_ms = 2000;
  retry_base_delay_secs = 1;
  retry_max_attempts = 3;
  retry_cap_secs = 60;
}

abbrev pub tier_def_default : TierDef
tier_def_default = record { providers = []; timeout_secs = 10 }

abbrev pub tier_default : TierConfig
tier_default = record { order = []; tiers = [] }

abbrev pub provider_default : {F : Type 0} → ProviderConfig F
provider_default = record {
  name = [];
  enabled = true;
  api_key = none;
  api_key_env = none;
  base_url = none;
  timeout_secs = none;
  weight = none;
  cache_ttl_secs = none;
  tls_shuffle_ciphers = none;
  ip_rotation_strategy = none;
  ipv6_subnet = none;
  proxies = none;
  rate_limit_rpm = none;
  retry_max_attempts = none;
  tags = none;
  tls_rotate_every = none;
}

module _ (f64 : F64) where
  open f64 use {Carrier, of_ℕ}

  abbrev pub dimension_default : RankingDimension Carrier
  dimension_default = record { enabled = false; weight = of_ℕ 0 }

  abbrev pub freshness_default : FreshnessBonusDimension Carrier
  freshness_default = record { enabled = false; weight = of_ℕ 0; window_days = 7 }

  abbrev pub ranking_default : RankingConfig Carrier
  ranking_default = record {
    provider_reputation = record { enabled = false; weight = of_ℕ 1 };
    result_position = record { enabled = true; weight = of_ℕ 1 };
    freshness_bonus = record { enabled = false; weight = of_ℕ 0; window_days = 7 };
  }

  unfoldable pub config_default : Option Text → Config Carrier
  unfolding anti_blocking_default
  config_default home = record {
    daemon = daemon_default;
    cache = cache_default home;
    search = search_default;
    dispatch = dispatch_default;
    anti_blocking = anti_blocking_default;
    ranking = ranking_default;
    providers = [];
    tiers = tier_default;
  }
