-- ===== src/Config/Defs.antt =====
-- src/config.rs: the structs of the configuration. A `HashMap` with numbers as keys is an association
-- list.
use skipjack_mcp.Base.{ℕ, Bool, Option, List}
use skipjack_mcp.Base.Text.{Text}
use skipjack_mcp.Rank.Defs.{RankingConfig}

pub record DaemonConfig : Type 0 where
  pub name : Text
  pub socket_dir : Text
  pub pid_dir : Text
  pub shutdown_grace_period_secs : ℕ
  pub log_level : Text
  pub log_file : Text

pub record CacheConfig : Type 0 where
  pub db_path : Text
  pub default_ttl_secs : ℕ
  pub eviction_interval_secs : ℕ

pub record SearchConfig : Type 0 where
  pub default_limit : ℕ
  pub max_limit : ℕ
  pub request_timeout_secs : ℕ
  pub unhealthy_recovery_cooldown_secs : ℕ

pub record DispatchConfig : Type 0 where
  pub mode : Text

pub record AntiBlockingConfig : Type 0 where
  pub user_agents : List Text
  pub page_delay_min_ms : ℕ
  pub page_delay_max_ms : ℕ
  pub retry_base_delay_secs : ℕ
  pub retry_max_attempts : ℕ
  pub retry_cap_secs : ℕ

pub record ProviderConfig (F : Type 0) : Type 0 where
  pub name : Text
  pub enabled : Bool
  pub api_key : Option Text
  pub api_key_env : Option Text
  pub base_url : Option Text
  pub timeout_secs : Option ℕ
  pub weight : Option F
  pub cache_ttl_secs : Option ℕ
  pub tls_shuffle_ciphers : Option Bool
  pub ip_rotation_strategy : Option Text
  pub ipv6_subnet : Option Text
  pub proxies : Option (List Text)
  pub rate_limit_rpm : Option ℕ
  pub retry_max_attempts : Option ℕ
  pub tags : Option (List Text)
  pub tls_rotate_every : Option ℕ

pub record TierDef : Type 0 where
  pub providers : List Text
  pub timeout_secs : ℕ

pub record TierConfig : Type 0 where
  pub order : List ℕ
  pub tiers : List (ℕ × TierDef)

pub record Config (F : Type 0) : Type 0 where
  pub daemon : DaemonConfig
  pub cache : CacheConfig
  pub search : SearchConfig
  pub dispatch : DispatchConfig
  pub anti_blocking : AntiBlockingConfig
  pub ranking : RankingConfig F
  pub providers : List (ProviderConfig F)
  pub tiers : TierConfig
