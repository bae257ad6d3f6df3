-- ===== src/Manager/New.antt =====
-- src/daemon/manager.rs: `Manager::new`. The opening of the cache is a parameter.
use skipjack_mcp.Base.{ℕ, ◌*◌, true, false, List, [], ◌∷◌, unwrap_or}
use skipjack_mcp.Base.Text.{Text}
use skipjack_mcp.Base.Dict as Dict
use skipjack_mcp.Base.Float.{F64}
use skipjack_mcp.Search.{ProviderError, Result, ok, err}
use skipjack_mcp.Retry.Defs.{RetryConfig}
use skipjack_mcp.Health.Defs as Health
use skipjack_mcp.Cache.Defs.{Cache}
use skipjack_mcp.Client.Rotating.{RotatingClient}
use skipjack_mcp.Config.Defs.{AntiBlockingConfig, ProviderConfig, Config}
use skipjack_mcp.Providers.Clients.{ProviderClientConfig, Reqwest}
use skipjack_mcp.Providers.Backend.{Backend, provider_of, create_provider}
use skipjack_mcp.Manager.Catalog.{ProviderCatalog, register}
use skipjack_mcp.Manager.Choice.{HealthStates}
use skipjack_mcp.Manager.Setting.{Shared, Manager}

-- `RetryConfig::from`
abbrev pub retry_config_from : AntiBlockingConfig → RetryConfig
retry_config_from c = record {
  base_delay_secs = c.retry_base_delay_secs;
  max_attempts = c.retry_max_attempts;
  cap_secs = c.retry_cap_secs;
}

abbrev pub client_config_of : {F : Type 0} → ProviderConfig F → ProviderClientConfig
client_config_of cfg = record {
  tls_shuffle_ciphers = unwrap_or cfg.tls_shuffle_ciphers false;
  ip_rotation_strategy = cfg.ip_rotation_strategy;
  ipv6_subnet = cfg.ipv6_subnet;
  proxies = cfg.proxies;
  timeout_secs = cfg.timeout_secs;
  tls_rotate_every = cfg.tls_rotate_every;
}

abbrev pub consecutive_failure_threshold : ℕ
consecutive_failure_threshold = 3

-- The maps that the loop fills; `backends` are the providers themselves, with their clients.
pub record Registered (F C : Type 0) : Type 0 where
  pub catalog : ProviderCatalog
  pub health_states : HealthStates
  pub provider_rpm : List (Text × ℕ)
  pub provider_weights : List (Text × F)
  pub backends : List (Text × (Backend × RotatingClient C))

abbrev pub nothing_registered : {F C : Type 0} → Registered F C
nothing_registered = record {
  catalog = [];
  health_states = [];
  provider_rpm = [];
  provider_weights = [];
  backends = [];
}

-- A nanosecond clock: the cooldown in its unit.
abbrev pub cooldown_of : {F : Type 0} → Config F → ℕ
cooldown_of config = config.search.unhealthy_recovery_cooldown_secs * 1_000_000_000

module _ {A : Type 0} (f64 : F64) (reqwest : Reqwest) (display : ProviderError → Text)
    (random_ua : A → Text × A) where
  open f64 use {Carrier, of_ℕ}
  open reqwest use {Client}

  abbrev pub rpm_of : ProviderConfig Carrier → ℕ
  rpm_of cfg = unwrap_or cfg.rate_limit_rpm 30

  -- The provider of a configuration joins the maps.
  unfoldable pub add :
      ℕ
      → ProviderConfig Carrier
      → Backend × RotatingClient Client
      → Registered Carrier Client
      → Registered Carrier Client
  unfolding register
  add cooldown cfg (backend, rotating) r =
      let provider = provider_of backend in
      record {
        catalog = register r.catalog provider;
        health_states =
            Dict.insert provider.name (Health.new consecutive_failure_threshold cooldown)
              r.health_states;
        provider_rpm = Dict.insert cfg.name (rpm_of cfg) r.provider_rpm;
        provider_weights = Dict.insert cfg.name (unwrap_or cfg.weight (of_ℕ 1)) r.provider_weights;
        backends = Dict.insert provider.name (backend, rotating) r.backends;
      }

  -- The loop over the providers of the configuration.
  unfoldable pub register_all :
      ℕ
      → List (ProviderConfig Carrier)
      → Registered Carrier Client
      → A
      → Result Text (Registered Carrier Client) × A
  unfolding create_provider add
  register_all cooldown [] r agents = (ok r, agents)
  register_all cooldown (cfg ∷ cfgs) r agents = elim cfg.enabled [
    | false ↦ register_all cooldown cfgs r agents
    | true ↦
        let (made, agents') =
          create_provider reqwest display random_ua cfg (client_config_of cfg) (rpm_of cfg)
            agents in
        elim made [
          | err e ↦ (err e, agents')
          | ok b ↦ register_all cooldown cfgs (add cooldown cfg b r) agents'
        ]
  ]

  -- The manager, what it shares, and the providers.
  abbrev pub Made : Type 0
  Made = Manager Carrier × Shared × List (Text × (Backend × RotatingClient Client))

  abbrev pub assemble : Config Carrier → Cache → Registered Carrier Client → Made
  assemble config cache r = (
    record {
      catalog = r.catalog;
      retry_config = retry_config_from config.anti_blocking;
      dispatch_mode = config.dispatch.mode;
      default_limit = config.search.default_limit;
      provider_rpm = r.provider_rpm;
      cache_ttl_secs = config.cache.default_ttl_secs;
      ranking = config.ranking;
      provider_weights = r.provider_weights;
    },
    record { cache = cache; windows = []; health_states = r.health_states },
    r.backends,
  )

  unfoldable pub new : Result Text Cache → Config Carrier → A → Result Text Made × A
  unfolding register_all
  new opened config agents = elim opened [
    | err e ↦ (err e, agents)
    | ok cache ↦
        let (registered, agents') =
          register_all (cooldown_of config) config.providers nothing_registered agents in
        (elim registered [ err e ↦ err e | ok r ↦ ok (assemble config cache r) ], agents')
  ]
