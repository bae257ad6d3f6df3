-- ===== src/Manager/Pipeline.antt =====
-- src/daemon/manager.rs: `execute_provider_pipeline`, and the task that a dispatch spawns for a
-- provider.
use skipjack_mcp.Base.{ℕ, Option, none, some, List, [], ◌∷◌, ◌++◌, unwrap_or}
use skipjack_mcp.Base.Text.{Text, bytes}
use skipjack_mcp.Base.Dict as Dict
use skipjack_mcp.Base.Float.{F64}
use skipjack_mcp.Search.{ProviderError, internal, Result, ok, err, SearchRequest, SearchResponse}
use skipjack_mcp.RateLimiter.Defs.{Windows, acquire}
use skipjack_mcp.Retry.Defs.{done, panicked, provider_classify, retry_with_backoff}
use skipjack_mcp.Health.Defs.{HealthState, record_success, record_failure}
use skipjack_mcp.Cache.Keys.{cache_key, provider_list_string}
use skipjack_mcp.Cache.Defs as Cached
use skipjack_mcp.Cache.Defs.{Cache, as_hit}
use skipjack_mcp.Manager.Catalog.{Provider, ProviderCatalog}
use skipjack_mcp.Manager.Catalog as Catalog
use skipjack_mcp.Manager.Setting.{Shared, Setting, Manager}

module _ (f64 : F64) (setting : Setting f64) (manager : Manager (f64.Carrier))
    (request : SearchRequest) where
  open setting use {
    Outside, CacheError, provider_search, now_secs, instant, rounds, random, sha256, from_str,
    to_string, too_large, canonicalize, age_days, provider_order, value_order,
  }

  abbrev pub Response : Type 0
  Response = SearchResponse (f64.Carrier)

  abbrev pub key_of : List Text → Text
  key_of providers = cache_key sha256 request.query providers request.freshness

  -- `cache.set` of a response, whose error is only logged.
  abbrev pub write : Text → Text → Response → ℕ → Cache → Cache
  write key provider_list response now cache =
      (Cached.set to_string too_large cache key request.query provider_list response
        manager.cache_ttl_secs now).0

  -- The operation that is retried: a search of the provider, written to the cache on success.
  unfoldable pub attempt :
      Text → Cache × Outside → Result ProviderError Response × (Cache × Outside)
  attempt name (cache, outside) =
      let (result, outside') = provider_search name request outside in
      elim result [
        | err e ↦ (err e, (cache, outside'))
        | ok response ↦ (
          ok response,
          (
            write (key_of (name ∷ [])) (provider_list_string (name ∷ [])) response
                (now_secs outside') cache,
            outside',
          ),
        )
      ]

  -- What is left of the pipeline after the rate limiter.
  unfoldable pub after_turn :
      Text
      → Option ℕ
      → Cache
      → Windows
      → Shared
      → Outside
      → Option (Result ProviderError Response) × Shared × Outside
  unfolding attempt
  after_turn name none cache windows shared outside =
      (none, record shared { cache = cache; windows = windows }, outside)
  after_turn name (some turn) cache windows shared outside =
      let (ending, (cache', outside'), delays) =
        retry_with_backoff f64 provider_classify (attempt name) manager.retry_config
          (random outside) (cache, outside) in
      (
        elim ending [ done result ↦ some result | panicked ↦ none ],
        record shared { cache = cache'; windows = windows },
        outside',
      )

  unfoldable pub after_miss :
      Text
      → ℕ
      → Cache
      → Shared
      → Outside
      → Option (Result ProviderError Response) × Shared × Outside
  unfolding after_turn
  after_miss name rpm cache shared outside =
      let (clock, outside') = rounds outside in
      let (windows, turn) = acquire name rpm clock shared.windows in
      after_turn name turn cache windows shared outside'

  -- The pipeline of a provider; no result stands for a task that panics or never gets its turn.
  unfoldable pub execute_provider_pipeline :
      Text → ℕ → Shared → Outside → Option (Result ProviderError Response) × Shared × Outside
  unfolding after_miss
  execute_provider_pipeline name rpm shared outside =
      let (cache, found) =
        Cached.get from_str shared.cache (key_of (name ∷ [])) (now_secs outside) in
      elim found [
        | err e ↦ after_miss name rpm cache shared outside
        | ok looked ↦ elim looked [
          | none ↦ after_miss name rpm cache shared outside
          | some cached ↦ (some (ok (as_hit cached)), record shared { cache = cache }, outside)
        ]
      ]

  abbrev pub record_event : Result ProviderError Response → ℕ → HealthState → HealthState
  record_event (ok response) now h = record_success now h
  record_event (err e) now h = record_failure now h

  -- `if let Some(state) = health_lock.get_mut(&name)`
  unfoldable pub note_health : Text → Result ProviderError Response → ℕ → Shared → Shared
  note_health name result now shared = elim (Dict.lookup name shared.health_states) [
    | none ↦ shared
    | some h ↦ record shared {
      health_states = Dict.insert name (record_event result now h) shared.health_states;
    }
  ]

  abbrev pub not_found : Text → Result ProviderError Response
  not_found name = err (internal (bytes "provider '" ++ name ++ bytes "' not found in catalog"))

  -- The task that is spawned for a provider.
  unfoldable pub task :
      Text → Shared → Outside → Option (Result ProviderError Response) × Shared × Outside
  unfolding execute_provider_pipeline note_health
  task name shared outside =
      let rpm = unwrap_or (Dict.lookup name manager.provider_rpm) 30 in
      let (result, shared', outside') = execute_provider_pipeline name rpm shared outside in
      elim (Catalog.get manager.catalog name) [
        | none ↦ (
          some (not_found name),
          note_health name (not_found name) (instant outside) shared,
          outside,
        )
        | some provider ↦ elim result [
          | none ↦ (none, shared', outside')
          | some r ↦ (some r, note_health name r (instant outside') shared', outside')
        ]
      ]
