-- ===== src/Tests/Dispatch.antt =====
-- The dispatch of a search at concrete inputs. The outside is a clock, which a provider advances.
use mathlib.Core.List.{Memᴰ}
use mathlib.Core.List.Permᴰ
use skipjack_mcp.Base.{
  ℕ, suc, ◌+◌, ◌<◌, ◌≡◌, ◌↔◌, refl, true, false, none, some, List, [], ◌∷◌, arith, map,
}
use skipjack_mcp.Base.Text.{Text, bytes}
use skipjack_mcp.Base.Sort.{insertion}
use skipjack_mcp.Base.Float.{whole}
use skipjack_mcp.Search.{ProviderError, SearchRequest, SearchResponse, Result, ok, web, news}
use skipjack_mcp.Base.Dict as Dict
use skipjack_mcp.RateLimiter.Defs.{acquire, round, critical, prune}
use skipjack_mcp.Retry.Defs.{retry_with_backoff, retry_loop, after_call}
use skipjack_mcp.Health.Defs.{new}
use skipjack_mcp.Cache.Defs as Cached
use skipjack_mcp.Cache.Defs.{as_hit}
use skipjack_mcp.Rank.Defs.{RankingConfig}
use skipjack_mcp.Manager.Catalog.{Provider, ProviderCatalog}
use skipjack_mcp.Manager.Choice.{choose, tier_order}
use skipjack_mcp.Manager.Chosen.{IsEligible, choose_iff}
use skipjack_mcp.Manager.Tiers.{IsGrouping, tier_order-IsGrouping}
use skipjack_mcp.Manager.Setting.{Shared, Setting, Manager}
use skipjack_mcp.Manager.Pipeline.{
  key_of, attempt, after_turn, after_miss, execute_provider_pipeline,
}
use skipjack_mcp.Manager.Dispatch.{completes, search}
use skipjack_mcp.Manager.Reuse.{pipeline-Reuses}
use skipjack_mcp.Manager.Answers.{Answers, is_tiered, search-Answers}

abbrev brave : Text
brave = bytes "brave"

abbrev jina : Text
jina = bytes "jina"

abbrev pub catalog : ProviderCatalog
catalog =
    (brave, record { name = brave; description = []; tags = news ∷ web ∷ []; is_available = true })
    ∷ (jina, record { name = jina; description = []; tags = news ∷ []; is_available = true })
    ∷ []

abbrev pub request : SearchRequest
request = record {
  request_id = bytes "r";
  query = bytes "q";
  limit = 5;
  providers = [];
  language = none;
  country = none;
  safe_search = false;
  freshness = none;
  dispatch_mode = none;
}

abbrev in_order : List Provider → List Provider
in_order providers = providers

choose_iff_example :
    Memᴰ jina (choose in_order catalog true request 9 ((brave, new 3 60) ∷ [])).0
    ↔ IsEligible catalog true request 9 ((brave, new 3 60) ∷ []) jina
choose_iff_example =
    choose_iff in_order (λ xs. Permᴰ.refl xs) catalog true request 9 ((brave, new 3 60) ∷ []) jina

tier_order-IsGrouping_example :
    IsGrouping catalog (jina ∷ brave ∷ []) (tier_order catalog (jina ∷ brave ∷ []))
tier_order-IsGrouping_example = tier_order-IsGrouping catalog (jina ∷ brave ∷ [])

abbrev pub response : SearchResponse ℕ
response = record {
  request_id = bytes "r";
  results = [];
  total_found = 0;
  providers_used = brave ∷ [];
  cache_hit = false;
  elapsed_ms = 0;
}

abbrev asked : Text → SearchRequest → ℕ → Result ProviderError (SearchResponse ℕ) × ℕ
asked name req now = (ok response, suc now)

abbrev pub setting : Setting whole
setting = record {
  Outside = ℕ;
  CacheError = Text;
  provider_search = asked;
  now_secs = λ now. now;
  instant = λ now. now;
  rounds = λ now. (now ∷ [], now);
  random = λ now attempt. 0;
  sha256 = λ text. text;
  from_str = λ text. ok (record response { request_id = text });
  to_string = λ r. ok r.request_id;
  too_large = [];
  canonicalize = λ url. url;
  age_days = λ date. none;
  provider_order = in_order;
  value_order = λ results. results;
  sorter = insertion;
}

abbrev ranking : RankingConfig ℕ
ranking = record {
  provider_reputation = record { enabled = false; weight = 1 };
  result_position = record { enabled = true; weight = 1 };
  freshness_bonus = record { enabled = false; weight = 0; window_days = 7 };
}

abbrev pub manager : Manager ℕ
manager = record {
  catalog = catalog;
  retry_config = record { base_delay_secs = 1; max_attempts = 3; cap_secs = 60 };
  dispatch_mode = bytes "concurrent";
  default_limit = 10;
  provider_rpm = [];
  cache_ttl_secs = 300;
  ranking = ranking;
  provider_weights = [];
}

abbrev pub shared : Shared
shared = record {
  cache = record { rows = []; hits = 0; misses = 0 };
  windows = [];
  health_states = (brave, new 3 60) ∷ [];
}

search-Answers_example :
    ((search whole setting manager request
        (λ now. false)
        (λ names. map completes names)
        12
        shared
        9).0.request_id
      ≡ request.request_id)
    × Answers whole setting manager request
        (λ xs. Permᴰ.refl xs)
        (is_tiered whole setting manager request (λ xs. Permᴰ.refl xs))
        shared
        9
        (search whole setting manager request
          (λ now. false)
          (λ names. map completes names)
          12
          shared
          9).0
        (search whole setting manager request
          (λ now. false)
          (λ names. map completes names)
          12
          shared
          9).2
search-Answers_example =
    search-Answers whole setting manager request (λ xs. Permᴰ.refl xs) (λ now. false)
      (λ names. map completes names) 12 shared 9

missed :
    (Cached.get setting.from_str shared.cache
      (key_of whole setting manager request (brave ∷ []))
      9).1
    ≡ ok none
unfolding Cached.get Cached.select
missed = refl

answered :
    ((execute_provider_pipeline whole setting manager request brave 30 shared 9).0
      ≡ some (ok response))
    × ((execute_provider_pipeline whole setting manager request brave 30 shared 9).2 ≡ 10)
unfolding execute_provider_pipeline after_miss after_turn attempt retry_with_backoff retry_loop
    after_call acquire round critical prune Cached.get Cached.select Dict.lookup Dict.insert
answered = (refl, refl)

in_time : 200 < (execute_provider_pipeline whole setting manager request brave 30 shared 9).2 + 300
in_time = rw answered.1 (ground arith)

pipeline-Reuses_example :
    ((execute_provider_pipeline whole setting manager request brave 30
        (execute_provider_pipeline whole setting manager request brave 30 shared 9).1
        200).0
      ≡ some (ok (as_hit response)))
    × ((execute_provider_pipeline whole setting manager request brave 30
          (execute_provider_pipeline whole setting manager request brave 30 shared 9).1
          200).2
        ≡ 200)
pipeline-Reuses_example =
    pipeline-Reuses whole setting manager request brave 30 shared 9 200 response (bytes "r") refl
      refl (ground arith) (ground arith) missed answered.0 in_time
