-- ===== src/Tests/Configured.antt =====
-- The configuration, the manager made of it and the tools of MCP at concrete inputs.

use skipjack_mcp.Base.{ℕ, suc, ◌≡◌, ◌↔◌, refl, inl, inr, true, false, Option, none, some, [], ◌∷◌}
use skipjack_mcp.Base.Text.{Text, bytes}
use skipjack_mcp.Base.Float.{whole}
use skipjack_mcp.Search.{ProviderError, day, ok, SearchRequest}
use skipjack_mcp.Cache.Defs.{Cache}
use skipjack_mcp.Client.Rotating.{RotatingClient, client}
use skipjack_mcp.Client.Rotating as Rotating
use skipjack_mcp.Config.Defs.{ProviderConfig, Config}
use skipjack_mcp.Config.Defaults.{provider_default, config_default}
use skipjack_mcp.Config.Toml.{Table, leaf, table, empty, entry, set_path, find, insert}
use skipjack_mcp.Config.Overrides.{get_path, set_path-get_path}
use skipjack_mcp.Mcp.Tools.{SearchParams, search_request}
use skipjack_mcp.Mcp.Requests.{Accepts, search_request_iff}
use skipjack_mcp.Manager.Complete.{IsComplete, is_listed, new-IsComplete}
use skipjack_mcp.Manager.New.{
  Made, add, assemble, cooldown_of, new, nothing_registered, register_all,
}
use skipjack_mcp.Providers.Backend.{backend_of, create_provider, created, duckduckgo}
use skipjack_mcp.Providers.Clients.{Reqwest, agent_client, built, shuffle_tls}
use skipjack_mcp.Providers.DuckDuckGo.{new_duckduckgo}

-- A configuration with the limit of a search and a mode.
abbrev settings : Table ℕ
settings =
    entry (bytes "search") (table (entry (bytes "default_limit") (leaf 10) empty))
      (entry (bytes "dispatch") (table empty) empty)

abbrev overridden : Table ℕ
overridden =
    entry (bytes "search") (table (entry (bytes "default_limit") (leaf 25) empty))
      (entry (bytes "dispatch") (table empty) empty)

set_done :
    set_path (bytes "K") (bytes "SEARCH" ∷ bytes "DEFAULT_LIMIT" ∷ []) (leaf 25) settings
    ≡ ok overridden
unfolding set_path find insert
set_done = refl

set_path-get_path_example :
    (get_path (bytes "SEARCH" ∷ bytes "DEFAULT_LIMIT" ∷ []) overridden ≡ some (leaf 25))
    × (get_path (bytes "search" ∷ bytes "max_limit" ∷ []) overridden
        ≡ get_path (bytes "search" ∷ bytes "max_limit" ∷ []) settings)
set_path-get_path_example =
    set_path-get_path (bytes "K") (bytes "SEARCH") (bytes "DEFAULT_LIMIT" ∷ []) (leaf 25) settings
      overridden (bytes "search" ∷ bytes "max_limit" ∷ []) (inr (refl, inl refl)) set_done

abbrev params : SearchParams
params = record {
  query = bytes "rust";
  limit = 100;
  providers = [];
  language = none;
  country = none;
  safe_search = true;
  freshness = some (bytes "Day");
  dispatch_mode = some (bytes "tiered");
}

abbrev request : SearchRequest
request = record {
  request_id = bytes "r";
  query = bytes "rust";
  limit = 100;
  providers = [];
  language = none;
  country = none;
  safe_search = true;
  freshness = some day;
  dispatch_mode = some (bytes "tiered");
}

search_request_iff_example :
    (search_request (λ n. []) (bytes "r") params ≡ ok request) ↔ Accepts (bytes "r") params request
search_request_iff_example = search_request_iff (λ n. []) (bytes "r") params request

-- A client is its User-Agent.
abbrev reqwest : Reqwest
reqwest = record {
  Tls = Unit;
  Proxy = Text;
  Client = Option Text;
  shuffled_tls = ok tt;
  header_value = λ value. ok value;
  proxy_all = λ url. ok url;
  build = λ settings. ok settings.user_agent;
}

abbrev display : ProviderError → Text
display e = bytes "error"

abbrev random_ua : ℕ → Text × ℕ
random_ua n = (bytes "agent", suc n)

abbrev configured : Text → ProviderConfig ℕ
configured name = record provider_default { name = name }

-- One provider that is on and one that is off.
abbrev config : Config ℕ
config = record (config_default whole none) {
  providers =
      configured (bytes "duckduckgo")
      ∷ record (configured (bytes "unknown")) { enabled = false }
      ∷ [];
}

abbrev cache : Cache
cache = record { rows = []; hits = 0; misses = 0 }

abbrev made : Made whole reqwest display random_ua
made = assemble whole reqwest display random_ua config cache (
    add whole reqwest display random_ua (cooldown_of config) (configured (bytes "duckduckgo"))
      (
        duckduckgo (new_duckduckgo 30 true),
        record { current = some (bytes "agent"); counter = 0; threshold = 0 },
      )
      nothing_registered)

new_done : (new whole reqwest display random_ua (ok cache) config 0).0 ≡ ok made
unfolding new register_all create_provider created Rotating.new backend_of agent_client shuffle_tls
    built
new_done = refl

new-IsComplete_example :
    IsComplete whole reqwest display random_ua
      (is_listed whole reqwest display random_ua (bytes "duckduckgo") config.providers)
      (cooldown_of config)
      (bytes "duckduckgo")
      made
new-IsComplete_example =
    new-IsComplete whole reqwest display random_ua (ok cache) config 0 (bytes "duckduckgo") made
      new_done
