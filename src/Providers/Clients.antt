-- ===== src/Providers/Clients.antt =====
-- The HTTP clients of the providers, as the closures that `new` of each gives to its `RotatingClient`
-- build them, and `build_client` of the trait in src/search/provider.rs. reqwest is a parameter.
use skipjack_mcp.Base.{ℕ, Bool, Option, none, some, List, [], ◌∷◌, ◌++◌, if◌then◌else◌, unwrap_or}
use skipjack_mcp.Base.Text.{Text, bytes}
use skipjack_mcp.Search.{ProviderError, internal, Result, ok, err, ◌>>=◌}

pub record ProviderClientConfig : Type 0 where
  pub tls_shuffle_ciphers : Bool
  pub ip_rotation_strategy : Option Text
  pub ipv6_subnet : Option Text
  pub proxies : Option (List Text)
  pub timeout_secs : Option ℕ
  pub tls_rotate_every : Option ℕ

-- What a `ClientBuilder` is told.
pub record Settings (Tls Proxy : Type 0) : Type 0 where
  pub timeout : ℕ
  pub connect_timeout : ℕ
  pub pool_max_idle_per_host : ℕ
  pub pool_idle_timeout : ℕ
  pub user_agent : Option Text
  pub default_headers : List (Text × Text)
  pub tls : Option Tls
  pub proxy : Option Proxy

pub record Reqwest : Type 1 where
  pub Tls : Type 0
  pub Proxy : Type 0
  pub Client : Type 0
  -- `build_shuffled_tls_config`, `HeaderValue::from_str`, `Proxy::all` and `ClientBuilder::build`.
  pub shuffled_tls : Result Text Tls
  pub header_value : Text → Result Text Text
  pub proxy_all : Text → Result Text Proxy
  pub build : Settings Tls Proxy → Result Text Client

module _ (reqwest : Reqwest) where
  open reqwest use {Tls, Proxy, Client, shuffled_tls, header_value, proxy_all, build}

  abbrev pub base_settings :
      ProviderClientConfig → Option Text → List (Text × Text) → Settings Tls Proxy
  base_settings config user_agent headers = record {
    timeout = unwrap_or config.timeout_secs 30;
    connect_timeout = 10;
    pool_max_idle_per_host = 2;
    pool_idle_timeout = 90;
    user_agent = user_agent;
    default_headers = headers;
    tls = none;
    proxy = none;
  }

  unfoldable pub shuffle_tls : Bool → Settings Tls Proxy → Result ProviderError (Settings Tls Proxy)
  shuffle_tls shuffle settings =
      if shuffle
      then elim shuffled_tls [
        | err e ↦ err (internal (bytes "TLS shuffle failed: " ++ e))
        | ok tls ↦ ok (record settings { tls = some tls })
      ]
      else ok settings

  unfoldable pub built : Settings Tls Proxy → Result ProviderError Client
  built settings = elim (build settings) [
    | err e ↦ err (internal (bytes "failed to build HTTP client: " ++ e))
    | ok client ↦ ok client
  ]

  unfoldable pub brave_client : ProviderClientConfig → Result ProviderError Client
  unfolding shuffle_tls built
  brave_client config = do
    settings ← shuffle_tls config.tls_shuffle_ciphers (base_settings config none [])
    built settings

  -- The client of DuckDuckGo and of SearXNG.
  unfoldable pub agent_client : ProviderClientConfig → Text → Result ProviderError Client
  unfolding shuffle_tls built
  agent_client config ua = do
    settings ← shuffle_tls config.tls_shuffle_ciphers (base_settings config (some ua) [])
    built settings

  unfoldable pub jina_headers : Bool → Text → Result ProviderError (List (Text × Text))
  jina_headers available api_key =
      if available
      then elim (header_value (bytes "Bearer " ++ api_key)) [
        | err e ↦ err (internal (bytes "invalid API key: " ++ e))
        | ok auth ↦
            ok (
              (bytes "authorization", auth) ∷ (bytes "content-type", bytes "application/json") ∷ [])
      ]
      else ok []

  unfoldable pub jina_client :
      ProviderClientConfig → Bool → Text → Text → Result ProviderError Client
  unfolding jina_headers shuffle_tls built
  jina_client config available api_key ua = do
    headers ← jina_headers available api_key
    settings ← shuffle_tls config.tls_shuffle_ciphers (base_settings config (some ua) headers)
    built settings

  -- The first proxy of the list, if there is one.
  unfoldable pub with_proxy :
      Option (List Text) → Settings Tls Proxy → Result ProviderError (Settings Tls Proxy)
  with_proxy none settings = ok settings
  with_proxy (some []) settings = ok settings
  with_proxy (some (first ∷ proxies)) settings = elim (proxy_all first) [
    | err e ↦ err (internal (bytes "invalid proxy URL '" ++ first ++ bytes "': " ++ e))
    | ok proxy ↦ ok (record settings { proxy = some proxy })
  ]

  -- `build_client` of the trait.
  unfoldable pub build_client : ProviderClientConfig → Result ProviderError Client
  unfolding shuffle_tls with_proxy built
  build_client config = do
    settings ← shuffle_tls config.tls_shuffle_ciphers (base_settings config none [])
    proxied ← with_proxy config.proxies settings
    built proxied
