-- ===== src/Providers/Backend.antt =====
-- A provider of the catalog is one of the four: `create_provider` of src/daemon/manager.rs, and `search`
-- through the trait. A User-Agent is drawn for each client from a list of what rand yields.
use skipjack_mcp.Base.{ℕ, true, Option, none, some, List, ◌++◌, if◌then◌else◌, unwrap_or}
use skipjack_mcp.Base.Text.{Text, bytes, text_eq}
use skipjack_mcp.Base.Float.{F64}
use skipjack_mcp.Search.{ProviderError, Result, ok, err, SearchRequest, SearchResponse}
use skipjack_mcp.Manager.Catalog.{Provider}
use skipjack_mcp.Client.Rotating as Rotating
use skipjack_mcp.Client.Rotating.{RotatingClient}
use skipjack_mcp.Config.Defs.{ProviderConfig}
use skipjack_mcp.Providers.Http.{Http, Line}
use skipjack_mcp.Providers.Clients.{
  ProviderClientConfig, Reqwest, brave_client, agent_client, jina_client,
}
use skipjack_mcp.Providers.Brave.{BraveProvider, BraveWebResult, new_brave}
use skipjack_mcp.Providers.Brave as Brave
use skipjack_mcp.Providers.DuckDuckGo.{DuckDuckGoProvider, Container, new_duckduckgo}
use skipjack_mcp.Providers.DuckDuckGo as DuckDuckGo
use skipjack_mcp.Providers.Jina.{JinaProvider, JinaResponse, new_jina}
use skipjack_mcp.Providers.Jina as Jina
use skipjack_mcp.Providers.Searxng.{SearxngProvider, SearxngResponse, new_searxng}
use skipjack_mcp.Providers.Searxng as Searxng

pub data Backend : Type 0 where
  duckduckgo : DuckDuckGoProvider → Backend
  brave : BraveProvider → Backend
  jina : JinaProvider → Backend
  searxng : SearxngProvider → Backend

abbrev pub provider_of : Backend → Provider
provider_of (duckduckgo p) = DuckDuckGo.as_provider p
provider_of (brave p) = Brave.as_provider p
provider_of (jina p) = Jina.as_provider p
provider_of (searxng p) = Searxng.as_provider p

-- What the crates make of the replies of the four servers.
pub record Parsers (f64 : F64) : Type 0 where
  pub brave_response : Text → Result Text (List BraveWebResult)
  pub duckduckgo_page : Text → Result ProviderError (List Container)
  pub jina_response : Text → Result Text JinaResponse
  pub searxng_response : Text → Result Text (SearxngResponse (f64.Carrier))
  pub number : ℕ → Text

module _ (f64 : F64) (parsers : Parsers f64) (http : Http) where
  unfoldable pub search :
      Backend
      → List ℕ
      → SearchRequest
      → Line http
      → Option (Result ProviderError (SearchResponse (f64.Carrier))) × Line http
  unfolding DuckDuckGo.search Brave.search Jina.search Searxng.search
  search (duckduckgo p) rounds request line =
      DuckDuckGo.search f64 parsers.duckduckgo_page http p rounds request line
  search (brave p) rounds request line =
      Brave.search f64 parsers.brave_response http parsers.number p rounds request line
  search (jina p) rounds request line =
      Jina.search f64 parsers.jina_response parsers.number http p rounds request line
  search (searxng p) rounds request line =
      Searxng.search f64 parsers.searxng_response http p rounds request line

-- The match on the name of a configuration: what the provider is called in errors, and the provider.
unfoldable pub backend_of : {F : Type 0} → ProviderConfig F → ℕ → Option (Text × Backend)
unfolding new_duckduckgo new_brave new_jina new_searxng
backend_of cfg rpm =
    if text_eq cfg.name (bytes "duckduckgo")
    then some (bytes "DuckDuckGo", duckduckgo (new_duckduckgo rpm true))
    else if text_eq cfg.name (bytes "brave")
    then some (bytes "Brave", brave (new_brave rpm cfg.api_key))
    else if text_eq cfg.name (bytes "jina")
    then some (bytes "Jina", jina (new_jina rpm cfg.api_key cfg.base_url))
    else if text_eq cfg.name (bytes "searxng")
    then some (bytes "SearXNG", searxng (new_searxng cfg.base_url rpm))
    else none

-- `random_ua` reads and changes a state `A`.
module _ {A : Type 0} (reqwest : Reqwest) (display : ProviderError → Text)
    (random_ua : A → Text × A) where
  open reqwest use {Client}

  -- The closure that `new` of each gives to its rotating client.
  abbrev pub closure : ProviderClientConfig → Backend → A → Result ProviderError Client × A
  closure config (brave p) agents = (brave_client reqwest config, agents)
  closure config (duckduckgo p) agents =
      let (ua, agents') = random_ua agents in (agent_client reqwest config ua, agents')
  closure config (jina p) agents =
      let (ua, agents') = random_ua agents in
      (jina_client reqwest config p.available p.api_key ua, agents')
  closure config (searxng p) agents =
      let (ua, agents') = random_ua agents in (agent_client reqwest config ua, agents')

  abbrev pub Created : Type 0
  Created = Result Text (Backend × RotatingClient Client) × A

  abbrev pub failed_to_create : Text → ProviderError → Text
  failed_to_create kind e = bytes "failed to create " ++ kind ++ bytes " provider: " ++ display e

  unfoldable pub created : Text → ProviderClientConfig → Backend → A → Created
  unfolding Rotating.new
  created kind config backend agents =
      let (built, agents') =
        Rotating.new (closure config backend) (unwrap_or config.tls_rotate_every 0) agents in
      (
        elim built [ err e ↦ err (failed_to_create kind e) | ok rotating ↦ ok (backend, rotating) ],
        agents',
      )

  unfoldable pub create_provider :
      {F : Type 0} → ProviderConfig F → ProviderClientConfig → ℕ → A → Created
  unfolding created backend_of
  create_provider cfg config rpm agents = elim (backend_of cfg rpm) [
    | none ↦ (err (bytes "unknown provider type: '" ++ cfg.name ++ bytes "'"), agents)
    | some (kind, backend) ↦ created kind config backend agents
  ]
