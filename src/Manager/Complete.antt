-- ===== src/Manager/Complete.antt =====
-- src/daemon/manager.rs. What the maps of a new manager hold.
use mathlib.Core.Path.{subst}
use skipjack_mcp.Base.{
  ℕ, Bool, true, false, ◌&&◌, ◌||◌, ◌≡◌, refl, ap, ◌∙◌, inl, inr, none, some, List, [], ◌∷◌,
  if◌then◌else◌, any, is_some, unwrap_or, arith, Bool-cases, Option-cases,
}
use skipjack_mcp.Base.Text.{Text, bytes, text_eq, text_eq_iff}
use skipjack_mcp.Base.Dict as Dict
use skipjack_mcp.Base.Dict.{lookup-insert}
use skipjack_mcp.Base.Float.{F64}
use skipjack_mcp.Search.{ProviderError, Result, ok, err, Result-cases}
use skipjack_mcp.Health.Defs as Health
use skipjack_mcp.Client.Rotating as Rotating
use skipjack_mcp.Client.Rotating.{RotatingClient}
use skipjack_mcp.Cache.Defs.{Cache}
use skipjack_mcp.Config.Defs.{ProviderConfig, Config}
use skipjack_mcp.Providers.Clients.{ProviderClientConfig, Reqwest}
use skipjack_mcp.Providers.Backend.{
  Backend, provider_of, closure, backend_of, created, create_provider,
}
use skipjack_mcp.Manager.Catalog.{register}
use skipjack_mcp.Manager.New.{
  Registered, nothing_registered, cooldown_of, client_config_of, consecutive_failure_threshold,
  rpm_of, add, register_all, new, Made, assemble,
}

err-ne-ok {ℓ} : {B : Type ℓ} {e : Text} {b : B} → ¬ (◌≡◌ {A = Result Text B} (err e) (ok b))
err-ne-ok h = cc

backend_of-name :
    {F : Type 0} (cfg : ProviderConfig F) (rpm : ℕ) (kind : Text) (backend : Backend)
    → backend_of cfg rpm ≡ some (kind, backend)
    → (provider_of backend).name ≡ cfg.name
unfolding backend_of
backend_of-name cfg rpm kind backend h = ground (
  arith,
  text_eq_iff cfg.name (bytes "duckduckgo"),
  text_eq_iff cfg.name (bytes "brave"),
  text_eq_iff cfg.name (bytes "jina"),
  text_eq_iff cfg.name (bytes "searxng"),
)

module _ {A : Type 0} (f64 : F64) (reqwest : Reqwest) (display : ProviderError → Text)
    (random_ua : A → Text × A) where
  open f64 use {Carrier, of_ℕ}
  open reqwest use {Client}

  -- A backend that was created is the given one.
  created_backend :
      (kind : Text) (config : ProviderClientConfig) (backend : Backend) (agents : A)
      (made : Backend × RotatingClient Client)
      → (created reqwest display random_ua kind config backend agents).0 ≡ ok made
      → made.0 ≡ backend
  unfolding created
  created_backend kind config backend agents made h =
      elim (Result-cases
        (Rotating.new (closure reqwest display random_ua config backend)
          (unwrap_or config.tls_rotate_every 0) agents).0) [
            | inl (rotating, e) ↦ let same = rw (e, created) at h in cc
            | inr (x, e) ↦ absurd (let wrong = rw (e, created) at h in cc)
          ]

  -- A provider has the name under which it is configured.
  create_provider-name :
      (cfg : ProviderConfig Carrier) (config : ProviderClientConfig) (rpm : ℕ) (agents : A)
      (made : Backend × RotatingClient Client)
      → (create_provider reqwest display random_ua cfg config rpm agents).0 ≡ ok made
      → (provider_of made.0).name ≡ cfg.name
  unfolding create_provider
  create_provider-name cfg config rpm agents made h = elim (Option-cases (backend_of cfg rpm)) [
    | inl n ↦ absurd (let wrong = rw (n, create_provider) at h in cc)
    | inr ((kind, backend), e) ↦
        ap (λ b. (provider_of b).name)
          (created_backend kind config backend agents made (rw (e, create_provider) at h))
        ∙ backend_of-name cfg rpm kind backend e
  ]

  abbrev pub is_listed : Text → List (ProviderConfig Carrier) → Bool
  is_listed name cfgs = any (λ c. c.enabled && text_eq c.name name) cfgs

  module _ (cooldown : ℕ) (name : Text) where
    abbrev fresh : Health.HealthState
    fresh = Health.new consecutive_failure_threshold cooldown

    -- The maps hold the name where they did, or where `listed`.
    abbrev Grows : Bool → Registered Carrier Client → Registered Carrier Client → Type 0
    Grows listed r r' =
        (Dict.lookup name r'.health_states
          ≡ (if listed then some fresh else Dict.lookup name r.health_states))
        × (is_some (Dict.lookup name r'.catalog) ≡ (listed || is_some (Dict.lookup name r.catalog)))
        × (is_some (Dict.lookup name r'.provider_rpm)
            ≡ (listed || is_some (Dict.lookup name r.provider_rpm)))
        × (is_some (Dict.lookup name r'.provider_weights)
            ≡ (listed || is_some (Dict.lookup name r.provider_weights)))
        × (is_some (Dict.lookup name r'.backends)
            ≡ (listed || is_some (Dict.lookup name r.backends)))

    is_some-insert :
        {V : Type 0} (key : Text) (v : V) (m : List (Text × V))
        → is_some (Dict.lookup name (Dict.insert key v m))
          ≡ (text_eq key name || is_some (Dict.lookup name m))
    is_some-insert key v m = ground (arith, lookup-insert key name v m)

    add-Grows :
        (cfg : ProviderConfig Carrier) (made : Backend × RotatingClient Client)
        (r : Registered Carrier Client)
        → (provider_of made.0).name ≡ cfg.name
        → Grows (text_eq cfg.name name) r (add f64 reqwest display random_ua cooldown cfg made r)
    unfolding add register
    add-Grows cfg (backend, rotating) r e = rw e (
      lookup-insert cfg.name name fresh r.health_states,
      is_some-insert cfg.name (provider_of backend) r.catalog,
      is_some-insert cfg.name _ r.provider_rpm,
      is_some-insert cfg.name _ r.provider_weights,
      is_some-insert cfg.name _ r.backends,
    )

    Grows-trans :
        (a b : Bool) (r s t : Registered Carrier Client)
        → Grows a r s
        → Grows b s t
        → Grows (a || b) r t
    Grows-trans a b r s t g h = ground arith

    register_all-Grows :
        (cfgs : List (ProviderConfig Carrier)) (r : Registered Carrier Client) (agents : A)
        (r' : Registered Carrier Client)
        → (register_all f64 reqwest display random_ua cooldown cfgs r agents).0 ≡ ok r'
        → Grows (is_listed name cfgs) r r'
    unfolding register_all
    register_all-Grows [] r agents r' h =
        let same : r ≡ r' = cc in rw (← same) (refl, refl, refl, refl, refl)
    register_all-Grows (cfg ∷ cfgs) r agents r' h = elim (Bool-cases cfg.enabled) [
      | inr off ↦ rw off (register_all-Grows cfgs r agents r' (rw (off, register_all) at h))
      | inl on ↦
          elim (Result-cases
            (create_provider reqwest display random_ua cfg (client_config_of cfg)
              (rpm_of f64 reqwest display random_ua cfg) agents).0) [
                | inr (e, f) ↦ absurd (let wrong = rw (on, f, register_all) at h in cc)
                | inl (made, f) ↦
                    let named = create_provider-name cfg (client_config_of cfg) _ agents made f in
                    let rest =
                      register_all-Grows cfgs
                        (add f64 reqwest display random_ua cooldown cfg made r) _ r'
                        (rw (on, f, register_all) at h) in
                    rw on (
                      Grows-trans (text_eq cfg.name name) (is_listed name cfgs) r
                        (add f64 reqwest display random_ua cooldown cfg made r) r'
                        (add-Grows cfg made r named) rest)
              ]
    ]

  -- The maps of a manager hold the name where a provider is listed, in its first health state.
  abbrev pub IsComplete : Bool → ℕ → Text → Made f64 reqwest display random_ua → Type 0
  IsComplete listed cooldown name (manager, shared, backends) =
      (Dict.lookup name shared.health_states
        ≡ (if listed then some (Health.new consecutive_failure_threshold cooldown) else none))
      × (is_some (Dict.lookup name manager.catalog) ≡ listed)
      × (is_some (Dict.lookup name manager.provider_rpm) ≡ listed)
      × (is_some (Dict.lookup name manager.provider_weights) ≡ listed)
      × (is_some (Dict.lookup name backends) ≡ listed)

  Grows-IsComplete :
      (cooldown : ℕ) (name : Text) (listed : Bool) (config : Config Carrier) (cache : Cache)
      (r : Registered Carrier Client)
      → Grows cooldown name listed nothing_registered r
      → IsComplete listed cooldown name (assemble f64 reqwest display random_ua config cache r)
  unfolding Dict.lookup
  Grows-IsComplete cooldown name true config cache r g = g
  Grows-IsComplete cooldown name false config cache r g = g

  -- When `Manager::new` returns a manager, a name has a health state exactly when a provider
  -- of that name is listed as enabled, and it is the new one with the configured cooldown; and
  -- it is in the catalog, the limits, the weights and among the providers made exactly then.
  pub new-IsComplete :
      (opened : Result Text Cache) (config : Config Carrier) (agents : A) (name : Text)
      (made : Made f64 reqwest display random_ua)
      → (new f64 reqwest display random_ua opened config agents).0 ≡ ok made
      → IsComplete (is_listed name config.providers) (cooldown_of config) name made
  unfolding new
  new-IsComplete (err e) config agents name made h = cc
  new-IsComplete (ok cache) config agents name made h =
      elim (Result-cases
        (register_all f64 reqwest display random_ua (cooldown_of config) config.providers
          nothing_registered agents).0) [
            | inr (e, f) ↦ absurd (let wrong = rw (f, new) at h in cc)
            | inl (r, f) ↦
                let same : assemble f64 reqwest display random_ua config cache r ≡ made =
                  let built = rw (f, new) at h in cc in
                subst (IsComplete (is_listed name config.providers) (cooldown_of config) name) same
                  (Grows-IsComplete (cooldown_of config) name _ config cache r (
                    register_all-Grows (cooldown_of config) name config.providers nothing_registered
                      agents r f))
          ]
