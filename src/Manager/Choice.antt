-- ===== src/Manager/Choice.antt =====
-- src/daemon/manager.rs: the first part of `search_concurrent` and of `search_tiered`, which chooses
-- the providers to dispatch, and the grouping of `search_tiered`.
use Prim.Native.Nat.{min}
use skipjack_mcp.Base.{
  ℕ, ◌-◌, ◌^◌, Bool, true, not, ◌&&◌, none, some, List, [], ◌∷◌, ◌++◌, map, if◌then◌else◌, ltb,
  ◌==◌, filter_by, is_empty,
}
use skipjack_mcp.Base.Text.{Text}
use skipjack_mcp.Base.Dict as Dict
use skipjack_mcp.Search.{
  Tag, web, news, academic, code, privacy, finance, images, video, shopping, knowledge, playwright,
  SearchRequest,
}
use skipjack_mcp.Health.Defs.{HealthState, is_healthy, check_recovery}
use skipjack_mcp.Manager.Catalog.{Provider, ProviderCatalog, get, has_tag, enabled_providers}

abbrev pub HealthStates : Type 0
HealthStates = List (Text × HealthState)

-- `for state in health_lock.values_mut() { state.check_recovery(); }`
unfoldable pub check_all : ℕ → HealthStates → HealthStates
check_all now states = map (λ e. (e.0, check_recovery now e.1)) states

-- `health_lock.get(p.name()).map(|h| h.is_healthy()).unwrap_or(true)`
unfoldable pub is_usable : HealthStates → Text → Bool
is_usable states name = elim (Dict.lookup name states) [ none ↦ true | some h ↦ is_healthy h ]

module _ (order : List Provider → List Provider) (catalog : ProviderCatalog) where
  -- The providers named in the request, or else the enabled ones.
  unfoldable pub provider_names : Bool → SearchRequest → List Text
  unfolding enabled_providers
  provider_names without_playwright request =
      if not (is_empty request.providers)
      then request.providers
      else map (λ p. p.name)
          (filter_by (λ p. not (without_playwright && has_tag p.tags playwright))
            (enabled_providers order catalog none none))

  -- The chosen names and the health states after the recovery check. In a concurrent dispatch
  -- Playwright providers are left out; in a tiered dispatch they are not.
  unfoldable pub choose : Bool → SearchRequest → ℕ → HealthStates → List Text × HealthStates
  unfolding check_all is_usable provider_names
  choose without_playwright request now states =
      let checked = check_all now states in
      (
        map (λ p. p.name)
            (filter_by (λ p. is_usable checked p.name)
              (filter_by (λ p. not (without_playwright && has_tag p.tags playwright))
                (enabled_providers order catalog (some (provider_names without_playwright request))
                  none))),
        checked,
      )

abbrev pub tag_priority : Tag → ℕ
tag_priority web = 0
tag_priority news = 1
tag_priority academic = 2
tag_priority code = 3
tag_priority privacy = 4
tag_priority finance = 5
tag_priority knowledge = 6
tag_priority images = 7
tag_priority video = 8
tag_priority shopping = 9
tag_priority playwright = 10

-- `.map(|t| tag_priority(*t)).min().unwrap_or(usize::MAX)`
unfoldable pub lowest : List Tag → ℕ
lowest [] = 2 ^ 64 - 1
lowest (tag ∷ tags) = min (tag_priority tag) (lowest tags)

unfoldable pub tier_of : ProviderCatalog → Text → ℕ
unfolding lowest
tier_of catalog name = elim (get catalog name) [ none ↦ 2 ^ 64 - 1 | some p ↦ lowest p.tags ]

-- `tiered.entry(tier).or_default().push(name)` on a `BTreeMap`, whose keys ascend.
unfoldable pub push_at : ℕ → Text → List (ℕ × List Text) → List (ℕ × List Text)
push_at tier name [] = (tier, name ∷ []) ∷ []
push_at tier name ((t, names) ∷ tiers) =
    let rest = push_at tier name tiers in
    if tier == t
    then (t, names ++ name ∷ []) ∷ tiers
    else if ltb tier t
    then (tier, name ∷ []) ∷ (t, names) ∷ tiers
    else (t, names) ∷ rest

unfoldable pub group : ProviderCatalog → List Text → List (ℕ × List Text) → List (ℕ × List Text)
unfolding push_at
group catalog [] tiers = tiers
group catalog (name ∷ names) tiers = group catalog names (push_at (tier_of catalog name) name tiers)

unfoldable pub tier_order : ProviderCatalog → List Text → List (List Text)
unfolding group
tier_order catalog names = map (λ e. e.1) (group catalog names [])
