-- ===== src/Manager/Chosen.antt =====
-- src/daemon/manager.rs. Which providers are chosen.
use mathlib.Core.List.{Memᴰ, Permᴰ}
use mathlib.Core.List.Permᴰ
use mathlib.Core.Path.{subst}
use skipjack_mcp.Base.{
  ℕ, ◌-◌, ◌≤◌, ◌≡◌, ◌↔◌, ◌⊎◌, inl, inr, refl, sym, Bool, true, not, ◌&&◌, ◌||◌, Option, none, some,
  List, [], ◌∷◌, map, is_empty, Bool-cases, Option-cases,
}
use skipjack_mcp.Base.Text.{Text, text_eq, contains}
use skipjack_mcp.Base.Dict as Dict
use skipjack_mcp.Base.Sort.{mem-perm}
use skipjack_mcp.Search.{playwright, SearchRequest}
use skipjack_mcp.Health.Defs.{HealthState, healthy, unhealthy, check_recovery}
use skipjack_mcp.Health.Invariant.{check_recovery_iff}
use skipjack_mcp.Manager.Catalog.{
  Provider, ProviderCatalog, has_tag, passes_names, passes_tag, enabled_providers,
}
use skipjack_mcp.Manager.Choice.{HealthStates, check_all, is_usable, provider_names, choose}
use skipjack_mcp.Manager.Members.{mem-filter_by, mem_filter_by, mem-map, mem_map, contains-mem}

-- The states under which a provider is used.
abbrev pub IsUsable : ℕ → Option HealthState → Type 0
IsUsable now none = Unit
IsUsable now (some h) =
    (h.status ≡ healthy)
    ⊎ ((h.status ≡ unhealthy)
        × ((since : ℕ) × (h.unhealthy_since ≡ some since) × (h.recovery_cooldown ≤ now - since)))

lookup-check_all :
    (now : ℕ) (states : HealthStates) (name : Text)
    → Dict.lookup name (check_all now states)
      ≡ (elim (Dict.lookup name states) [ none ↦ none | some h ↦ some (check_recovery now h) ])
unfolding check_all Dict.lookup
lookup-check_all now [] name = refl
lookup-check_all now ((k, h) ∷ states) name = elim (Bool-cases (text_eq k name)) [
  | inl own ↦ rw own refl
  | inr other ↦ rw other (lookup-check_all now states name)
]

IsUsable-iff :
    (now : ℕ) (states : HealthStates) (name : Text)
    → (is_usable (check_all now states) name ≡ true) ↔ IsUsable now (Dict.lookup name states)
unfolding is_usable
IsUsable-iff now states name = elim (Option-cases (Dict.lookup name states)) [
  | inl unknown ↦ rw (lookup-check_all now states name, unknown, is_usable) ((λ e. tt), (λ u. refl))
  | inr (h, found) ↦
      rw (lookup-check_all now states name, found, is_usable) (check_recovery_iff now h)
]

-- A provider that the request may use: registered, available, not of Playwright where these are left
-- out, named by the request where it names any, and in a usable state of health.
pub record IsEligible (catalog : ProviderCatalog) (without_playwright : Bool)
    (request : SearchRequest) (now : ℕ) (states : HealthStates) (name : Text) : Type 0 where
  pub provider : Provider
  pub registered : Memᴰ provider (map (λ e. e.1) catalog)
  pub names : provider.name ≡ name
  pub available : provider.is_available ≡ true
  pub suitable : not (without_playwright && has_tag provider.tags playwright) ≡ true
  pub wanted : (is_empty request.providers || contains request.providers name) ≡ true
  pub usable : IsUsable now (Dict.lookup name states)

module _ (order : List Provider → List Provider)
    (order-perm : (xs : List Provider) → Permᴰ (order xs) xs) (catalog : ProviderCatalog)
    (without_playwright : Bool) (request : SearchRequest) (now : ℕ) (states : HealthStates) where
  abbrev Eligible : Text → Type 0
  Eligible name = IsEligible catalog without_playwright request now states name

  enabled-mem :
      (names : Option (List Text)) {p : Provider}
      → Memᴰ p (enabled_providers order catalog names none)
      → Memᴰ p (map (λ e. e.1) catalog) × (p.is_available ≡ true) × (passes_names names p ≡ true)
  unfolding enabled_providers
  enabled-mem names {p} m =
      let (m1, t) = mem-filter_by (passes_tag none) _ m in
      let (m2, n) = mem-filter_by (passes_names names) _ m1 in
      let (m3, a) = mem-filter_by (λ p. p.is_available) _ m2 in
      (mem-perm (Permᴰ.symm (order-perm (map (λ e. e.1) catalog))) m3, a, n)

  mem_enabled :
      (names : Option (List Text)) {p : Provider}
      → Memᴰ p (map (λ e. e.1) catalog)
      → p.is_available ≡ true
      → passes_names names p ≡ true
      → Memᴰ p (enabled_providers order catalog names none)
  unfolding enabled_providers
  mem_enabled names m a n =
      mem_filter_by (passes_tag none) _
        (mem_filter_by (passes_names names) _
          (mem_filter_by (λ p. p.is_available) _ (mem-perm (order-perm (map (λ e. e.1) catalog)) m)
            a)
          n)
        refl

  named→wanted :
      (p : Provider)
      → contains (provider_names order catalog without_playwright request) p.name ≡ true
      → (is_empty request.providers || contains request.providers p.name) ≡ true
  unfolding provider_names
  named→wanted p h = elim (Bool-cases (is_empty request.providers)) [
    | inl empty ↦ rw empty refl
    | inr given ↦ rw given (rw given at h)
  ]

  wanted→named :
      (p : Provider)
      → Memᴰ p (map (λ e. e.1) catalog)
      → p.is_available ≡ true
      → not (without_playwright && has_tag p.tags playwright) ≡ true
      → (is_empty request.providers || contains request.providers p.name) ≡ true
      → contains (provider_names order catalog without_playwright request) p.name ≡ true
  unfolding provider_names
  wanted→named p m a s h = elim (Bool-cases (is_empty request.providers)) [
    | inl empty ↦
        rw empty (
          contains-mem _
            (mem_map (λ p. p.name) _ (mem_filter_by _ _ (mem_enabled none m a refl) s)))
    | inr given ↦ rw given (rw given at h)
  ]

  chosen→eligible :
      (name : Text)
      → Memᴰ name (choose order catalog without_playwright request now states).0
      → Eligible name
  unfolding choose
  chosen→eligible name m =
      let (p, m1, e) = mem-map (λ p. p.name) _ m in
      let (m2, u) = mem-filter_by (λ p. is_usable (check_all now states) p.name) _ m1 in
      let (m3, s) =
        mem-filter_by (λ p. not (without_playwright && has_tag p.tags playwright)) _ m2 in
      let (m4, a, n) =
        enabled-mem (some (provider_names order catalog without_playwright request)) m3 in
      record {
        provider = p;
        registered = m4;
        names = e;
        available = a;
        suitable = s;
        wanted =
            subst (λ x. (is_empty request.providers || contains request.providers x) ≡ true) e
              (named→wanted p n);
        usable =
            (IsUsable-iff now states name).0
              (subst (λ x. is_usable (check_all now states) x ≡ true) e u);
      }

  eligible→chosen :
      (name : Text)
      → Eligible name
      → Memᴰ name (choose order catalog without_playwright request now states).0
  unfolding choose
  eligible→chosen name e =
      let p = e.provider in
      let wanted =
        subst (λ x. (is_empty request.providers || contains request.providers x) ≡ true)
          (sym e.names) e.wanted in
      let usable =
        subst (λ x. is_usable (check_all now states) x ≡ true) (sym e.names)
          ((IsUsable-iff now states name).1 e.usable) in
      let named = wanted→named p e.registered e.available e.suitable wanted in
      subst (λ x. Memᴰ x (choose order catalog without_playwright request now states).0) e.names
        (mem_map (λ p. p.name) _
          (mem_filter_by (λ p. is_usable (check_all now states) p.name) _
            (mem_filter_by (λ p. not (without_playwright && has_tag p.tags playwright)) _
              (mem_enabled (some (provider_names order catalog without_playwright request))
                e.registered e.available named)
              e.suitable)
            usable))

  -- Whatever the order of iteration over the catalog, a provider is chosen for a dispatch
  -- exactly when it is registered, available, not of Playwright where these are left out,
  -- named by the request where it names any, and its health state is unknown, Healthy, or
  -- Unhealthy for at least the cooldown; so never while it is Degraded.
  pub choose_iff :
      (name : Text)
      → Memᴰ name (choose order catalog without_playwright request now states).0
        ↔ IsEligible catalog without_playwright request now states name
  choose_iff name = (chosen→eligible name, eligible→chosen name)
