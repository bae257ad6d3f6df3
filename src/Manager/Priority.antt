-- ===== src/Manager/Priority.antt =====
-- src/daemon/manager.rs. The tier of a provider by its tags.
use mathlib.Core.List.{Memᴰ}
use skipjack_mcp.Base.{
  ℕ, ◌-◌, ◌^◌, ◌≤◌, ◌≡◌, ◌⊎◌, refl, inl, inr, Option, none, some, List, [], ◌∷◌, get_elem?, All,
  All-map, leb, arith, Bool-cases, Option-cases, tests,
}
use skipjack_mcp.Base.Text.{Text}
use skipjack_mcp.Search.{
  Tag, web, news, academic, code, privacy, finance, images, video, shopping, knowledge, playwright,
}
use skipjack_mcp.Manager.Catalog.{Provider, ProviderCatalog, get}
use skipjack_mcp.Manager.Choice.{tag_priority, lowest, tier_of}

-- The tags in the order in which their tiers are asked.
abbrev pub ladder : List Tag
ladder =
    web ∷ news ∷ academic ∷ code ∷ privacy ∷ finance ∷ knowledge ∷ images ∷ video ∷ shopping
    ∷ playwright ∷ []

-- One of the tags stands at this place of the ladder, and none stands before it.
abbrev pub IsFirst : List Tag → ℕ → Type 0
IsFirst tags place =
    ((tag : Tag) × (get_elem? ladder place ≡ some tag) × Memᴰ tag tags)
    × All (λ other. (later : ℕ) × (get_elem? ladder later ≡ some other) × (place ≤ later)) tags

-- The tier of the tags: the first place of one of them, or behind all if there is none.
abbrev pub IsTierOf : List Tag → ℕ → Type 0
IsTierOf tags tier = ((tags ≡ []) × (tier ≡ 2 ^ 64 - 1)) ⊎ IsFirst tags tier

abbrev pub IsTier : Option Provider → ℕ → Type 0
IsTier none tier = tier ≡ 2 ^ 64 - 1
IsTier (some p) tier = IsTierOf p.tags tier

get_elem?-ladder : (tag : Tag) → get_elem? ladder (tag_priority tag) ≡ some tag
get_elem?-ladder web = refl
get_elem?-ladder news = refl
get_elem?-ladder academic = refl
get_elem?-ladder code = refl
get_elem?-ladder privacy = refl
get_elem?-ladder finance = refl
get_elem?-ladder images = refl
get_elem?-ladder video = refl
get_elem?-ladder shopping = refl
get_elem?-ladder knowledge = refl
get_elem?-ladder playwright = refl

tag_priority_bound : (tag : Tag) → tag_priority tag ≤ 2 ^ 64 - 1
tag_priority_bound web = ground arith
tag_priority_bound news = ground arith
tag_priority_bound academic = ground arith
tag_priority_bound code = ground arith
tag_priority_bound privacy = ground arith
tag_priority_bound finance = ground arith
tag_priority_bound images = ground arith
tag_priority_bound video = ground arith
tag_priority_bound shopping = ground arith
tag_priority_bound knowledge = ground arith
tag_priority_bound playwright = ground arith

lowest_bound : (tags : List Tag) → All (λ other. lowest tags ≤ tag_priority other) tags
unfolding lowest
lowest_bound [] = tt
lowest_bound (tag ∷ tags) =
    (omega arith, All-map (λ other le. omega (arith, le)) tags (lowest_bound tags))

lowest-mem :
    (tag : Tag) (tags : List Tag)
    → (chosen : Tag) × (tag_priority chosen ≡ lowest (tag ∷ tags)) × Memᴰ chosen (tag ∷ tags)
unfolding lowest
lowest-mem tag [] = (tag, omega (arith, tag_priority_bound tag), Memᴰ.head refl)
lowest-mem tag (next ∷ tags) =
    let (chosen, same, m) = lowest-mem next tags in
    elim (Bool-cases (leb (tag_priority tag) (lowest (next ∷ tags)))) [
      | inl first ↦ (tag, omega (arith, tests, first), Memᴰ.head refl)
      | inr later ↦ (chosen, omega (arith, tests, later, same), Memᴰ.tail m)
    ]

lowest-IsTierOf : (tags : List Tag) → IsTierOf tags (lowest tags)
unfolding lowest
lowest-IsTierOf [] = inl (refl, refl)
lowest-IsTierOf (tag ∷ tags) =
    let (chosen, same, m) = lowest-mem tag tags in
    inr (
      (chosen, rw (← same) (get_elem?-ladder chosen), m),
      All-map (λ other le. (tag_priority other, get_elem?-ladder other, le)) (tag ∷ tags)
          (lowest_bound (tag ∷ tags)),
    )

pub tier_of-IsTier :
    (catalog : ProviderCatalog) (name : Text) → IsTier (get catalog name) (tier_of catalog name)
unfolding tier_of
tier_of-IsTier catalog name = elim (Option-cases (get catalog name)) [
  | inl unknown ↦ rw (unknown, tier_of) refl
  | inr (p, known) ↦ rw (known, tier_of) (lowest-IsTierOf p.tags)
]
