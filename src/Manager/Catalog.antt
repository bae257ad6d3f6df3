-- ===== src/Manager/Catalog.antt =====
-- src/daemon/manager.rs: `ProviderCatalog`. A provider is what the catalog reads of it; the order in
-- which a `HashMap` yields its values is a parameter.
use skipjack_mcp.Base.{
  ℕ, Bool, true, Option, none, some, List, [], map, length, filter_by, any, ◌==◌, is_empty,
}
use skipjack_mcp.Base.Text.{Text, contains}
use skipjack_mcp.Base.Dict as Dict
use skipjack_mcp.Search.{
  Tag, web, news, academic, code, privacy, finance, images, video, shopping, knowledge, playwright,
}

-- The position of the tag in the declaration, by which tags are told apart.
abbrev pub tag_index : Tag → ℕ
tag_index web = 0
tag_index news = 1
tag_index academic = 2
tag_index code = 3
tag_index privacy = 4
tag_index finance = 5
tag_index images = 6
tag_index video = 7
tag_index shopping = 8
tag_index knowledge = 9
tag_index playwright = 10

-- `tags.contains(&tag)`
abbrev pub has_tag : List Tag → Tag → Bool
has_tag tags tag = any (λ t. tag_index t == tag_index tag) tags

pub record Provider : Type 0 where
  pub name : Text
  pub description : Text
  pub tags : List Tag
  pub is_available : Bool

abbrev pub ProviderCatalog : Type 0
ProviderCatalog = List (Text × Provider)

abbrev pub new : ProviderCatalog
new = []

unfoldable pub register : ProviderCatalog → Provider → ProviderCatalog
register providers provider = Dict.insert provider.name provider providers

unfoldable pub get : ProviderCatalog → Text → Option Provider
get providers name = Dict.lookup name providers

unfoldable pub all_providers : (List Provider → List Provider) → ProviderCatalog → List Provider
all_providers order providers = order (map (λ e. e.1) providers)

abbrev pub passes_names : Option (List Text) → Provider → Bool
passes_names none p = true
passes_names (some names) p = contains names p.name

abbrev pub passes_tag : Option Tag → Provider → Bool
passes_tag none p = true
passes_tag (some tag) p = has_tag p.tags tag

unfoldable pub enabled_providers :
    (List Provider → List Provider)
    → ProviderCatalog
    → Option (List Text)
    → Option Tag
    → List Provider
enabled_providers order providers filter_names filter_tag = filter_by (passes_tag filter_tag) (
    filter_by (passes_names filter_names)
      (filter_by (λ p. p.is_available) (order (map (λ e. e.1) providers))))

abbrev pub len : ProviderCatalog → ℕ
len providers = length providers

abbrev pub is_catalog_empty : ProviderCatalog → Bool
is_catalog_empty providers = is_empty providers
