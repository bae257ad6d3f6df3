-- ===== src/Cache/Keys.antt =====
-- src/cache/mod.rs: `cache_key` and `provider_list_string`. SHA-256 is a parameter.
use skipjack_mcp.Base.{
  ℕ, ◌+◌, ◌-◌, ◌/◌, ◌%◌, Bool, true, false, ◌&&◌, ◌||◌, Option, none, some, List, [], ◌∷◌, ◌++◌,
  if◌then◌else◌, ltb, ◌==◌,
}
use skipjack_mcp.Base.Text.{Text, bytes}
use skipjack_mcp.Base.Sort.{sort_by}
use skipjack_mcp.Search.{Freshness, day, week, month, year}
use skipjack_mcp.Url.Defs.{join}

-- The order of `String`: the first string is less, byte by byte.
unfoldable pub text_less : Text → Text → Bool
text_less s [] = false
text_less [] (d ∷ t) = true
text_less (c ∷ s) (d ∷ t) = ltb c d || (c == d && text_less s t)

-- `sorted.sort()`
unfoldable pub sort : List Text → List Text
sort = sort_by (λ x y. text_less y x)

-- The loop that hashes the sorted names.
unfoldable pub piped : List Text → Text
piped [] = []
piped (p ∷ providers) = bytes "|" ++ p ++ piped providers

abbrev pub freshness_tag : Freshness → Text
freshness_tag day = bytes "day"
freshness_tag week = bytes "week"
freshness_tag month = bytes "month"
freshness_tag year = bytes "year"

abbrev pub freshness_part : Option Freshness → Text
freshness_part none = []
freshness_part (some f) = bytes "|freshness=" ++ freshness_tag f

-- What is hashed.
unfoldable pub hashed : Text → List Text → Option Freshness → Text
unfolding sort piped
hashed query providers freshness = query ++ piped (sort providers) ++ freshness_part freshness

abbrev pub hex_digit : ℕ → ℕ
hex_digit n = if ltb n 10 then b'0' + n else b'a' + (n - 10)

-- `format!("{:02x}", b)` of each byte.
unfoldable pub hex : Text → Text
hex [] = []
hex (b ∷ digest) = hex_digit (b / 16) ∷ hex_digit (b % 16) ∷ hex digest

unfoldable pub cache_key : (Text → Text) → Text → List Text → Option Freshness → Text
unfolding hashed hex
cache_key sha256 query providers freshness = hex (sha256 (hashed query providers freshness))

unfoldable pub provider_list_string : List Text → Text
unfolding sort join
provider_list_string [] = bytes "auto"
provider_list_string (p ∷ providers) = join b',' (sort (p ∷ providers))
