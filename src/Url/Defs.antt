-- ===== src/Url/Defs.antt =====
-- src/search/merge.rs: `ResultMerger::canonicalize_url`. The crate url is a parameter. `to_lowercase`
-- is that of ASCII, as schemes and hosts are in a parsed URL.
use skipjack_mcp.Base.{
  ℕ, Bool, not, ◌||◌, Option, none, some, List, [], ◌∷◌, ◌++◌, if◌then◌else◌, filter_by, ◌==◌,
  unwrap_or,
}
use skipjack_mcp.Base.Text.{Text, bytes, contains, ends_with, to_lowercase}

-- `s.split(c)`: the pieces, of which there is at least one.
unfoldable pub split_first : ℕ → Text → Text
split_first c [] = []
split_first c (d ∷ s) = let rest = split_first c s in if d == c then [] else d ∷ rest

unfoldable pub split : ℕ → Text → List Text
split c [] = [] ∷ []
split c (d ∷ s) =
    let rest = split c s in
    if d == c
    then [] ∷ rest
    else elim rest [ [] ↦ (d ∷ []) ∷ [] | piece ∷ pieces ↦ (d ∷ piece) ∷ pieces ]

-- `pieces.join(c)`
unfoldable pub join : ℕ → List Text → Text
join c [] = []
join c (piece ∷ []) = piece
join c (piece ∷ next ∷ pieces) = piece ++ c ∷ join c (next ∷ pieces)

-- `find(c)` with what stands before and behind.
unfoldable pub split_at : ℕ → Text → Option (Text × Text)
split_at c [] = none
split_at c (d ∷ s) =
    let rest = split_at c s in
    if d == c
    then some ([], s)
    else elim rest [ none ↦ none | some (before, behind) ↦ some (d ∷ before, behind) ]

-- `s.strip_suffix(c)`
unfoldable pub strip_suffix : ℕ → Text → Option Text
strip_suffix c [] = none
strip_suffix c (d ∷ []) = if d == c then some [] else none
strip_suffix c (d ∷ e ∷ s) = elim (strip_suffix c (e ∷ s)) [
  | none ↦ none
  | some stripped ↦ some (d ∷ stripped)
]

abbrev pub tracking_params : List Text
tracking_params =
    bytes "utm_source"
    ∷ bytes "utm_medium"
    ∷ bytes "utm_campaign"
    ∷ bytes "utm_term"
    ∷ bytes "utm_content"
    ∷ bytes "fbclid"
    ∷ bytes "gclid"
    ∷ bytes "ref"
    ∷ bytes "source"
    ∷ bytes "mc_cid"
    ∷ bytes "mc_eid"
    ∷ []

-- The filter on the pairs of a query.
unfoldable pub keeps : Text → Bool
unfolding split_first
keeps pair = not (contains tracking_params (split_first b'=' pair))

-- `if filtered.is_empty()`
unfoldable pub with_query : Text → List Text → Text
unfolding join
with_query base [] = base
with_query base (pair ∷ pairs) = base ++ b'?' ∷ join b'&' (pair ∷ pairs)

unfoldable pub strip_tracking : Text → Text
unfolding split_at split with_query
strip_tracking canonical = elim (split_at b'?' canonical) [
  | none ↦ canonical
  | some (base, qs) ↦ with_query base (filter_by keeps (split b'&' qs))
]

unfoldable pub strip_slash : Text → Text
unfolding strip_suffix
strip_slash canonical = elim (strip_suffix b'/' canonical) [
  | none ↦ canonical
  | some stripped ↦
      if ends_with stripped (bytes ":") || ends_with stripped (bytes "/")
      then canonical
      else stripped
]

-- The crate url.
pub record UrlCrate : Type 1 where
  pub Url : Type 0
  pub parse : Text → Option Url
  pub scheme : Url → Text
  pub host_str : Url → Option Text
  pub set_scheme : Text → Url → Url
  pub set_host : Option Text → Url → Url
  pub as_str : Url → Text

-- The scheme and the host in lower case, where the URL parses.
unfoldable pub lower_scheme_and_host : UrlCrate → Text → Text
lower_scheme_and_host u raw_url = elim (u.parse raw_url) [
  | none ↦ raw_url
  | some parsed ↦ u.as_str (
      u.set_host (some (to_lowercase (unwrap_or (u.host_str parsed) [])))
        (u.set_scheme (to_lowercase (u.scheme parsed)) parsed))
]

unfoldable pub canonicalize_url : UrlCrate → Text → Text
unfolding split_first strip_tracking strip_slash lower_scheme_and_host
canonicalize_url u raw_url =
    strip_slash (strip_tracking (split_first b'#' (lower_scheme_and_host u raw_url)))
