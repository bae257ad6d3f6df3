-- ===== src/Tests/Storage.antt =====
-- The cache at concrete inputs.
use mathlib.Core.List.{Permᴰ, Memᴰ}
use skipjack_mcp.Base.{
  ℕ, ◌+◌, ◌≤◌, ◌≡◌, ◌≢◌, refl, false, none, some, List, [], ◌∷◌, ◌++◌, All, arith, leb,
  if◌then◌else◌,
}
use skipjack_mcp.Base.Text.{Text, bytes}
use skipjack_mcp.Search.{SearchResponse, Result, ok, day}
use skipjack_mcp.Cache.Keys.{text_less, cache_key, provider_list_string}
use skipjack_mcp.Cache.Order.{cache_key-perm, cache_key-collides}
use skipjack_mcp.Cache.Defs.{Row, Cache, get, set, evict_expired, clear, as_hit}
use skipjack_mcp.Cache.Select.{IsUnique}
use skipjack_mcp.Cache.Store.{get-set, get-evict_expired}
use skipjack_mcp.Cache.Clear.{clear-Forgets}
use skipjack_mcp.Cache.Reachable.{
  Op, lookup, store, evict, wipe, apply_all, lookups, opened, apply_all-IsUnique,
}

abbrev brave : Text
brave = bytes "brave"

abbrev jina : Text
jina = bytes "jina"

-- A digest that is the text itself.
abbrev digest : Text → Text
digest text = text

cache_key-perm_example :
    (cache_key digest (bytes "q") (brave ∷ jina ∷ []) none
      ≡ cache_key digest (bytes "q") (jina ∷ brave ∷ []) none)
    × (provider_list_string (brave ∷ jina ∷ []) ≡ provider_list_string (jina ∷ brave ∷ []))
cache_key-perm_example =
    cache_key-perm digest (bytes "q") (brave ∷ jina ∷ []) (jina ∷ brave ∷ []) none
      (Permᴰ.swap refl refl)

ordered : text_less jina brave ≡ false
unfolding text_less
ordered = refl

cache_key-collides_example :
    cache_key digest (bytes "q" ++ b'|' ∷ brave) (jina ∷ []) (some day)
    ≡ cache_key digest (bytes "q") (brave ∷ jina ∷ []) (some day)
cache_key-collides_example = cache_key-collides digest (bytes "q") brave jina (some day) ordered

-- A response is written as its request id.
abbrev response : SearchResponse ℕ
response = record {
  request_id = bytes "r";
  results = [];
  total_found = 0;
  providers_used = brave ∷ [];
  cache_hit = false;
  elapsed_ms = 0;
}

abbrev to_string : SearchResponse ℕ → Result Text Text
to_string r = ok r.request_id

abbrev from_str : Text → Result Text (SearchResponse ℕ)
from_str text = ok (record response { request_id = text })

abbrev empty : Cache
empty = record { rows = []; hits = 0; misses = 0 }

get-set_example :
    ((get from_str
        (set to_string [] empty (bytes "k") (bytes "q") brave response 60 100).0
        (bytes "k")
        130).1
      ≡ (if leb (100 + 60) 130 then ok none else ok (some (as_hit response))))
    × ((get from_str
          (set to_string [] empty (bytes "k") (bytes "q") brave response 60 100).0
          (bytes "j")
          130).1
        ≡ (get from_str empty (bytes "j") 130).1)
get-set_example =
    get-set from_str to_string [] empty (bytes "k") (bytes "q") brave (bytes "r") (bytes "j")
      response 60 100 130 refl refl refl (ground arith) (ground arith)

abbrev row : Text → ℕ → Row
row key created_at = record {
  key = key;
  query = bytes "q";
  provider_list = bytes "brave,jina";
  response_json = bytes "r";
  created_at = created_at;
  ttl_secs = 60;
}

abbrev filled : Cache
filled = record { rows = row (bytes "a") 10 ∷ row (bytes "b") 100 ∷ []; hits = 0; misses = 0 }

filled-IsUnique : IsUnique filled.rows
filled-IsUnique = ((refl, tt), (tt, tt))

get-evict_expired_example :
    (get from_str (evict_expired filled 80).0 (bytes "a") 90).1
    ≡ (get from_str filled (bytes "a") 90).1
get-evict_expired_example =
    get-evict_expired from_str filled (bytes "a") 80 90 filled-IsUnique (ground arith)

clear-Forgets_example :
    All
      (λ r. r.provider_list ≢ provider_list_string (brave ∷ jina ∷ []))
      (clear filled (some jina)).0.rows
    × ((clear filled none).0.rows ≡ [])
clear-Forgets_example = clear-Forgets filled jina (brave ∷ jina ∷ []) (Memᴰ.tail (Memᴰ.head refl))

abbrev ops : List (Op from_str to_string [])
ops =
    lookup (bytes "a") 20
    ∷ store (bytes "a") (bytes "q") brave response 60 30
    ∷ evict 75
    ∷ wipe (some jina)
    ∷ lookup (bytes "a") 80
    ∷ []

apply_all-IsUnique_example :
    IsUnique (apply_all from_str to_string [] (opened from_str to_string [] filled.rows) ops).rows
    × ((apply_all from_str to_string [] (opened from_str to_string [] filled.rows) ops).hits
          + (apply_all from_str to_string [] (opened from_str to_string [] filled.rows) ops).misses
        ≤ lookups from_str to_string [] ops)
apply_all-IsUnique_example =
    apply_all-IsUnique from_str to_string [] filled.rows ops filled-IsUnique
