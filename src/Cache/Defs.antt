-- ===== src/Cache/Defs.antt =====
-- src/cache/sqlite.rs: `get`, `set`, `evict_expired`, `clear` and `stats` of `Cache`, as operations on
-- the rows of the table. The database is taken to answer every statement; serde_json and the clock are
-- parameters, and `E` is the type of the errors of serde_json and of rusqlite. A time in seconds and a
-- TTL are natural numbers, within `i64` where the source keeps them in one.
use Prim.Native.Nat.{min}
use skipjack_mcp.Base.{
  ℕ, ◌+◌, ◌-◌, ◌^◌, ◌%◌, Bool, true, false, not, ◌&&◌, ◌||◌, Option, none, some, List, [], ◌∷◌,
  ◌++◌, if◌then◌else◌, leb, ltb, ◌==◌, length, filter_by,
}
use skipjack_mcp.Base.Text.{Text, bytes, text_eq, lower}
use skipjack_mcp.Base.Float.{F64}
use skipjack_mcp.Search.{SearchResponse, Result, ok, err}

pub record Row : Type 0 where
  pub key : Text
  pub query : Text
  pub provider_list : Text
  pub response_json : Text
  pub created_at : ℕ
  pub ttl_secs : ℕ

pub record Cache : Type 0 where
  pub rows : List Row
  pub hits : ℕ
  pub misses : ℕ

-- `fetch_add(1, Ordering::Relaxed)` on an `AtomicU64`.
abbrev pub fetch_add : ℕ → ℕ
fetch_add n = (n + 1) % 2 ^ 64

-- `SELECT … WHERE key = ?1`; the key is the primary key.
unfoldable pub select : List Row → Text → Option Row
select [] key = none
select (row ∷ rows) key = if text_eq row.key key then some row else select rows key

-- `created_at.saturating_add_unsigned(ttl_secs) <= now`
abbrev pub is_expired : Row → ℕ → Bool
is_expired row now = leb (min (row.created_at + row.ttl_secs) (2 ^ 63 - 1)) now

-- `WHERE created_at + ttl_secs <= ?1`, in SQL, where a sum beyond `i64` is a real number.
abbrev pub is_evictable : Row → ℕ → Bool
is_evictable row now = leb (row.created_at + row.ttl_secs) now

abbrev pub some_suffix : (Text → Bool) → Text → Bool
some_suffix matches [] = matches []
some_suffix matches (c ∷ s) = matches (c ∷ s) || some_suffix matches s

abbrev pub one : ℕ → (Text → Bool) → Text → Bool
one p matches [] = false
one p matches (c ∷ s) = (p == b'_' || lower p == lower c) && matches s

-- `LIKE`: `%` stands for any text and `_` for a character; ASCII letters match in either case. A
-- character is a byte here.
unfoldable pub like : Text → Text → Bool
like [] s = text_eq [] s
like (p ∷ pattern) s =
    let matches = like pattern in if p == b'%' then some_suffix matches s else one p matches s

-- The condition of the `DELETE` for a provider.
unfoldable pub lists_provider : Text → Text → Bool
unfolding like
lists_provider provider provider_list =
    text_eq provider_list provider
    || like (provider ++ bytes ",%") provider_list
    || like (bytes "%," ++ provider) provider_list
    || like (bytes "%," ++ provider ++ bytes ",%") provider_list

-- `LENGTH` of a text: its characters, which are the bytes that do not continue one.
abbrev pub char_length : Text → ℕ
char_length s = length (filter_by (λ c. not (leb 128 c && ltb c 192)) s)

abbrev pub total_length : List Row → ℕ
total_length [] = 0
total_length (row ∷ rows) = char_length row.response_json + total_length rows

-- `DELETE FROM cache WHERE …`, with the number of rows removed.
unfoldable pub delete : (Row → Bool) → Cache → Cache × ℕ
delete p cache =
    let kept = filter_by (λ row. not (p row)) cache.rows in
    (
      record { rows = kept; hits = cache.hits; misses = cache.misses },
      length cache.rows - length kept,
    )

unfoldable pub evict_expired : Cache → ℕ → Cache × ℕ
unfolding delete
evict_expired cache now = delete (λ row. is_evictable row now) cache

unfoldable pub clear : Cache → Option Text → Cache × ℕ
unfolding delete lists_provider
clear cache none = delete (λ row. true) cache
clear cache (some provider) = delete (λ row. lists_provider provider row.provider_list) cache

pub record CacheStats (F : Type 0) : Type 0 where
  pub total_entries : ℕ
  pub total_size_bytes : ℕ
  pub hit_count : ℕ
  pub miss_count : ℕ
  pub hit_rate : F

unfoldable pub stats : (f64 : F64) → Cache → CacheStats (f64.Carrier)
stats f64 cache =
    let total = cache.hits + cache.misses in
    record {
      total_entries = length cache.rows;
      total_size_bytes = total_length cache.rows;
      hit_count = cache.hits;
      miss_count = cache.misses;
      hit_rate = if ltb 0 total then f64.div (f64.of_ℕ cache.hits) (f64.of_ℕ total) else f64.of_ℕ 0;
    }

abbrev pub missed : Cache → Cache
missed cache = record { rows = cache.rows; hits = cache.hits; misses = fetch_add cache.misses }

module _ {F : Type 0} where
  abbrev pub as_hit : SearchResponse F → SearchResponse F
  as_hit r = record {
    request_id = r.request_id;
    results = r.results;
    total_found = r.total_found;
    providers_used = r.providers_used;
    cache_hit = true;
    elapsed_ms = r.elapsed_ms;
  }

module _ {F E : Type 0} where
  unfoldable pub get :
      (Text → Result E (SearchResponse F))
      → Cache
      → Text
      → ℕ
      → Cache × Result E (Option (SearchResponse F))
  unfolding select
  get from_str cache key now = elim (select cache.rows key) [
    | none ↦ (missed cache, ok none)
    | some row ↦
        if is_expired row now then (missed cache, ok none) else elim (from_str row.response_json) [
          | err e ↦ (cache, err e)
          | ok response ↦ (
            record { rows = cache.rows; hits = fetch_add cache.hits; misses = cache.misses },
            ok (some (as_hit response)),
          )
        ]
  ]

  -- `too_large` is the error of rusqlite for a TTL that is no `i64`.
  unfoldable pub set :
      (SearchResponse F → Result E Text)
      → E
      → Cache
      → Text
      → Text
      → Text
      → SearchResponse F
      → ℕ
      → ℕ
      → Cache × Result E (Unit {0})
  set to_string too_large cache key query provider_list response ttl_secs now =
      elim (to_string response) [
        | err e ↦ (cache, err e)
        | ok response_json ↦ if leb (2 ^ 63) ttl_secs then (cache, err too_large) else (
          record {
            rows =
                filter_by (λ row. not (text_eq row.key key)) cache.rows
                ++ record {
                  key = key;
                  query = query;
                  provider_list = provider_list;
                  response_json = response_json;
                  created_at = now;
                  ttl_secs = ttl_secs;
                }
                  ∷ [];
            hits = cache.hits;
            misses = cache.misses;
          },
          ok tt,
        )
      ]
