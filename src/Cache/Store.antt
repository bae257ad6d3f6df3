-- ===== src/Cache/Store.antt =====
-- src/cache/sqlite.rs. What `get` returns after `set` and after `evict_expired`.
use Prim.Native.Nat.{min}
use skipjack_mcp.Base.{
  ℕ, ◌+◌, ◌-◌, ◌^◌, ◌≤◌, ◌<◌, ◌≡◌, refl, sym, ap, ◌∙◌, true, false, not, Option, none, some,
  if◌then◌else◌, leb, arith, Bool-cases, Option-cases, inl, inr,
}
use skipjack_mcp.Base.Text.{Text, text_eq, text_eq_refl}
use skipjack_mcp.Search.{SearchResponse, Result, ok, err, Result-cases}
use skipjack_mcp.Cache.Defs.{
  Row, Cache, select, is_expired, is_evictable, delete, evict_expired, as_hit, get, set,
}
-- No two rows have the same key.
use skipjack_mcp.Cache.Select.{IsUnique, kept_if, select-filter_by, select-replaced}

module _ {F E : Type 0} (from_str : Text → Result E (SearchResponse F)) where
  -- What `get` returns for the row that the statement selects.
  abbrev answer : Option Row → ℕ → Result E (Option (SearchResponse F))
  answer none now = ok none
  answer (some row) now =
      if is_expired row now then ok none else elim (from_str row.response_json) [
        | err e ↦ err e
        | ok response ↦ ok (some (as_hit response))
      ]

  get-answer :
      (cache : Cache) (key : Text) (now : ℕ)
      → (get from_str cache key now).1 ≡ answer (select cache.rows key) now
  unfolding get
  get-answer cache key now = elim (Option-cases (select cache.rows key)) [
    | inl absent ↦ rw (absent, get) refl
    | inr (row, found) ↦ elim (Bool-cases (is_expired row now)) [
      | inl old ↦ rw (found, get, old) refl
      | inr fresh ↦ elim (Result-cases (from_str row.response_json)) [
        | inl (response, read) ↦ rw (found, get, fresh, read) refl
        | inr (e, failed) ↦ rw (found, get, fresh, failed) refl
      ]
    ]
  ]

  answer-kept :
      (o : Option Row) (now later : ℕ)
      → now ≤ later
      → answer (kept_if (λ row. not (is_evictable row now)) o) later ≡ answer o later
  answer-kept none now later n = refl
  answer-kept (some row) now later n = elim (Bool-cases (is_evictable row now)) [
    | inl old ↦ let expired : is_expired row later ≡ true = ground arith in rw (old, expired) refl
    | inr fresh ↦ rw fresh refl
  ]

  -- As long as no two rows share a key, an eviction is invisible: a lookup at the same time or
  -- later returns what it would have returned without it.
  pub get-evict_expired :
      (cache : Cache) (key : Text) (now later : ℕ)
      → IsUnique cache.rows
      → now ≤ later
      → (get from_str (evict_expired cache now).0 key later).1 ≡ (get from_str cache key later).1
  unfolding evict_expired delete
  get-evict_expired cache key now later h n =
      get-answer (evict_expired cache now).0 key later
      ∙ ap (λ o. answer o later)
          (select-filter_by (λ row. not (is_evictable row now)) cache.rows key h)
      ∙ answer-kept (select cache.rows key) now later n
      ∙ sym (get-answer cache key later)

  module _ (to_string : SearchResponse F → Result E Text) (too_large : E) where
    stored :
        (cache : Cache) (key query provider_list json other : Text) (response : SearchResponse F)
        (ttl now : ℕ)
        → to_string response ≡ ok json
        → ttl < 2 ^ 63
        → select
            (set to_string too_large cache key query provider_list response ttl now).0.rows
            other
          ≡ (if text_eq key other
              then some (record {
                key = key;
                query = query;
                provider_list = provider_list;
                response_json = json;
                created_at = now;
                ttl_secs = ttl;
              })
              else select cache.rows other)
    unfolding set select
    stored cache key query provider_list json other response ttl now ser t =
        let small : leb (2 ^ 63) ttl ≡ false = ground arith in
        rw (ser, set, small)
          (select-replaced cache.rows
            (record {
              key = key;
              query = query;
              provider_list = provider_list;
              response_json = json;
              created_at = now;
              ttl_secs = ttl;
            })
            other)

    -- The lookup of the key that was stored.
    pub get-stored :
        (cache : Cache) (key query provider_list json : Text) (response : SearchResponse F)
        (ttl now later : ℕ)
        → to_string response ≡ ok json
        → from_str json ≡ ok response
        → ttl < 2 ^ 63
        → later < 2 ^ 63 - 1
        → (get from_str
            (set to_string too_large cache key query provider_list response ttl now).0
            key
            later).1
          ≡ (if leb (now + ttl) later then ok none else ok (some (as_hit response)))
    get-stored cache key query provider_list json response ttl now later ser de t l =
        get-answer (set to_string too_large cache key query provider_list response ttl now).0 key
          later
        ∙ rw
            (
              stored cache key query provider_list json key response ttl now ser t,
              text_eq_refl key,
              de,
            )
            (elim (Bool-cases (leb (now + ttl) later)) [
              | inl old ↦
                  let late : leb (min (now + ttl) (2 ^ 63 - 1)) later ≡ true = ground arith in
                  rw (late, old) refl
              | inr fresh ↦
                  let early : leb (min (now + ttl) (2 ^ 63 - 1)) later ≡ false = ground arith in
                  rw (early, fresh) refl
            ])

    -- A response that serde_json writes and reads back, stored under a key with a TTL below
    -- 2 ^ 63 seconds, is what a lookup of the key returns, marked as a hit, until its TTL
    -- has passed, and from then on a lookup finds none; a lookup of another key returns what
    -- it did.
    pub get-set :
        (cache : Cache) (key query provider_list json other : Text) (response : SearchResponse F)
        (ttl now later : ℕ)
        → text_eq key other ≡ false
        → to_string response ≡ ok json
        → from_str json ≡ ok response
        → ttl < 2 ^ 63
        → later < 2 ^ 63 - 1
        → ((get from_str
              (set to_string too_large cache key query provider_list response ttl now).0
              key
              later).1
            ≡ (if leb (now + ttl) later then ok none else ok (some (as_hit response))))
          × ((get from_str
                (set to_string too_large cache key query provider_list response ttl now).0
                other
                later).1
              ≡ (get from_str cache other later).1)
    get-set cache key query provider_list json other response ttl now later differs ser de t l = (
      get-stored cache key query provider_list json response ttl now later ser de t l,
      get-answer (set to_string too_large cache key query provider_list response ttl now).0 other
            later
          ∙ rw (stored cache key query provider_list json other response ttl now ser t, differs)
              (sym (get-answer cache other later)),
    )
