-- ===== src/Cache/Reachable.antt =====
-- src/cache/sqlite.rs. The cache after any sequence of operations.
use mathlib.Core.Path.{subst}
use skipjack_mcp.Base.{
  ℕ, suc, ◌+◌, ◌^◌, ◌≤◌, ◌≡◌, refl, sym, Bool, true, false, not, Option, none, some, List, [], ◌∷◌,
  ◌++◌, leb, filter_by, All, All-append, arith, Bool-cases, Option-cases, inl, inr,
}
use skipjack_mcp.Base.Text.{Text, text_eq, text_eq_iff}
use skipjack_mcp.Search.{SearchResponse, Result, Result-cases}
use skipjack_mcp.Cache.Defs.{
  Row, Cache, select, is_expired, delete, evict_expired, clear, get, set, fetch_add,
}
use skipjack_mcp.Cache.Select.{IsUnique}

fetch_add-le : (n : ℕ) → fetch_add n ≤ n + 1
fetch_add-le n = omega arith

All-filter :
    (P : Row → Type 0) (p : Row → Bool) (rows : List Row) → All P rows → All P (filter_by p rows)
All-filter P p [] h = tt
All-filter P p (row ∷ rows) h = elim (Bool-cases (p row)) [
  | inl holds ↦ rw holds (h.0, All-filter P p rows h.1)
  | inr fails ↦ rw fails (All-filter P p rows h.1)
]

IsUnique-filter : (p : Row → Bool) (rows : List Row) → IsUnique rows → IsUnique (filter_by p rows)
IsUnique-filter p [] h = tt
IsUnique-filter p (row ∷ rows) h = elim (Bool-cases (p row)) [
  | inl holds ↦ rw holds (All-filter _ p rows h.0, IsUnique-filter p rows h.1)
  | inr fails ↦ rw fails (IsUnique-filter p rows h.1)
]

IsUnique-append :
    (rows : List Row) (row : Row)
    → IsUnique rows
    → All (λ r. text_eq r.key row.key ≡ false) rows
    → IsUnique (rows ++ row ∷ [])
IsUnique-append [] row h k = (tt, tt)
IsUnique-append (r ∷ rows) row h k = (
  All-append (λ q. text_eq q.key r.key ≡ false) rows (row ∷ []) h.0 (flip, tt),
  IsUnique-append rows row h.1 k.1,
)
  where
    flip : text_eq row.key r.key ≡ false
    flip = ground (arith, k.0, text_eq_iff row.key r.key, text_eq_iff r.key row.key)

others_differ :
    (key : Text) (rows : List Row)
    → All (λ r. text_eq r.key key ≡ false) (filter_by (λ r. not (text_eq r.key key)) rows)
others_differ key [] = tt
others_differ key (row ∷ rows) = elim (Bool-cases (text_eq row.key key)) [
  | inl own ↦ rw own (others_differ key rows)
  | inr other ↦ rw other (other, others_differ key rows)
]

module _ {F E : Type 0} (from_str : Text → Result E (SearchResponse F))
    (to_string : SearchResponse F → Result E Text) (too_large : E) where
  -- A call on the cache, with the time at which the clock is read.
  pub data Op : Type 0 where
    lookup : Text → ℕ → Op
    store : Text → Text → Text → SearchResponse F → ℕ → ℕ → Op
    evict : ℕ → Op
    wipe : Option Text → Op

  abbrev pub apply : Cache → Op → Cache
  apply cache (lookup key now) = (get from_str cache key now).0
  apply cache (store key query provider_list response ttl now) =
      (set to_string too_large cache key query provider_list response ttl now).0
  apply cache (evict now) = (evict_expired cache now).0
  apply cache (wipe provider_filter) = (clear cache provider_filter).0

  abbrev pub apply_all : Cache → List Op → Cache
  apply_all cache [] = cache
  apply_all cache (op ∷ ops) = apply_all (apply cache op) ops

  abbrev pub lookups : List Op → ℕ
  lookups [] = 0
  lookups (lookup key now ∷ ops) = suc (lookups ops)
  lookups (store key query provider_list response ttl now ∷ ops) = lookups ops
  lookups (evict now ∷ ops) = lookups ops
  lookups (wipe provider_filter ∷ ops) = lookups ops

  abbrev pub opened : List Row → Cache
  opened rows = record { rows = rows; hits = 0; misses = 0 }

  get-rows :
      (cache : Cache) (key : Text) (now : ℕ)
      → ((get from_str cache key now).0.rows ≡ cache.rows)
        × ((get from_str cache key now).0.hits + (get from_str cache key now).0.misses
            ≤ cache.hits + cache.misses + 1)
  unfolding get
  get-rows cache key now = elim (Option-cases (select cache.rows key)) [
    | inl absent ↦ rw (absent, get) (refl, omega (arith, fetch_add-le cache.misses))
    | inr (row, found) ↦ elim (Bool-cases (is_expired row now)) [
      | inl old ↦ rw (found, get, old) (refl, omega (arith, fetch_add-le cache.misses))
      | inr fresh ↦ elim (Result-cases (from_str row.response_json)) [
        | inl (response, read) ↦
            rw (found, get, fresh, read) (refl, omega (arith, fetch_add-le cache.hits))
        | inr (e, failed) ↦ rw (found, get, fresh, failed) (refl, omega arith)
      ]
    ]
  ]

  set-rows :
      (cache : Cache) (key query provider_list : Text) (response : SearchResponse F) (ttl now : ℕ)
      → IsUnique cache.rows
      → IsUnique (set to_string too_large cache key query provider_list response ttl now).0.rows
  unfolding set
  set-rows cache key query provider_list response ttl now h =
      elim (Result-cases (to_string response)) [
        | inl (json, written) ↦ elim (Bool-cases (leb (2 ^ 63) ttl)) [
          | inl large ↦ rw (written, set, large) h
          | inr small ↦
              rw (written, set, small)
                (IsUnique-append _ _ (IsUnique-filter _ cache.rows h)
                  (others_differ key cache.rows))
        ]
        | inr (e, failed) ↦ rw (failed, set) h
      ]

  set-counts :
      (cache : Cache) (key query provider_list : Text) (response : SearchResponse F) (ttl now : ℕ)
      → (set to_string too_large cache key query provider_list response ttl now).0.hits
          + (set to_string too_large cache key query provider_list response ttl now).0.misses
        ≡ cache.hits + cache.misses
  unfolding set
  set-counts cache key query provider_list response ttl now =
      elim (Result-cases (to_string response)) [
        | inl (json, written) ↦ elim (Bool-cases (leb (2 ^ 63) ttl)) [
          | inl large ↦ rw (written, set, large) refl
          | inr small ↦ rw (written, set, small) refl
        ]
        | inr (e, failed) ↦ rw (failed, set) refl
      ]

  IsUnique-apply : (cache : Cache) (op : Op) → IsUnique cache.rows → IsUnique (apply cache op).rows
  unfolding evict_expired clear delete
  IsUnique-apply cache (lookup key now) h = subst IsUnique (sym (get-rows cache key now).0) h
  IsUnique-apply cache (store key query provider_list response ttl now) h =
      set-rows cache key query provider_list response ttl now h
  IsUnique-apply cache (evict now) h = IsUnique-filter _ cache.rows h
  IsUnique-apply cache (wipe none) h = IsUnique-filter (λ row. not true) cache.rows h
  IsUnique-apply cache (wipe (some provider)) h = IsUnique-filter _ cache.rows h

  counted :
      (cache : Cache) (op : Op) (ops : List Op)
      → (apply cache op).hits + (apply cache op).misses + lookups ops
        ≤ cache.hits + cache.misses + lookups (op ∷ ops)
  unfolding evict_expired clear delete
  counted cache (lookup key now) ops = omega (arith, (get-rows cache key now).1)
  counted cache (store key query provider_list response ttl now) ops =
      omega (arith, set-counts cache key query provider_list response ttl now)
  counted cache (evict now) ops = omega arith
  counted cache (wipe none) ops = omega arith
  counted cache (wipe (some provider)) ops = omega arith

  steps :
      (cache : Cache) (ops : List Op)
      → IsUnique cache.rows
      → IsUnique (apply_all cache ops).rows
        × ((apply_all cache ops).hits + (apply_all cache ops).misses
            ≤ cache.hits + cache.misses + lookups ops)
  steps cache [] h = (h, omega arith)
  steps cache (op ∷ ops) h =
      let rest = steps (apply cache op) ops (IsUnique-apply cache op h) in
      (rest.0, omega (arith, rest.1, counted cache op ops))

  -- Whatever calls follow the opening of the cache on rows with distinct keys, no two rows
  -- share a key, and at most as many hits and misses are counted as there were lookups.
  pub apply_all-IsUnique :
      (rows : List Row) (ops : List Op)
      → IsUnique rows
      → IsUnique (apply_all (opened rows) ops).rows
        × ((apply_all (opened rows) ops).hits + (apply_all (opened rows) ops).misses ≤ lookups ops)
  apply_all-IsUnique rows ops h =
      let run = steps (opened rows) ops h in (run.0, omega (arith, run.1))
