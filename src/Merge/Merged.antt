-- ===== src/Merge/Merged.antt =====
-- src/search/merge.rs. What `merge` returns.
use mathlib.Core.List.{Nodup, Nodup-nil, Permᴰ}
use mathlib.Core.List.Perm
use mathlib.Core.Path.{subst}
use skipjack_mcp.Base.{
  ℕ, ◌≤◌, ◌≡◌, refl, sym, false, some, List, [], ◌∷◌, map, length, length-take, All, All-take,
  All-map, arith, Bool-cases, Option-cases, inl, inr, ◌⊎◌,
}
use skipjack_mcp.Base.Text.{Text, text_eq}
use skipjack_mcp.Base.Dict.{lookup, insert}
use skipjack_mcp.Base.Float.{F64}
use skipjack_mcp.Base.Sort.{sort_by, sort_by-perm, IsSorted, sort_by-IsSorted, All-perm}
use skipjack_mcp.Search.{SearchResponse}
use skipjack_mcp.Merge.Defs.{Hit, Seen, Merging, see, see_all, take_in, scores_less, merge}
use skipjack_mcp.Merge.Keys.{
  keys, insert-Nodup, take-Nodup, map-take, take-IsSorted, All-both, own_entries,
}
use skipjack_mcp.Merge.Best.{IsBest, newest, IsBest-see_all}

module _ (f64 : F64) (canonicalize : Text → Text) where
  open f64 use {Carrier, lt, lt_asym, is_nan}

  -- All results of the responses, those met last first.
  abbrev pub gather :
      List (SearchResponse Carrier) → List (Hit f64 canonicalize) → List (Hit f64 canonicalize)
  gather [] sofar = sofar
  gather (response ∷ responses) sofar =
      gather responses (newest f64 canonicalize response.results sofar)

  abbrev Key : Hit f64 canonicalize → Text
  Key r = canonicalize r.url

  -- The keys of the map are the canonical URLs of its values, each once.
  abbrev IsKeyed : Seen f64 canonicalize → Type 0
  IsKeyed seen = Nodup (keys seen) × All (λ e. e.0 ≡ Key e.1) seen

  insert-IsKeyed :
      (seen : Seen f64 canonicalize) (r : Hit f64 canonicalize)
      → IsKeyed seen
      → IsKeyed (insert (Key r) r seen)
  unfolding insert
  insert-IsKeyed seen r h = (insert-Nodup (Key r) r seen h.0, keyed seen h.1)
    where
      keyed :
          (m : Seen f64 canonicalize)
          → All (λ e. e.0 ≡ Key e.1) m
          → All (λ e. e.0 ≡ Key e.1) (insert (Key r) r m)
      keyed [] all = (refl, tt)
      keyed ((j, w) ∷ m) all = elim (Bool-cases (text_eq j (Key r))) [
        | inl same ↦ rw same (refl, all.1)
        | inr differs ↦ rw differs (all.0, keyed m all.1)
      ]

  see-cases :
      (seen : Seen f64 canonicalize) (r : Hit f64 canonicalize)
      → (see f64 canonicalize seen r ≡ insert (Key r) r seen) ⊎ (see f64 canonicalize seen r ≡ seen)
  unfolding see
  see-cases seen r = elim (Option-cases (lookup (Key r) seen)) [
    | inl absent ↦ inl (ground (arith, absent))
    | inr (b, found) ↦ elim (Bool-cases (lt b.rank_score r.rank_score)) [
      | inl worse ↦ inl (ground (arith, found, worse))
      | inr better ↦ inr (ground (arith, found, better))
    ]
  ]

  see-IsKeyed :
      (seen : Seen f64 canonicalize) (r : Hit f64 canonicalize)
      → IsKeyed seen
      → IsKeyed (see f64 canonicalize seen r)
  see-IsKeyed seen r h = elim (see-cases seen r) [
    | inl added ↦ subst IsKeyed (sym added) (insert-IsKeyed seen r h)
    | inr same ↦ subst IsKeyed (sym same) h
  ]

  see_all-IsKeyed :
      (results : List (Hit f64 canonicalize)) (seen : Seen f64 canonicalize)
      → IsKeyed seen
      → IsKeyed (see_all f64 canonicalize seen results)
  unfolding see_all
  see_all-IsKeyed [] seen h = h
  see_all-IsKeyed (r ∷ results) seen h =
      see_all-IsKeyed results (see f64 canonicalize seen r) (see-IsKeyed seen r h)

  take_in-IsKeyed :
      (responses : List (SearchResponse Carrier)) (m : Merging f64 canonicalize)
      → IsKeyed m.seen
      → IsKeyed (take_in f64 canonicalize m responses).seen
  unfolding take_in
  take_in-IsKeyed [] m h = h
  take_in-IsKeyed (response ∷ responses) m h =
      take_in-IsKeyed responses _ (see_all-IsKeyed response.results m.seen h)

  values-keys :
      (seen : Seen f64 canonicalize)
      → All (λ e. e.0 ≡ Key e.1) seen
      → map Key (map (λ e. e.1) seen) ≡ keys seen
  values-keys [] h = refl
  values-keys ((k, r) ∷ seen) h = cc (h.0, values-keys seen h.1)

  own_values :
      (seen : Seen f64 canonicalize)
      → IsKeyed seen
      → All (λ r. lookup (Key r) seen ≡ some r) (map (λ e. e.1) seen)
  own_values seen h = second seen (
      All-both {P = λ e. e.0 ≡ Key e.1} {Q = λ e. lookup e.0 seen ≡ some e.1}
        (λ e keyed found. rw keyed at found) seen h.1 (own_entries seen h.0))
    where
      second :
          (m : Seen f64 canonicalize)
          → All (λ e. lookup (Key e.1) seen ≡ some e.1) m
          → All (λ r. lookup (Key r) seen ≡ some r) (map (λ e. e.1) m)
      second [] all = tt
      second (e ∷ m) all = (all.0, second m all.1)

  abbrev start : Merging f64 canonicalize
  start = record { seen = []; providers_used = []; total_found = 0 }

  take_in-IsBest :
      (responses : List (SearchResponse Carrier)) (m : Merging f64 canonicalize)
      (sofar : List (Hit f64 canonicalize)) (key : Text)
      → All (λ q. is_nan q.rank_score ≡ false) sofar
      → All (λ response. All (λ q. is_nan q.rank_score ≡ false) response.results) responses
      → IsBest f64 canonicalize sofar key (lookup key m.seen)
      → IsBest f64 canonicalize
          (gather responses sofar)
          key
          (lookup key (take_in f64 canonicalize m responses).seen)
  unfolding take_in
  take_in-IsBest [] m sofar key numbers more h = h
  take_in-IsBest (response ∷ responses) m sofar key numbers more h =
      take_in-IsBest responses _ (newest f64 canonicalize response.results sofar) key
        (All-newest response.results sofar more.0 numbers) more.1
        (IsBest-see_all f64 canonicalize response.results m.seen sofar key numbers more.0 h)
    where
      All-newest :
          (results sofar : List (Hit f64 canonicalize))
          → All (λ q. is_nan q.rank_score ≡ false) results
          → All (λ q. is_nan q.rank_score ≡ false) sofar
          → All (λ q. is_nan q.rank_score ≡ false) (newest f64 canonicalize results sofar)
      All-newest [] s h k = k
      All-newest (r ∷ results) s h k = All-newest results (r ∷ s) h.1 (h.0, k)

  module _ (order : List (Hit f64 canonicalize) → List (Hit f64 canonicalize))
      (order-perm : (xs : List (Hit f64 canonicalize)) → Permᴰ (order xs) xs)
      (responses : List (SearchResponse Carrier)) (limit : ℕ) where
    abbrev held : Seen f64 canonicalize
    held = (take_in f64 canonicalize start responses).seen

    abbrev values : List (Hit f64 canonicalize)
    values = map (λ e. e.1) held

    abbrev ranked : List (Hit f64 canonicalize)
    ranked = sort_by (scores_less f64 canonicalize) (order values)

    ranked-perm : Permᴰ ranked values
    ranked-perm =
        Permᴰ.trans (sort_by-perm (scores_less f64 canonicalize) (order values)) (order-perm values)

    held-IsKeyed : IsKeyed held
    held-IsKeyed = take_in-IsKeyed responses start (Nodup-nil, tt)

    -- Whatever the order of iteration over the map, `merge` returns at most `limit` results,
    -- none of which scores less than the next, and their canonical URLs are distinct.
    pub merge-IsRanked :
        (length (merge f64 canonicalize order responses limit).results ≤ limit)
        × IsSorted
            (scores_less f64 canonicalize)
            (merge f64 canonicalize order responses limit).results
        × Nodup
            (map (λ r. canonicalize r.url) (merge f64 canonicalize order responses limit).results)
    unfolding merge
    merge-IsRanked = (
      omega (arith, length-take limit ranked),
      take-IsSorted (scores_less f64 canonicalize) limit ranked (
          sort_by-IsSorted (scores_less f64 canonicalize) (λ x y. lt_asym x.rank_score y.rank_score)
            (order values)),
      subst Nodup (sym (map-take Key limit ranked)) (take-Nodup limit (map Key ranked) distinct),
    )
      where
        distinct : Nodup (map Key ranked)
        distinct =
            (Perm.Nodup-iff (Perm.map Key ∣ ranked-perm ∣₁)).1
              (subst Nodup (sym (values-keys held held-IsKeyed.1)) held-IsKeyed.0)

    -- Whatever the order of iteration over the map, and where no score is NaN, every result
    -- that `merge` returns is one of the results of the responses, and no result of the
    -- responses with the same canonical URL scores more.
    pub merge-IsBest :
        All (λ response. All (λ q. is_nan q.rank_score ≡ false) response.results) responses
        → All
            (λ r. IsBest f64 canonicalize (gather responses []) (canonicalize r.url) (some r))
            (merge f64 canonicalize order responses limit).results
    unfolding merge lookup
    merge-IsBest numbers = All-take _ limit ranked (
        All-perm _ ranked-perm (
          All-map
            (λ r found.
              subst (IsBest f64 canonicalize (gather responses []) (canonicalize r.url)) found
                (take_in-IsBest responses start [] (canonicalize r.url) tt numbers tt))
            values (own_values held held-IsKeyed)))
