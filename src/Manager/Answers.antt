-- ===== src/Manager/Answers.antt =====
-- src/daemon/manager.rs. What a search answers.
use mathlib.Core.List.{Permᴰ, Nodup}
use mathlib.Core.List.Permᴰ
use mathlib.Core.List.Perm
use mathlib.Core.Path.{subst}
use skipjack_mcp.Base.{
  ℕ, suc, ◌≤◌, ◌≡◌, refl, sym, ap, ◌∙◌, Bool, true, false, not, Option, none, some, List, [], ◌∷◌,
  ◌++◌, map, if◌then◌else◌, length, length-map, is_empty, arith, Bool-cases, inl, inr, ◌⊎◌,
  unwrap_or,
}
use skipjack_mcp.Base.Text.{Text, bytes, text_eq}
use skipjack_mcp.Base.Sort.{Sorter}
use skipjack_mcp.Base.Float.{F64}
use skipjack_mcp.Search.{Result, ok, err, SearchRequest, SearchResult}
use skipjack_mcp.Cache.Defs as Cached
use skipjack_mcp.Merge.Defs.{merge}
use skipjack_mcp.Merge.Merged.{merge-IsRanked}
use skipjack_mcp.Rank.Defs.{RankingConfig, ℤ, enumerate, rank}
use skipjack_mcp.Rank.Scores.{scored}
use skipjack_mcp.Rank.Ranking.{rank_indexed}
use skipjack_mcp.Manager.Choice.{choose}
use skipjack_mcp.Manager.Setting.{Shared, Setting, Manager}
use skipjack_mcp.Manager.Pipeline.{Response, key_of}
use skipjack_mcp.Manager.Dispatch.{
  Event, limit, combine, finish, if_cached, search_concurrent, search_tiered, search,
}

length-perm : {A : Type 0} {xs ys : List A} → Permᴰ xs ys → length xs ≡ length ys
length-perm Permᴰ.nil = refl
length-perm (Permᴰ.cons e p) = omega (arith, length-perm p)
length-perm (Permᴰ.swap e f) = refl
length-perm (Permᴰ.trans p q) = length-perm p ∙ length-perm q

map-enumerate :
    {A B : Type 0} (f : A → B) (i : ℕ) (xs : List A) → map (λ e. f e.1) (enumerate i xs) ≡ map f xs
unfolding enumerate
map-enumerate f i [] = refl
map-enumerate f i (x ∷ xs) = ap (◌∷◌ (f x)) (map-enumerate f (suc i) xs)

map-map :
    {A B C : Type 0} (f : B → C) (g : A → B) (xs : List A)
    → map f (map g xs) ≡ map (λ x. f (g x)) xs
map-map f g [] = refl
map-map f g (x ∷ xs) = ap (◌∷◌ (f (g x))) (map-map f g xs)

-- A ranking keeps the URLs.
module _ (f64 : F64) (age_days : Text → Option ℤ) (config : RankingConfig (f64.Carrier))
    (weights : List (Text × f64.Carrier)) (sorter : Sorter) (f : Text → Text) where
  map-scored :
      (earlier results : List (SearchResult (f64.Carrier)))
      → map (λ r. f r.url) (scored f64 age_days config weights earlier results)
        ≡ map (λ r. f r.url) results
  map-scored earlier [] = refl
  map-scored earlier (r ∷ results) = ap (◌∷◌ (f r.url)) (map-scored (earlier ++ r ∷ []) results)

  rank-urls :
      (results : List (SearchResult (f64.Carrier)))
      → Permᴰ
          (map (λ r. f r.url) (rank f64 age_days config weights sorter results))
          (map (λ r. f r.url) results)
  rank-urls results =
      let (indexed, without, same) = rank_indexed f64 age_days config weights sorter results in
      let moved = Permᴰ.map (λ e. f e.1.url) same in
      let url = λ (r : SearchResult (f64.Carrier)). f r.url in
      let left : map (λ e. f e.1.url) indexed
          ≡ map url (rank f64 age_days config weights sorter results) =
        sym (map-map url (λ e. e.1) indexed) ∙ ap (map url) without in
      let right =
        map-enumerate url 0 (scored f64 age_days config weights [] results)
        ∙ map-scored [] results in
      subst (λ l. Permᴰ l (map url results)) left
        (subst (Permᴰ (map (λ e. f e.1.url) indexed)) right moved)

  length-rank :
      (results : List (SearchResult (f64.Carrier)))
      → length (rank f64 age_days config weights sorter results) ≡ length results
  length-rank results = omega (
    arith,
    length-perm (rank-urls results),
    length-map (rank f64 age_days config weights sorter results) (λ r. f r.url),
    length-map results (λ r. f r.url),
  )

module _ (f64 : F64) (setting : Setting f64) (manager : Manager (f64.Carrier))
    (request : SearchRequest) where
  open setting use {
    Outside, CacheError, now_secs, instant, from_str, canonicalize, age_days, provider_order,
    value_order, sorter,
  }

  -- At most the limit of results, with distinct canonical URLs, and not marked as a hit.
  abbrev pub IsMerged : Response f64 setting manager request → Type 0
  IsMerged response =
      (length response.results ≤ limit f64 setting manager request)
      × Nodup (map (λ r. canonicalize r.url) response.results)
      × (response.cache_hit ≡ false)

  -- The chosen providers and what the cache holds for them.
  abbrev pub chosen : Bool → Shared → Outside → List Text
  chosen tiered shared outside =
      (choose provider_order manager.catalog (not tiered) request (instant outside)
        shared.health_states).0

  abbrev pub cached_for :
      Bool → Shared → Outside → Result CacheError (Option (Response f64 setting manager request))
  cached_for tiered shared outside =
      (Cached.get from_str shared.cache
        (key_of f64 setting manager request (chosen tiered shared outside)) (now_secs outside)).1

  module _
      (value_order-perm : (xs : List (SearchResult (f64.Carrier)))
        → Permᴰ (value_order xs) xs) where
    combine-IsMerged :
        (responses : List (Response f64 setting manager request))
        → IsMerged (combine f64 setting manager request responses)
    unfolding combine merge
    combine-IsMerged responses =
        let l = limit f64 setting manager request in
        let merged = merge f64 canonicalize value_order responses l in
        let (bound, sorted, distinct) =
          merge-IsRanked f64 canonicalize value_order value_order-perm responses l in
        let moved =
          rank-urls f64 age_days manager.ranking manager.provider_weights sorter canonicalize
            merged.results in
        (
          subst (λ n. n ≤ l)
              (sym (
                length-rank f64 age_days manager.ranking manager.provider_weights sorter
                  canonicalize merged.results))
              bound,
          (Perm.Nodup-iff ∣ moved ∣₁).1 distinct,
          refl,
        )

    -- One of: no provider was chosen; the response of the cache for the chosen providers, with no
    -- provider asked; or a merged response.
    abbrev pub Answers :
        Bool → Shared → Outside → Response f64 setting manager request → Outside → Type 0
    Answers tiered shared outside response after =
        ((chosen tiered shared outside ≡ []) × (response.results ≡ []))
        ⊎ (((cached : Response f64 setting manager request) × (cached_for tiered shared outside
                ≡ ok (some cached))
              × (response.results ≡ cached.results)
              × (after ≡ outside))
            ⊎ IsMerged response)

    abbrev Outcome : Type 0
    Outcome = Response f64 setting manager request × Shared × Outside

    choice :
        (tiered : Bool) (shared : Shared) (outside : Outside) (b : Bool) (x y : Outcome)
        → (b ≡ true → Answers tiered shared outside x.0 x.2)
        → Answers tiered shared outside y.0 y.2
        → Answers tiered shared outside (if b then x else y).0 (if b then x else y).2
    choice tiered shared outside true x y h k = h refl
    choice tiered shared outside false x y h k = k

    if_cached-Answers :
        (tiered : Bool) (shared looked : Shared) (outside : Outside)
        (found : Result CacheError (Option (Response f64 setting manager request))) (rest : Outcome)
        → cached_for tiered shared outside ≡ found
        → IsMerged rest.0
        → Answers tiered shared outside
            (if_cached f64 setting manager request found looked outside rest).0
            (if_cached f64 setting manager request found looked outside rest).2
    if_cached-Answers tiered shared looked outside (ok (some cached)) rest e m =
        inr (inl (cached, e, refl, refl))
    if_cached-Answers tiered shared looked outside (ok none) rest e m = inr (inr m)
    if_cached-Answers tiered shared looked outside (err x) rest e m = inr (inr m)

    is_empty-nil : (names : List Text) → is_empty names ≡ true → names ≡ []
    is_empty-nil [] h = refl
    is_empty-nil (name ∷ names) h = cc

    concurrent-Answers :
        (events : List Text → List (Event f64 setting manager request)) (shared : Shared)
        (outside : Outside)
        → Answers false shared outside
            (search_concurrent f64 setting manager request events shared outside).0
            (search_concurrent f64 setting manager request events shared outside).2
    unfolding search_concurrent finish
    concurrent-Answers events shared outside =
        choice false shared outside (is_empty (chosen false shared outside)) _ _
          (λ nobody. inl (is_empty-nil (chosen false shared outside) nobody, refl))
          (if_cached-Answers false shared _ outside (cached_for false shared outside) _ refl
            (combine-IsMerged _))

    tiered-Answers :
        (late : Outside → Bool) (events : List Text → List (Event f64 setting manager request))
        (shared : Shared) (outside : Outside)
        → Answers true shared outside
            (search_tiered f64 setting manager request late events shared outside).0
            (search_tiered f64 setting manager request late events shared outside).2
    unfolding search_tiered finish
    tiered-Answers late events shared outside =
        if_cached-Answers true shared _ outside (cached_for true shared outside) _ refl
          (combine-IsMerged _)

    abbrev pub is_tiered : Bool
    is_tiered = text_eq (unwrap_or request.dispatch_mode manager.dispatch_mode) (bytes "tiered")

    -- Whatever providers and other requests do, and for any order in which the map of merged
    -- results is iterated, a search answers under the id of its request, and its results are
    -- none, where no provider is eligible; those of a response cached under the chosen
    -- providers, and then no provider is asked; or at most the limit of the request, or else
    -- of the configuration, with distinct canonical URLs and not marked as a hit.
    pub search-Answers :
        (late : Outside → Bool) (events : List Text → List (Event f64 setting manager request))
        (elapsed : ℕ) (shared : Shared) (outside : Outside)
        → ((search f64 setting manager request late events elapsed shared outside).0.request_id
            ≡ request.request_id)
          × Answers is_tiered shared outside
              (search f64 setting manager request late events elapsed shared outside).0
              (search f64 setting manager request late events elapsed shared outside).2
    unfolding search
    search-Answers late events elapsed shared outside = elim (Bool-cases is_tiered) [
      | inl tiered ↦ rw (tiered, search) (refl, tiered-Answers late events shared outside)
      | inr concurrent ↦ rw (concurrent, search) (refl, concurrent-Answers events shared outside)
    ]
