-- ===== src/Merge/Best.antt =====
-- src/search/merge.rs. The deduplication: the best result of each canonical URL.
use skipjack_mcp.Base.{
  ◌≡◌, refl, true, false, Option, none, some, List, [], ◌∷◌, if◌then◌else◌, All, All-map,
  All_of_mem, arith, Bool-cases, Option-cases, inl, inr,
}
use mathlib.Core.List.{Memᴰ}
use skipjack_mcp.Base.Text.{Text, text_eq, text_eq_iff}
use skipjack_mcp.Base.Dict.{lookup, lookup-insert}
use skipjack_mcp.Base.Float.{F64}
use skipjack_mcp.Merge.Defs.{Hit, Seen, see, see_all}

module _ (f64 : F64) (canonicalize : Text → Text) where
  open f64 use {Carrier, lt, is_nan}

  abbrev pub Result' : Type 0
  Result' = Hit f64 canonicalize

  -- The entry of a key is one of the results so far, has that key, and no result so far with that
  -- key scores more; a key without an entry is that of no result.
  abbrev pub IsBest : List Result' → Text → Option Result' → Type 0
  IsBest sofar key none = All (λ r. text_eq (canonicalize r.url) key ≡ false) sofar
  IsBest sofar key (some b) =
      (text_eq (canonicalize b.url) key ≡ true)
      × (Memᴰ b sofar)
      × All (λ r. text_eq (canonicalize r.url) key ≡ true → lt b.rank_score r.rank_score ≡ false)
          sofar

  lt_irrefl : (a : Carrier) → lt a a ≡ false
  lt_irrefl a = elim (Bool-cases (lt a a)) [ inl below ↦ f64.lt_asym a a below | inr same ↦ same ]

  -- What a result makes of the entry of its own key.
  abbrev improved : Result' → Option Result' → Option Result'
  improved r none = some r
  improved r (some b) = if lt b.rank_score r.rank_score then some r else some b

  lookup-see :
      (seen : Seen f64 canonicalize) (r : Result') (key : Text)
      → lookup key (see f64 canonicalize seen r) ≡ (
          if text_eq (canonicalize r.url) key
          then improved r (lookup key seen)
          else lookup key seen)
  unfolding see
  lookup-see seen r key =
      let c = canonicalize r.url in
      let law = lookup-insert c key r seen in
      elim (Option-cases (lookup c seen)) [
        | inl absent ↦ ground (arith, law, text_eq_iff c key)
        | inr (b, found) ↦ ground (arith, law, text_eq_iff c key)
      ]

  module _ (r : Result') (sofar : List Result') (key : Text) where
    IsBest-other :
        (o : Option Result')
        → text_eq (canonicalize r.url) key ≡ false
        → IsBest sofar key o
        → IsBest (r ∷ sofar) key o
    IsBest-other none other h = (other, h)
    IsBest-other (some b) other (own, member, best) = (own, Memᴰ.tail member, ((λ e. cc), best))

    IsBest-own :
        (o : Option Result')
        → text_eq (canonicalize r.url) key ≡ true
        → All (λ q. is_nan q.rank_score ≡ false) sofar
        → IsBest sofar key o
        → IsBest (r ∷ sofar) key (improved r o)
    IsBest-own none own numbers h =
        (own, Memᴰ.head refl, ((λ e. lt_irrefl r.rank_score), All-map (λ q differs e. cc) sofar h))
    IsBest-own (some b) own numbers (key_of_b, member, best) =
        elim (Bool-cases (lt b.rank_score r.rank_score)) [
          | inl worse ↦
              let number = All_of_mem (λ q. is_nan q.rank_score ≡ false) sofar b numbers member in
              rw worse (
                own,
                Memᴰ.head refl,
                (
                  (λ e. lt_irrefl r.rank_score),
                  All-map
                      (λ q below e.
                        f64.lt_cotrans r.rank_score b.rank_score q.rank_score number
                          (f64.lt_asym b.rank_score r.rank_score worse) (below e))
                      sofar best,
                ),
              )
          | inr better ↦ rw better (key_of_b, Memᴰ.tail member, ((λ e. better), best))
        ]

  IsBest-see :
      (seen : Seen f64 canonicalize) (r : Result') (sofar : List Result') (key : Text)
      → All (λ q. is_nan q.rank_score ≡ false) sofar
      → IsBest sofar key (lookup key seen)
      → IsBest (r ∷ sofar) key (lookup key (see f64 canonicalize seen r))
  IsBest-see seen r sofar key numbers h = elim (Bool-cases (text_eq (canonicalize r.url) key)) [
    | inl own ↦ rw (lookup-see, own) (IsBest-own r sofar key (lookup key seen) own numbers h)
    | inr other ↦ rw (lookup-see, other) (IsBest-other r sofar key (lookup key seen) other h)
  ]

  -- The results of a list put in front of those so far, as the loop meets them.
  abbrev pub newest : List Result' → List Result' → List Result'
  newest [] sofar = sofar
  newest (r ∷ results) sofar = newest results (r ∷ sofar)

  pub IsBest-see_all :
      (results : List Result') (seen : Seen f64 canonicalize) (sofar : List Result') (key : Text)
      → All (λ q. is_nan q.rank_score ≡ false) sofar
      → All (λ q. is_nan q.rank_score ≡ false) results
      → IsBest sofar key (lookup key seen)
      → IsBest (newest results sofar) key (lookup key (see_all f64 canonicalize seen results))
  unfolding see_all
  IsBest-see_all [] seen sofar key numbers more h = h
  IsBest-see_all (r ∷ results) seen sofar key numbers more h =
      IsBest-see_all results (see f64 canonicalize seen r) (r ∷ sofar) key (more.0, numbers) more.1
        (IsBest-see seen r sofar key numbers h)
