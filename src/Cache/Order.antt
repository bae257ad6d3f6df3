-- ===== src/Cache/Order.antt =====
-- src/cache/mod.rs. Keys and provider lists, and the order and the names of the providers.
use mathlib.Core.List.{Permᴰ, append_assoc}
use skipjack_mcp.Base.{
  ◌≡◌, refl, sym, ap, ◌∙◌, Bool, true, false, Option, List, [], ◌∷◌, ◌++◌, arith, Bool-cases, inl,
  inr,
}
use skipjack_mcp.Base.Text.{Text, bytes}
use skipjack_mcp.Base.Sort.{sort_by, place}
use skipjack_mcp.Search.{Freshness}
use skipjack_mcp.Url.Defs.{join}
use skipjack_mcp.Cache.Keys.{
  text_less, sort, piped, hashed, hex, cache_key, freshness_part, provider_list_string,
}

less_asym : (s t : Text) → text_less s t ≡ true → text_less t s ≡ false
unfolding text_less
less_asym [] [] h = refl
less_asym [] (d ∷ t) h = refl
less_asym (c ∷ s) [] h = cc
less_asym (c ∷ s) (d ∷ t) h = ground (arith, less_asym s t)

less_trans : (r s t : Text) → text_less r s ≡ true → text_less s t ≡ true → text_less r t ≡ true
unfolding text_less
less_trans r s [] h k = cc
less_trans r [] (e ∷ t) h k = cc
less_trans [] (d ∷ s) (e ∷ t) h k = refl
less_trans (c ∷ r) (d ∷ s) (e ∷ t) h k = ground (arith, less_trans r s t)

less_total : (s t : Text) → text_less s t ≡ false → text_less t s ≡ false → s ≡ t
unfolding text_less
less_total [] [] h k = refl
less_total [] (d ∷ t) h k = cc
less_total (c ∷ s) [] h k = cc
less_total (c ∷ s) (d ∷ t) h k = ground (arith, less_total s t)

abbrev behind : Text → Text → Bool
behind x y = text_less y x

place-past :
    (x z : Text) (l : List Text)
    → text_less z x ≡ true
    → place behind x (z ∷ l) ≡ z ∷ place behind x l
unfolding place
place-past x z l h = rw h refl

place-here :
    (x z : Text) (l : List Text) → text_less z x ≡ false → place behind x (z ∷ l) ≡ x ∷ z ∷ l
unfolding place
place-here x z l h = rw h refl

place-empty : (x : Text) → place behind x [] ≡ x ∷ []
unfolding place
place-empty x = refl

place_comm :
    (x y : Text) (l : List Text)
    → text_less x y ≡ true
    → place behind x (place behind y l) ≡ place behind y (place behind x l)
place_comm x y [] h =
    cc (place-here x y [] (less_asym x y h), place-past y x [] h, place-empty x, place-empty y)
place_comm x y (z ∷ l) h =
    let rest = place_comm x y l h in
    elim (Bool-cases (text_less z y)) [
      | inl below ↦ elim (Bool-cases (text_less z x)) [
        | inl lower ↦ cc (
          rest,
          place-past y z l below,
          place-past x z l lower,
          place-past x z (place behind y l) lower,
          place-past y z (place behind x l) below,
        )
        | inr upper ↦ cc (
          place-past y z l below,
          place-here x z l upper,
          place-here x z (place behind y l) upper,
          place-past y x (z ∷ l) h,
        )
      ]
      | inr above ↦ elim (Bool-cases (text_less z x)) [
        | inl lower ↦ let passed = less_trans z x y lower h in cc
        | inr upper ↦ cc (
          place-here y z l above,
          place-here x z l upper,
          place-here x y (z ∷ l) (less_asym x y h),
          place-past y x (z ∷ l) h,
        )
      ]
    ]

place_swap :
    (x y : Text) (l : List Text)
    → place behind x (place behind y l) ≡ place behind y (place behind x l)
place_swap x y l = elim (Bool-cases (text_less x y)) [
  | inl below ↦ place_comm x y l below
  | inr above ↦ elim (Bool-cases (text_less y x)) [
    | inl below ↦ sym (place_comm y x l below)
    | inr same ↦
        ap (λ z. place behind z (place behind y l)) (less_total x y above same)
        ∙ ap (λ z. place behind y (place behind z l)) (sym (less_total x y above same))
  ]
]

pub sort-perm : {ps qs : List Text} → Permᴰ ps qs → sort ps ≡ sort qs
unfolding sort sort_by
sort-perm Permᴰ.nil = refl
sort-perm (Permᴰ.cons e p) = cc (e, sort-perm p)
sort-perm (Permᴰ.swap {a = a} {b = b} {l = l} e f) = place_swap a b (sort_by behind l) ∙ cc (e, f)
sort-perm (Permᴰ.trans p q) = sort-perm p ∙ sort-perm q

-- `provider_list_string` as a function of the sorted names.
abbrev of_sorted : List Text → Text
of_sorted [] = bytes "auto"
of_sorted (p ∷ providers) = join b',' (p ∷ providers)

of_sorted-place :
    (x : Text) (l : List Text) → of_sorted (place behind x l) ≡ join b',' (place behind x l)
unfolding place
of_sorted-place x [] = refl
of_sorted-place x (z ∷ l) = elim (Bool-cases (text_less z x)) [
  | inl past ↦ rw past refl
  | inr here ↦ rw here refl
]

of_sorted-sort : (ps : List Text) → of_sorted (sort ps) ≡ provider_list_string ps
unfolding provider_list_string sort sort_by
of_sorted-sort [] = refl
of_sorted-sort (p ∷ providers) = of_sorted-place p (sort providers)

-- Two provider lists that agree up to their order give the same cache key and the same list in
-- the column `provider_list`.
pub cache_key-perm :
    (sha256 : Text → Text) (query : Text) (ps qs : List Text) (freshness : Option Freshness)
    → Permᴰ ps qs
    → (cache_key sha256 query ps freshness ≡ cache_key sha256 query qs freshness)
      × (provider_list_string ps ≡ provider_list_string qs)
unfolding cache_key hashed
cache_key-perm sha256 query ps qs freshness p =
    (cc (sort-perm p), sym (of_sorted-sort ps) ∙ ap of_sorted (sort-perm p) ∙ of_sorted-sort qs)

-- Keys are ambiguous: a query that ends in `|` and a name has, with a name that is not less as
-- its only provider, the key of the shorter query with both providers.
pub cache_key-collides :
    (sha256 : Text → Text) (query p q : Text) (freshness : Option Freshness)
    → text_less q p ≡ false
    → cache_key sha256 (query ++ b'|' ∷ p) (q ∷ []) freshness
      ≡ cache_key sha256 query (p ∷ q ∷ []) freshness
unfolding cache_key hashed sort sort_by piped
cache_key-collides sha256 query p q freshness h =
    rw (place-empty q, place-here p q [] h)
      (ap (λ s. hex (sha256 (s ++ freshness_part freshness)))
        (append_assoc query (b'|' ∷ p) (b'|' ∷ q ++ [])))
