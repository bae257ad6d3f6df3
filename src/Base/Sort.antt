-- ===== src/Base/Sort.antt =====
-- `slice::sort_by`, the stable sort of the standard library, as an insertion sort. `after x y` says
-- that the comparison puts `x` strictly behind `y`.
use mathlib.Core.List.{List, [], ◌∷◌, Permᴰ, Memᴰ}
use mathlib.Core.Path.{◌≡◌, refl, sym, subst, ◌∙◌}
use mathlib.Core.Bool.{Bool, true, false}
use skipjack_mcp.Base.Lists.{All}
use skipjack_mcp.Base.Tests.{if◌then◌else◌, Bool-cases}
use mathlib.Core.Logic.{inl, inr}

module _ {ℓ} {A : Type ℓ} (after : A → A → Bool) where
  unfoldable pub place : A → List A → List A
  place x [] = x ∷ []
  place x (y ∷ ys) = let rest = place x ys in if after x y then y ∷ rest else x ∷ y ∷ ys

  unfoldable pub sort_by : List A → List A
  unfolding place
  sort_by [] = []
  sort_by (x ∷ xs) = place x (sort_by xs)

  -- No element belongs strictly behind its successor.
  abbrev pub IsSorted : List A → Type 0
  IsSorted [] = Unit
  IsSorted (x ∷ []) = Unit
  IsSorted (x ∷ y ∷ ys) = (after x y ≡ false) × IsSorted (y ∷ ys)

  same_perm : (xs : List A) → Permᴰ xs xs
  same_perm [] = Permᴰ.nil
  same_perm (x ∷ xs) = Permᴰ.cons refl (same_perm xs)

  place-perm : (x : A) (xs : List A) → Permᴰ (place x xs) (x ∷ xs)
  unfolding place
  place-perm x [] = same_perm (x ∷ [])
  place-perm x (y ∷ ys) = elim (Bool-cases (after x y)) [
    | inl behind ↦
        rw behind (Permᴰ.trans (Permᴰ.cons refl (place-perm x ys)) (Permᴰ.swap refl refl))
    | inr before ↦ rw before (same_perm (x ∷ y ∷ ys))
  ]

  pub sort_by-perm : (xs : List A) → Permᴰ (sort_by xs) xs
  unfolding sort_by
  sort_by-perm [] = Permᴰ.nil
  sort_by-perm (x ∷ xs) =
      Permᴰ.trans (place-perm x (sort_by xs)) (Permᴰ.cons refl (sort_by-perm xs))

  module _ (asym : (x y : A) → after x y ≡ true → after y x ≡ false) where
    place-IsSorted : (x : A) (xs : List A) → IsSorted xs → IsSorted (place x xs)
    unfolding place
    place-IsSorted x [] h = tt
    place-IsSorted x (y ∷ []) h = elim (Bool-cases (after x y)) [
      | inl behind ↦ rw behind (asym x y behind, tt)
      | inr before ↦ rw before (before, tt)
    ]
    place-IsSorted x (y ∷ z ∷ zs) h =
        let rest = place-IsSorted x (z ∷ zs) h.1 in
        elim (Bool-cases (after x y)) [
          | inl behind ↦ elim (Bool-cases (after x z)) [
            | inl further ↦ rw (behind, further) (h.0, rw further at rest)
            | inr here ↦ rw (behind, here) (asym x y behind, rw here at rest)
          ]
          | inr before ↦ rw before (before, h)
        ]

    pub sort_by-IsSorted : (xs : List A) → IsSorted (sort_by xs)
    unfolding sort_by
    sort_by-IsSorted [] = tt
    sort_by-IsSorted (x ∷ xs) = place-IsSorted x (sort_by xs) (sort_by-IsSorted xs)

-- `slice::sort_by` where the comparison may be no total order: all elements remain, and they are
-- sorted if the comparison is one on them, that is, if it is asymmetric and what is not strictly
-- behind is not so through a third either.
pub record Sorter : Type 1 where
  pub sort : {A : Type 0} → (A → A → Bool) → List A → List A
  pub sort-perm : {A : Type 0} (after : A → A → Bool) (xs : List A) → Permᴰ (sort after xs) xs
  pub sort-IsSorted :
      {A : Type 0} (after : A → A → Bool) (P : A → Type 0) (xs : List A)
      → ((x y : A) → after x y ≡ true → after y x ≡ false)
      → ((x y z : A) → P x → P y → P z → after x y ≡ false → after y z ≡ false → after x z ≡ false)
      → All P xs
      → IsSorted after (sort after xs)

-- The insertion sort is one.
abbrev pub insertion : Sorter
insertion = record {
  sort = sort_by;
  sort-perm = sort_by-perm;
  sort-IsSorted = λ after P xs asym cotrans all. sort_by-IsSorted after asym xs;
}

-- What holds of every element holds of every element of a permutation.
module _ {ℓ κ} {A : Type ℓ} (P : A → Type κ) where
  pub All-perm : {xs ys : List A} → Permᴰ xs ys → All P ys → All P xs
  All-perm Permᴰ.nil h = tt
  All-perm (Permᴰ.cons e p) h = (subst P (sym e) h.0, All-perm p h.1)
  All-perm (Permᴰ.swap e f) (first, (second, rest)) =
      (subst P (sym e) second, (subst P (sym f) first, rest))
  All-perm (Permᴰ.trans p q) h = All-perm p (All-perm q h)

-- A permutation has the same members.
module _ {ℓ} {A : Type ℓ} where
  pub mem-perm : {xs ys : List A} {a : A} → Permᴰ xs ys → Memᴰ a ys → Memᴰ a xs
  mem-perm Permᴰ.nil m = m
  mem-perm (Permᴰ.cons e p) (Memᴰ.head h) = Memᴰ.head (h ∙ sym e)
  mem-perm (Permᴰ.cons e p) (Memᴰ.tail m) = Memᴰ.tail (mem-perm p m)
  mem-perm (Permᴰ.swap e f) (Memᴰ.head h) = Memᴰ.tail (Memᴰ.head (h ∙ sym f))
  mem-perm (Permᴰ.swap e f) (Memᴰ.tail (Memᴰ.head h)) = Memᴰ.head (h ∙ sym e)
  mem-perm (Permᴰ.swap e f) (Memᴰ.tail (Memᴰ.tail m)) = Memᴰ.tail (Memᴰ.tail m)
  mem-perm (Permᴰ.trans p q) m = mem-perm p (mem-perm q m)
