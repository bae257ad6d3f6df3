-- ===== src/Merge/Keys.antt =====
-- src/search/merge.rs. Association lists with distinct keys, and what the first elements of a list
-- inherit.
use mathlib.Core.List.{
  Mem, Nodup, Nodup-cons, Nodup-nil, not-mem-nil, eq-or-mem_of_mem-cons, mem-cons_of_mem,
  mem-cons_self,
}
use mathlib.Core.HLevel.{⊥_prop}
use mathlib.Core.Logic.Or
use mathlib.Core.Path.{subst}
use skipjack_mcp.Base.{
  ℕ, zero, suc, ◌≡◌, ◌≢◌, refl, sym, ap, Bool, false, some, List, [], ◌∷◌, map, take, All, arith,
  Bool-cases, inl, inr,
}
use skipjack_mcp.Base.Text.{Text, text_eq, text_eq_iff}
use skipjack_mcp.Base.Dict.{lookup, insert}
use skipjack_mcp.Base.Sort.{IsSorted}

module _ {ℓ} {V : Type ℓ} where
  abbrev pub keys : List (Text × V) → List Text
  keys m = map (λ e. e.0) m

  not-mem-insert :
      (i k : Text) (v : V) (m : List (Text × V))
      → i ≢ k
      → ¬ Mem i (keys m)
      → ¬ Mem i (keys (insert k v m))
  unfolding insert
  not-mem-insert i k v [] ne absent =
      λ h. Or.elim ⊥_prop (eq-or-mem_of_mem-cons h) ne (λ none_in. not-mem-nil none_in)
  not-mem-insert i k v ((j, w) ∷ m) ne absent = elim (Bool-cases (text_eq j k)) [
    | inl same ↦ rw same (λ h.
        Or.elim ⊥_prop (eq-or-mem_of_mem-cons h) ne (λ later. absent (mem-cons_of_mem j later)))
    | inr differs ↦ rw differs (λ h.
        Or.elim ⊥_prop (eq-or-mem_of_mem-cons h)
          (λ here. absent (subst (λ x. Mem i (x ∷ keys m)) here mem-cons_self))
          (not-mem-insert i k v m ne (λ later. absent (mem-cons_of_mem j later))))
  ]

  pub insert-Nodup :
      (k : Text) (v : V) (m : List (Text × V)) → Nodup (keys m) → Nodup (keys (insert k v m))
  unfolding insert
  insert-Nodup k v [] h = Nodup-cons.1 (not-mem-nil, Nodup-nil)
  insert-Nodup k v ((j, w) ∷ m) h = elim (Bool-cases (text_eq j k)) [
    | inl same ↦ rw (same, ← (text_eq_iff j k).0 same) h
    | inr differs ↦ rw differs (
        Nodup-cons.1 (
          not-mem-insert j k v m (λ e. ground (arith, text_eq_iff j k)) (Nodup-cons.0 h).0,
          insert-Nodup k v m (Nodup-cons.0 h).1,
        ))
  ]

take-not-mem {ℓ} : {A : Type ℓ} (a : A) (n : ℕ) (xs : List A) → ¬ Mem a xs → ¬ Mem a (take n xs)
take-not-mem a zero xs h = not-mem-nil
take-not-mem a (suc n) [] h = not-mem-nil
take-not-mem a (suc n) (x ∷ xs) h = λ m.
    Or.elim ⊥_prop (eq-or-mem_of_mem-cons m)
      (λ here. h (subst (λ y. Mem a (y ∷ xs)) here mem-cons_self))
      (take-not-mem a n xs (λ later. h (mem-cons_of_mem x later)))

pub take-Nodup {ℓ} : {A : Type ℓ} (n : ℕ) (xs : List A) → Nodup xs → Nodup (take n xs)
take-Nodup zero xs h = Nodup-nil
take-Nodup (suc n) [] h = Nodup-nil
take-Nodup (suc n) (x ∷ xs) h =
    Nodup-cons.1 (take-not-mem x n xs (Nodup-cons.0 h).0, take-Nodup n xs (Nodup-cons.0 h).1)

pub map-take {ℓ κ} :
    {A : Type ℓ} {B : Type κ} (f : A → B) (n : ℕ) (xs : List A)
    → map f (take n xs) ≡ take n (map f xs)
map-take f zero xs = refl
map-take f (suc n) [] = refl
map-take f (suc n) (x ∷ xs) = ap (◌∷◌ (f x)) (map-take f n xs)

pub take-IsSorted {ℓ} :
    {A : Type ℓ} (after : A → A → Bool) (n : ℕ) (xs : List A)
    → IsSorted after xs
    → IsSorted after (take n xs)
take-IsSorted after zero xs h = tt
take-IsSorted after (suc n) [] h = tt
take-IsSorted after (suc zero) (x ∷ xs) h = tt
take-IsSorted after (suc (suc n)) (x ∷ []) h = tt
take-IsSorted after (suc (suc n)) (x ∷ y ∷ ys) h = (h.0, take-IsSorted after (suc n) (y ∷ ys) h.1)

module _ {ℓ κ μ ν} {A : Type ℓ} {P : A → Type κ} {Q : A → Type μ} {R : A → Type ν} where
  pub All-both : ((x : A) → P x → Q x → R x) → (xs : List A) → All P xs → All Q xs → All R xs
  All-both f [] h k = tt
  All-both f (x ∷ xs) h k = (f x h.0 k.0, All-both f xs h.1 k.1)

module _ {ℓ} {V : Type ℓ} where
  absent-differs :
      (j : Text) (m : List (Text × V)) → ¬ Mem j (keys m) → All (λ e. text_eq j e.0 ≡ false) m
  absent-differs j [] h = tt
  absent-differs j ((k, w) ∷ m) h = (
    elim (Bool-cases (text_eq j k)) [
      | inl same ↦
          absurd
            (h (subst (λ x. Mem x (k ∷ keys m)) (sym ((text_eq_iff j k).0 same)) mem-cons_self))
      | inr differs ↦ differs
    ],
    absent-differs j m (λ later. h (mem-cons_of_mem k later)),
  )

  -- Under distinct keys every entry is what its key is looked up to.
  pub own_entries : (m : List (Text × V)) → Nodup (keys m) → All (λ e. lookup e.0 m ≡ some e.1) m
  unfolding lookup
  own_entries [] h = tt
  own_entries ((j, w) ∷ m) h = (
    ground (arith, text_eq_iff j j),
    All-both {P = λ e. text_eq j e.0 ≡ false} (λ e differs found. rw differs found) m
        (absent-differs j m (Nodup-cons.0 h).0) (own_entries m (Nodup-cons.0 h).1),
  )
