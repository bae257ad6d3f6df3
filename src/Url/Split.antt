-- ===== src/Url/Split.antt =====
-- src/search/merge.rs. Splitting and joining.
use skipjack_mcp.Base.{none, ℕ, ◌≡◌, refl, ap, false, some, List, [], ◌∷◌, ◌++◌, ◌==◌, All, arith}
use skipjack_mcp.Base.Text.{Text}
use skipjack_mcp.Url.Defs.{split_first, split, join, split_at}

-- The character does not occur.
abbrev pub IsFree : ℕ → Text → Type 0
IsFree c s = All (λ d. (d == c) ≡ false) s

pub split_first-free : (c : ℕ) (s : Text) → IsFree c s → split_first c s ≡ s
unfolding split_first
split_first-free c [] h = refl
split_first-free c (d ∷ s) h = ground (arith, h.0, split_first-free c s h.1)

pub split_first-append : (c : ℕ) (s t : Text) → IsFree c s → split_first c (s ++ c ∷ t) ≡ s
unfolding split_first
split_first-append c [] t h = ground arith
split_first-append c (d ∷ s) t h = ground (arith, h.0, split_first-append c s t h.1)

pub split_at-free : (c : ℕ) (s : Text) → IsFree c s → split_at c s ≡ none
unfolding split_at
split_at-free c [] h = refl
split_at-free c (d ∷ s) h = let rest = split_at-free c s h.1 in rw (h.0, rest) refl

pub split_at-append : (c : ℕ) (s t : Text) → IsFree c s → split_at c (s ++ c ∷ t) ≡ some (s, t)
unfolding split_at
split_at-append c [] t h = ground arith
split_at-append c (d ∷ s) t h = rw (h.0, split_at-append c s t h.1) refl

split-free : (c : ℕ) (s : Text) → IsFree c s → split c s ≡ s ∷ []
unfolding split
split-free c [] h = refl
split-free c (d ∷ s) h = rw (h.0, split-free c s h.1) refl

split-append : (c : ℕ) (s t : Text) → IsFree c s → split c (s ++ c ∷ t) ≡ s ∷ split c t
unfolding split
split-append c [] t h = ground arith
split-append c (d ∷ s) t h = rw (h.0, split-append c s t h.1) refl

pub split-join :
    (c : ℕ) (piece : Text) (pieces : List Text)
    → All (IsFree c) (piece ∷ pieces)
    → split c (join c (piece ∷ pieces)) ≡ piece ∷ pieces
unfolding join
split-join c piece [] h = split-free c piece h.0
split-join c piece (next ∷ pieces) h =
    rw (split-append c piece (join c (next ∷ pieces)) h.0)
      (ap (◌∷◌ piece) (split-join c next pieces h.1))

IsFree-append : (c : ℕ) (s t : Text) → IsFree c s → IsFree c t → IsFree c (s ++ t)
IsFree-append c [] t h k = k
IsFree-append c (d ∷ s) t h k = (h.0, IsFree-append c s t h.1 k)

pub IsFree-join :
    (c d : ℕ) (pieces : List Text)
    → (d == c) ≡ false
    → All (IsFree c) pieces
    → IsFree c (join d pieces)
unfolding join
IsFree-join c d [] ne h = tt
IsFree-join c d (piece ∷ []) ne h = h.0
IsFree-join c d (piece ∷ next ∷ pieces) ne h =
    IsFree-append c piece (d ∷ join d (next ∷ pieces)) h.0
      (ne, IsFree-join c d (next ∷ pieces) ne h.1)

pub IsFree-query :
    (c d : ℕ) (base query : Text)
    → (d == c) ≡ false
    → IsFree c base
    → IsFree c query
    → IsFree c (base ++ d ∷ query)
IsFree-query c d base query ne h k = IsFree-append c base (d ∷ query) h (ne, k)
