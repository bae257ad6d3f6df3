-- ===== src/Server/Position.antt =====
-- src/daemon/server.rs. Where a line ends.
use skipjack_mcp.Base.{
  ℕ, suc, ◌+◌, ◌≡◌, refl, ap, ◌∙◌, inl, inr, true, false, none, some, [], ◌∷◌, ◌++◌, ◌==◌, length,
  take, drop, arith, ==_iff, Bool-cases, Option-cases,
}
use skipjack_mcp.Base.Text.{Text}
use skipjack_mcp.Url.Split.{IsFree}
use skipjack_mcp.Server.Lines.{newline, position}

-- The text up to the first newline, and from behind it.
abbrev pub Cuts : Text → Text → Text → Type 0
Cuts bytes line rest = (bytes ≡ line ++ newline ∷ rest) × IsFree newline line

abbrev pub IsCut : Text → ℕ → Type 0
IsCut s pos =
    (before : Text) × (after : Text) × Cuts s before after
    × (take pos s ≡ before)
    × (drop (pos + 1) s ≡ after)
    × (pos ≡ length before)

found_here :
    (b : ℕ) (s : Text) (pos : ℕ) → (b == newline) ≡ true → some 0 ≡ some pos → IsCut (b ∷ s) pos
found_here b s pos e h =
    let here : 0 ≡ pos = cc in
    let same : b ≡ newline = (==_iff b newline).0 e in
    rw (← here) ([], s, (ap (λ c. c ∷ s) same, tt), refl, refl, refl)

drop-suc : (p b : ℕ) (s : Text) → drop (suc p + 1) (b ∷ s) ≡ drop (p + 1) s
drop-suc p b s = let e : suc p + 1 ≡ suc (p + 1) = omega arith in rw e refl

found_later :
    (b : ℕ) (s : Text) (p pos : ℕ)
    → (b == newline) ≡ false
    → IsCut s p
    → some (suc p) ≡ some pos
    → IsCut (b ∷ s) pos
found_later b s p pos e (before, after, (shape, free), front, back, size) h =
    let here : suc p ≡ pos = cc in
    rw (← here) (
      b ∷ before,
      after,
      (ap (◌∷◌ b) shape, (e, free)),
      ap (◌∷◌ b) front,
      drop-suc p b s ∙ back,
      ap suc size,
    )

pub position-some : (s : Text) (pos : ℕ) → position s ≡ some pos → IsCut s pos
unfolding position
position-some [] pos h = cc
position-some (b ∷ s) pos h = elim (Bool-cases (b == newline)) [
  | inl e ↦ found_here b s pos e (ground (arith, e, h))
  | inr e ↦ elim (Option-cases (position s)) [
    | inl n ↦ absurd (ground (arith, e, n, h))
    | inr (p, f) ↦ found_later b s p pos e (position-some s p f) (ground (arith, e, f, h))
  ]
]

pub position-none : (s : Text) → position s ≡ none → IsFree newline s
unfolding position
position-none [] h = tt
position-none (b ∷ s) h = elim (Bool-cases (b == newline)) [
  | inl e ↦ absurd (ground (arith, e, h))
  | inr e ↦ elim (Option-cases (position s)) [
    | inl n ↦ (e, position-none s n)
    | inr (p, f) ↦ absurd (ground (arith, e, f, h))
  ]
]
