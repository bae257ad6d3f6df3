-- ===== src/Manager/Tiers.antt =====
-- src/daemon/manager.rs. The tiers of a tiered dispatch.
use mathlib.Core.List.{Permᴰ, append_assoc, append-nil}
use mathlib.Core.List.Permᴰ
use skipjack_mcp.Base.{
  ℕ, ◌<◌, ◌≡◌, refl, sym, ◌∙◌, List, [], ◌∷◌, ◌++◌, map, ltb, ◌==◌, ==_iff, All, All-append,
  All-map, arith, Bool-cases, inl, inr,
}
use mathlib.Core.Path.{subst}
use skipjack_mcp.Base.Text.{Text}
use skipjack_mcp.Manager.Catalog.{ProviderCatalog, get}
use skipjack_mcp.Manager.Priority.{IsTier, tier_of-IsTier}
use skipjack_mcp.Manager.Choice.{tier_of, push_at, group, tier_order}

abbrev pub concat : List (ℕ × List Text) → List Text
concat [] = []
concat ((t, names) ∷ tiers) = names ++ concat tiers

-- The tiers ascend strictly.
abbrev pub IsAscending : List (ℕ × List Text) → Type 0
IsAscending [] = Unit
IsAscending ((t, names) ∷ tiers) = All (λ e. t < e.0) tiers × IsAscending tiers

module _ (catalog : ProviderCatalog) where
  -- Every name stands in its own tier.
  abbrev IsSorted : List (ℕ × List Text) → Type 0
  IsSorted tiers = All (λ e. All (λ name. tier_of catalog name ≡ e.0) e.1) tiers

above-push_at :
    (low tier : ℕ) (name : Text) (tiers : List (ℕ × List Text))
    → low < tier
    → All (λ e. low < e.0) tiers
    → All (λ e. low < e.0) (push_at tier name tiers)
unfolding push_at
above-push_at low tier name [] h k = (h, tt)
above-push_at low tier name ((t, names) ∷ tiers) h k = elim (Bool-cases (tier == t)) [
  | inl same ↦ rw same k
  | inr differs ↦ elim (Bool-cases (ltb tier t)) [
    | inl below ↦ rw (differs, below) (h, k)
    | inr above ↦ rw (differs, above) (k.0, above-push_at low tier name tiers h k.1)
  ]
]

push_at-IsAscending :
    (tier : ℕ) (name : Text) (tiers : List (ℕ × List Text))
    → IsAscending tiers
    → IsAscending (push_at tier name tiers)
unfolding push_at
push_at-IsAscending tier name [] h = (tt, tt)
push_at-IsAscending tier name ((t, names) ∷ tiers) h = elim (Bool-cases (tier == t)) [
  | inl same ↦ rw same h
  | inr differs ↦ elim (Bool-cases (ltb tier t)) [
    | inl below ↦
        let lt_t : tier < t = ground arith in
        rw (differs, below) ((lt_t, raise tier t lt_t tiers h.0), h)
    | inr above ↦
        let gt_t : t < tier = ground (arith, ==_iff tier t) in
        rw (differs, above)
          (above-push_at t tier name tiers gt_t h.0, push_at-IsAscending tier name tiers h.1)
  ]
]
  where
    raise :
        (low high : ℕ)
        → low < high
        → (es : List (ℕ × List Text)) → All (λ e. high < e.0) es
        → All (λ e. low < e.0) es
    raise low high l [] k = tt
    raise low high l (e ∷ es) k = (omega (arith, k.0), raise low high l es k.1)

push_at-IsSorted :
    (catalog : ProviderCatalog) (tier : ℕ) (name : Text) (tiers : List (ℕ × List Text))
    → tier_of catalog name ≡ tier
    → IsSorted catalog tiers
    → IsSorted catalog (push_at tier name tiers)
unfolding push_at
push_at-IsSorted catalog tier name [] own h = ((own, tt), tt)
push_at-IsSorted catalog tier name ((t, names) ∷ tiers) own h = elim (Bool-cases (tier == t)) [
  | inl same ↦
      let here = (==_iff tier t).0 same in
      rw same (All-append _ names (name ∷ []) h.0 (own ∙ here, tt), h.1)
  | inr differs ↦ elim (Bool-cases (ltb tier t)) [
    | inl below ↦ rw (differs, below) ((own, tt), h)
    | inr above ↦ rw (differs, above) (h.0, push_at-IsSorted catalog tier name tiers own h.1)
  ]
]

push_at-perm :
    (tier : ℕ) (name : Text) (tiers : List (ℕ × List Text))
    → Permᴰ (concat (push_at tier name tiers)) (name ∷ concat tiers)
unfolding push_at
push_at-perm tier name [] = Permᴰ.refl (name ∷ [])
push_at-perm tier name ((t, names) ∷ tiers) = elim (Bool-cases (tier == t)) [
  | inl same ↦ rw same (
      subst (λ l. Permᴰ l (name ∷ names ++ concat tiers))
        (sym (append_assoc names (name ∷ []) (concat tiers)))
        (Permᴰ.middle name names (concat tiers)))
  | inr differs ↦ elim (Bool-cases (ltb tier t)) [
    | inl below ↦ rw (differs, below) (Permᴰ.refl (name ∷ names ++ concat tiers))
    | inr above ↦
        rw (differs, above)
          (Permᴰ.trans (Permᴰ.append_left names (push_at-perm tier name tiers))
            (Permᴰ.middle name names (concat tiers)))
  ]
]

module _ (catalog : ProviderCatalog) where
  -- A grouping of names: what the chunks are, with the tier of each.
  pub record IsGrouping (names : List Text) (chunks : List (List Text)) : Type 0 where
    pub tiers : List (ℕ × List Text)
    pub without : map (λ e. e.1) tiers ≡ chunks
    pub ascending : IsAscending tiers
    pub placed : All (λ e. All (λ name. IsTier (get catalog name) e.0) e.1) tiers
    pub complete : Permᴰ (concat tiers) names

  grouped :
      (names : List Text) (tiers : List (ℕ × List Text))
      → IsAscending tiers
      → IsSorted catalog tiers
      → IsAscending (group catalog names tiers)
        × IsSorted catalog (group catalog names tiers)
        × Permᴰ (concat (group catalog names tiers)) (names ++ concat tiers)
  unfolding group
  grouped [] tiers a s = (a, s, Permᴰ.refl (concat tiers))
  grouped (name ∷ names) tiers a s =
      let tier = tier_of catalog name in
      let (a', s', p) =
        grouped names (push_at tier name tiers) (push_at-IsAscending tier name tiers a)
          (push_at-IsSorted catalog tier name tiers refl s) in
      (
        a',
        s',
        Permᴰ.trans p (
            Permᴰ.trans (Permᴰ.append_left names (push_at-perm tier name tiers))
              (Permᴰ.middle name names (concat tiers))),
      )

  -- The tiers of a dispatch hold every chosen provider as often as it was chosen, and come in
  -- ascending order; each provider is in the tier of the first place, in the order Web, News,
  -- Academic, Code, Privacy, Finance, Knowledge, Images, Video, Shopping, Playwright, at which
  -- a tag of its stands, or in the last tier if it has no tag or is not registered.
  pub tier_order-IsGrouping : (names : List Text) → IsGrouping names (tier_order catalog names)
  unfolding tier_order
  tier_order-IsGrouping names =
      let (a, s, p) = grouped names [] tt tt in
      record {
        tiers = group catalog names [];
        without = refl;
        ascending = a;
        placed =
            All-map
              (λ e h.
                All-map
                  (λ name own. subst (IsTier (get catalog name)) own (tier_of-IsTier catalog name))
                  e.1 h)
              (group catalog names []) s;
        complete = subst (Permᴰ (concat (group catalog names []))) (append-nil names) p;
      }
