-- ===== src/Config/Overrides.antt =====
-- src/config.rs. What an override of the environment does to the configuration.
use skipjack_mcp.Base.{
  false, ◌≡◌, ◌⊎◌, refl, sym, ap, ◌∙◌, inl, inr, Option, none, some, List, [], ◌∷◌, arith,
  if◌then◌else◌, Option-cases,
}
use skipjack_mcp.Base.Text.{Text, text_eq, text_eq_iff, text_eq_refl, to_lowercase}
use skipjack_mcp.Search.{Result, ok, err}
use skipjack_mcp.Config.Toml.{
  Value, Table, leaf, table, empty, entry, find, insert, attach, set_path,
}

-- The paths part before either of them ends.
abbrev pub Apart : List Text → List Text → Type 0
Apart [] others = ⊥
Apart (part ∷ parts) [] = ⊥
Apart (part ∷ parts) (other ∷ others) =
    (text_eq (to_lowercase part) (to_lowercase other) ≡ false)
    ⊎ ((to_lowercase part ≡ to_lowercase other) × Apart parts others)

module _ {Leaf : Type 0} where
  find-insert :
      (k j : Text) (v : Value Leaf) (t : Table Leaf)
      → find j (insert k v t) ≡ (if text_eq k j then some v else find j t)
  unfolding find insert
  find-insert k j v empty = refl
  find-insert k j v (entry i w t) =
      ground (arith, text_eq_iff k j, text_eq_iff i k, text_eq_iff i j, find-insert k j v t)

  find-insert_self : (k : Text) (v : Value Leaf) (t : Table Leaf) → find k (insert k v t) ≡ some v
  find-insert_self k v t = find-insert k k v t ∙ rw (text_eq_refl k) refl

  find-insert_other :
      (k j : Text) (v : Value Leaf) (t : Table Leaf)
      → text_eq k j ≡ false
      → find j (insert k v t) ≡ find j t
  find-insert_other k j v t e = find-insert k j v t ∙ rw e refl

  -- What a table holds under a key and under a path of keys.
  abbrev pub within : Option (Value Leaf) → (Table Leaf → Option (Value Leaf)) → Option (Value Leaf)
  within none f = none
  within (some (leaf l)) f = none
  within (some (table u)) f = f u

  unfoldable pub get_path : List Text → Table Leaf → Option (Value Leaf)
  unfolding find
  get_path [] t = some (table t)
  get_path (part ∷ []) t = find (to_lowercase part) t
  get_path (part ∷ next ∷ parts) t = within (find (to_lowercase part) t) (get_path (next ∷ parts))

  ok_inj : {t u : Table Leaf} → ◌≡◌ {A = Result Text (Table Leaf)} (ok t) (ok u) → t ≡ u
  ok_inj h = cc

  attach_ok :
      (part : Text) (t t' : Table Leaf) (r : Result Text (Table Leaf))
      → attach part t r ≡ ok t'
      → (u : Table Leaf) × (r ≡ ok u) × (insert part (table u) t ≡ t')
  attach_ok part t t' (ok u) h = (u, refl, cc)
  attach_ok part t t' (err e) h = cc

  -- The table that a step of the walk goes on in.
  abbrev Inner : Option (Value Leaf) → Table Leaf → Type 0
  Inner found u = (found ≡ some (table u)) ⊎ ((found ≡ none) × (u ≡ empty))

  set_one :
      (key part : Text) (value : Value Leaf) (t : Table Leaf)
      → set_path key (part ∷ []) value t ≡ ok (insert (to_lowercase part) value t)
  unfolding set_path
  set_one key part value t = refl

  module _ (key part next : Text) (parts : List Text) (value : Value Leaf) (t : Table Leaf) where
    set_none :
        find (to_lowercase part) t ≡ none
        → set_path key (part ∷ next ∷ parts) value t
          ≡ attach (to_lowercase part) t (set_path key (next ∷ parts) value empty)
    unfolding set_path
    set_none e = rw (e, set_path) refl

    set_table :
        (u : Table Leaf)
        → find (to_lowercase part) t ≡ some (table u)
        → set_path key (part ∷ next ∷ parts) value t
          ≡ attach (to_lowercase part) t (set_path key (next ∷ parts) value u)
    unfolding set_path
    set_table u e = rw (e, set_path) refl

    set_leaf :
        (l : Leaf) (t' : Table Leaf)
        → find (to_lowercase part) t ≡ some (leaf l)
        → ¬ (set_path key (part ∷ next ∷ parts) value t ≡ ok t')
    unfolding set_path
    set_leaf l t' e h = ground (arith, e, h)

  set_step :
      (key part next : Text) (parts : List Text) (value : Value Leaf) (t t' : Table Leaf)
      → set_path key (part ∷ next ∷ parts) value t ≡ ok t'
      → (u : Table Leaf) × (u' : Table Leaf) × Inner (find (to_lowercase part) t) u
        × (set_path key (next ∷ parts) value u ≡ ok u')
        × (insert (to_lowercase part) (table u') t ≡ t')
  set_step key part next parts value t t' h = elim (Option-cases (find (to_lowercase part) t)) [
    | inl n ↦
        let (u', e, f) =
          attach_ok (to_lowercase part) t t' (set_path key (next ∷ parts) value empty)
            (sym (set_none key part next parts value t n) ∙ h) in
        (empty, u', inr (n, refl), e, f)
    | inr (leaf l, f) ↦ absurd (set_leaf key part next parts value t l t' f h)
    | inr (table u, f) ↦
        let (u', e, g) =
          attach_ok (to_lowercase part) t t' (set_path key (next ∷ parts) value u)
            (sym (set_table key part next parts value t u f) ∙ h) in
        (u, u', inl f, e, g)
  ]

  set_path-get :
      (key part : Text) (parts : List Text) (value : Value Leaf) (t t' : Table Leaf)
      → set_path key (part ∷ parts) value t ≡ ok t'
      → get_path (part ∷ parts) t' ≡ some value
  unfolding get_path
  set_path-get key part [] value t t' h =
      let same : insert (to_lowercase part) value t ≡ t' =
        ok_inj (sym (set_one key part value t) ∙ h) in
      ap (find (to_lowercase part)) (sym same) ∙ find-insert_self (to_lowercase part) value t
  set_path-get key part (next ∷ parts) value t t' h =
      let (u, u', inner, e, f) = set_step key part next parts value t t' h in
      ap (λ x. within (find (to_lowercase part) x) (get_path (next ∷ parts))) (sym f)
      ∙ ap (λ o. within o (get_path (next ∷ parts)))
          (find-insert_self (to_lowercase part) (table u') t)
      ∙ set_path-get key next parts value u u' e

  -- The first key of a path, and what follows.
  get_cons :
      (other : Text) (others : List Text) (t u : Table Leaf)
      → find (to_lowercase other) t ≡ find (to_lowercase other) u
      → get_path (other ∷ others) t ≡ get_path (other ∷ others) u
  unfolding get_path
  get_cons other [] t u h = h
  get_cons other (next ∷ others) t u h = ap (λ o. within o (get_path (next ∷ others))) h

  get_apart :
      (part other : Text) (others : List Text) (v : Value Leaf) (t : Table Leaf)
      → text_eq (to_lowercase part) (to_lowercase other) ≡ false
      → get_path (other ∷ others) (insert (to_lowercase part) v t) ≡ get_path (other ∷ others) t
  get_apart part other others v t e =
      get_cons other others (insert (to_lowercase part) v t) t
        (find-insert_other (to_lowercase part) (to_lowercase other) v t e)

  empty_path : (next : Text) (others : List Text) → get_path (next ∷ others) empty ≡ none
  unfolding get_path
  empty_path next [] = refl
  empty_path next (other ∷ others) = refl

  Inner-path :
      (found : Option (Value Leaf)) (u : Table Leaf) (next : Text) (others : List Text)
      → Inner found u
      → get_path (next ∷ others) u ≡ within found (get_path (next ∷ others))
  Inner-path found u next others (inl e) = rw e refl
  Inner-path found u next others (inr (e, f)) = rw (e, f) (empty_path next others)

  set_path-get_other :
      (key part : Text) (parts : List Text) (value : Value Leaf) (t t' : Table Leaf)
      (others : List Text)
      → Apart (part ∷ parts) others
      → set_path key (part ∷ parts) value t ≡ ok t'
      → get_path others t' ≡ get_path others t
  unfolding get_path
  set_path-get_other key part parts value t t' [] apart h = absurd apart
  set_path-get_other key part [] value t t' (other ∷ others) (inl e) h =
      let same : insert (to_lowercase part) value t ≡ t' =
        ok_inj (sym (set_one key part value t) ∙ h) in
      ap (get_path (other ∷ others)) (sym same) ∙ get_apart part other others value t e
  set_path-get_other key part [] value t t' (other ∷ others) (inr (e, apart)) h = absurd apart
  set_path-get_other key part (next ∷ parts) value t t' (other ∷ others) (inl e) h =
      let (u, u', inner, _, f) = set_step key part next parts value t t' h in
      ap (get_path (other ∷ others)) (sym f) ∙ get_apart part other others (table u') t e
  set_path-get_other key part (next ∷ parts) value t t' (other ∷ []) (inr (e, apart)) h =
      absurd apart
  set_path-get_other key part (next ∷ parts) value t t' (other ∷ more ∷ others) (inr (e, apart)) h =
      let (u, u', inner, g, f) = set_step key part next parts value t t' h in
      let deeper = set_path-get_other key next parts value u u' (more ∷ others) apart g in
      ap (λ x. within (find (to_lowercase other) x) (get_path (more ∷ others))) (sym f)
      ∙ ap (λ o. within o (get_path (more ∷ others)))
          (ap (λ k. find k (insert (to_lowercase part) (table u') t)) (sym e)
            ∙ find-insert_self (to_lowercase part) (table u') t)
      ∙ deeper
      ∙ Inner-path _ u more others inner
      ∙ ap (λ k. within (find k t) (get_path (more ∷ others))) e

  -- When an override of a path of keys succeeds, the table holds its value under the path, and
  -- under every path that parts from it before either ends what it held; keys are compared in
  -- lower case.
  pub set_path-get_path :
      (key part : Text) (parts : List Text) (value : Value Leaf) (t t' : Table Leaf)
      (others : List Text)
      → Apart (part ∷ parts) others
      → set_path key (part ∷ parts) value t ≡ ok t'
      → (get_path (part ∷ parts) t' ≡ some value) × (get_path others t' ≡ get_path others t)
  set_path-get_path key part parts value t t' others apart h = (
    set_path-get key part parts value t t' h,
    set_path-get_other key part parts value t t' others apart h,
  )
