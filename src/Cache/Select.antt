-- ===== src/Cache/Select.antt =====
-- src/cache/sqlite.rs. What a lookup by key finds in a changed table.
use mathlib.Core.Path.{subst}
use skipjack_mcp.Base.{
  ◌≡◌, refl, ◌∙◌, Bool, false, not, Option, none, some, List, [], ◌∷◌, ◌++◌, if◌then◌else◌,
  filter_by, All, arith, Bool-cases, inl, inr,
}
use skipjack_mcp.Base.Text.{Text, text_eq, text_eq_iff}
use skipjack_mcp.Cache.Defs.{Row, select}

-- No two rows have the same key.

abbrev pub IsUnique : List Row → Type 0
IsUnique [] = Unit
IsUnique (row ∷ rows) = All (λ r. text_eq r.key row.key ≡ false) rows × IsUnique rows

abbrev pub kept_if : (Row → Bool) → Option Row → Option Row
kept_if p none = none
kept_if p (some row) = if p row then some row else none

pub select-other :
    (rows : List Row) (key other : Text)
    → text_eq key other ≡ false
    → select (filter_by (λ row. not (text_eq row.key key)) rows) other ≡ select rows other
unfolding select
select-other [] key other h = refl
select-other (row ∷ rows) key other h = ground (
  arith,
  select-other rows key other h,
  text_eq_iff row.key key,
  text_eq_iff row.key other,
  text_eq_iff key other,
)

pub select-own :
    (rows : List Row) (key : Text)
    → select (filter_by (λ row. not (text_eq row.key key)) rows) key ≡ none
unfolding select
select-own [] key = refl
select-own (row ∷ rows) key = ground (arith, select-own rows key)

abbrev pub or_else : Option Row → Option Row → Option Row
or_else none o = o
or_else (some row) o = some row

pub or_else-none : (o : Option Row) → or_else o none ≡ o
or_else-none none = refl
or_else-none (some row) = refl

pub select-single :
    (row : Row) (key : Text)
    → select (row ∷ []) key ≡ (if text_eq row.key key then some row else none)
unfolding select
select-single row key = refl

pub select-append :
    (rows more : List Row) (key : Text)
    → select (rows ++ more) key ≡ or_else (select rows key) (select more key)
unfolding select
select-append [] more key = refl
select-append (row ∷ rows) more key = elim (Bool-cases (text_eq row.key key)) [
  | inl own ↦ rw own refl
  | inr other ↦ rw other (select-append rows more key)
]

pub select-absent :
    (p : Row → Bool) (rows : List Row) (key : Text)
    → All (λ r. text_eq r.key key ≡ false) rows
    → select (filter_by p rows) key ≡ none
unfolding select
select-absent p [] key h = refl
select-absent p (row ∷ rows) key h = ground (arith, h.0, select-absent p rows key h.1)

pub select-filter_by :
    (p : Row → Bool) (rows : List Row) (key : Text)
    → IsUnique rows
    → select (filter_by p rows) key ≡ kept_if p (select rows key)
unfolding select
select-filter_by p [] key h = refl
select-filter_by p (row ∷ rows) key (fresh, h) = elim (Bool-cases (text_eq row.key key)) [
  | inl own ↦
      let same = (text_eq_iff row.key key).0 own in
      let none_left =
        select-absent p rows key
          (subst (λ k. All (λ r. text_eq r.key k ≡ false) rows) same fresh) in
      ground (arith, own, none_left)
  | inr other ↦ ground (arith, other, select-filter_by p rows key h)
]

pub select-replaced :
    (rows : List Row) (row : Row) (other : Text)
    → select (filter_by (λ r. not (text_eq r.key row.key)) rows ++ row ∷ []) other
      ≡ (if text_eq row.key other then some row else select rows other)
select-replaced rows row other = elim (Bool-cases (text_eq row.key other)) [
  | inl own ↦
      let same = (text_eq_iff row.key other).0 own in
      let absent : select (filter_by (λ r. not (text_eq r.key row.key)) rows) other ≡ none =
        subst (λ k. select (filter_by (λ r. not (text_eq r.key row.key)) rows) k ≡ none) same
          (select-own rows row.key) in
      select-append (filter_by (λ r. not (text_eq r.key row.key)) rows) (row ∷ []) other
      ∙ rw (absent, select-single row other, own) refl
  | inr differs ↦
      select-append (filter_by (λ r. not (text_eq r.key row.key)) rows) (row ∷ []) other
      ∙ rw (select-other rows row.key other differs, select-single row other, differs)
          (or_else-none (select rows other))
]
