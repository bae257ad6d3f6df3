-- ===== src/Spa/Strip.antt =====
-- src/daemon/server.rs. The rounds of `strip_tags`, which end or panic.
use skipjack_mcp.Base.{
  ℕ, zero, suc, ◌+◌, ◌≤◌, ◌<◌, ◌≡◌, ◌⊎◌, refl, ap, true, ◌&&◌, none, some, List, [], ◌∷◌, ◌++◌, leb,
  length, take, drop, length-append, length-take, length-drop, arith, tests, Bool-cases,
  Option-cases, inl, inr,
}
use skipjack_mcp.Base.Text.{Text, starts_with}
use skipjack_mcp.Search.{ok, err, Result-cases}
use skipjack_mcp.Spa.Defs.{
  find, region, strip_tag, strip_tags, open_tag, close_tag, Stop, panicked, replace_range,
  is_char_boundary,
}

starts_with-le : (s p : Text) → starts_with s p ≡ true → length p ≤ length s
starts_with-le s [] h = omega arith
starts_with-le [] (c ∷ p) h = absurd (ground arith)
starts_with-le (d ∷ s) (c ∷ p) h = ground (arith, starts_with-le s p)

-- What is found lies inside the text.
find_bound : (needle s : Text) (p : ℕ) → find needle s ≡ some p → p + length needle ≤ length s
unfolding find
find_bound needle [] p h = ground (arith, starts_with-le [] needle)
find_bound needle (c ∷ s) p h = elim (Option-cases (find needle s)) [
  | inl absent ↦ ground (arith, starts_with-le (c ∷ s) needle)
  | inr (q, found) ↦ ground (arith, starts_with-le (c ∷ s) needle, find_bound needle s q found)
]

-- A range that is not empty leaves less, if it can be replaced.
replace_range_lem :
    (start end : ℕ) (html shorter : Text)
    → start < end
    → replace_range start end html ≡ ok shorter
    → length shorter < length html
unfolding replace_range
replace_range_lem start end html shorter lt h =
    elim (Bool-cases (
      leb start end
      && leb end (length html)
      && is_char_boundary html start
      && is_char_boundary html end)) [
        | inl fits ↦
            let same : take start html ++ drop end html ≡ shorter = (let e = rw fits at h in cc) in
            let inside : leb end (length html) ≡ true = ground arith in
            rw (← same) (
              omega (
                arith,
                tests,
                inside,
                length-append (take start html) (drop end html),
                length-take start html,
                length-drop end html,
              ))
        | inr out ↦ absurd (let wrong = rw out at h in cc)
      ]

replace_range-panicked :
    (start end : ℕ) (html : Text) (stop : Stop)
    → replace_range start end html ≡ err stop
    → replace_range start end html ≡ err panicked
unfolding replace_range
replace_range-panicked start end html stop h =
    elim (Bool-cases (
      leb start end
      && leb end (length html)
      && is_char_boundary html start
      && is_char_boundary html end)) [
        | inl fits ↦ absurd (let wrong = rw fits at h in cc)
        | inr out ↦ rw out refl
      ]

module _ (to_lowercase : Text → Text) where
  pub region_bounds :
      (tag html : Text) (start end : ℕ)
      → region to_lowercase tag html ≡ some (start, end)
      → (start < end) × (end ≤ length (to_lowercase html))
  unfolding region
  region_bounds tag html start end h =
      elim (Option-cases (find (open_tag tag) (to_lowercase html))) [
        | inl no_open ↦ absurd (ground arith)
        | inr (o, opened) ↦
            elim (Option-cases (find (close_tag tag) (drop o (to_lowercase html)))) [
              | inl no_close ↦ absurd (ground arith)
              | inr (p, closed) ↦
                  let inner = find_bound (close_tag tag) (drop o (to_lowercase html)) p closed in
                  let outer = find_bound (open_tag tag) (to_lowercase html) o opened in
                  let shape : ◌≡◌ {A = ℕ × ℕ} (o, o + p + length (close_tag tag)) (start, end) =
                    ground arith in
                  let first : o ≡ start = ap (λ t. t.0) shape in
                  let last : o + p + length (close_tag tag) ≡ end = ap (λ t. t.1) shape in
                  let rest = length-drop o (to_lowercase html) in
                  (omega arith, omega (arith, inner, outer, rest, first, last))
            ]
      ]

  -- What is left is no longer than the page, and holds no complete element of the tag.
  abbrev pub IsClean : Text → Text → Text → Type 0
  IsClean tag html r = (region to_lowercase tag r ≡ none) × (length r ≤ length html)

  -- With more fuel than bytes the loop ends, with a clean text or in a panic.
  pub strip_tag_lem :
      (fuel : ℕ) (tag html : Text)
      → length html < fuel
      → ((r : Text) × (strip_tag to_lowercase fuel tag html ≡ ok r) × IsClean tag html r)
        ⊎ (strip_tag to_lowercase fuel tag html ≡ err panicked)
  unfolding strip_tag
  strip_tag_lem zero tag html h = absurd (omega arith)
  strip_tag_lem (suc fuel) tag html h = elim (Option-cases (region to_lowercase tag html)) [
    | inl clean ↦ inl (html, rw (clean, strip_tag) refl, (clean, omega arith))
    | inr ((start, end), found) ↦ elim (Result-cases (replace_range start end html)) [
      | inr (stop, out) ↦
          inr (rw (found, replace_range-panicked start end html stop out, strip_tag) refl)
      | inl (shorter, cut) ↦
          let bounds = region_bounds tag html start end found in
          let size = replace_range_lem start end html shorter bounds.0 cut in
          rw (found, cut, strip_tag)
            (elim (strip_tag_lem fuel tag shorter (omega arith)) [
              | inl (r, ran, (clean, le)) ↦ inl (r, ran, (clean, omega (arith, le, size)))
              | inr stopped ↦ inr stopped
            ])
    ]
  ]

  pub strip_tags_ends :
      (tags : List Text) (html : Text)
      → ((r : Text) × (strip_tags to_lowercase html tags ≡ ok r) × (length r ≤ length html))
        ⊎ (strip_tags to_lowercase html tags ≡ err panicked)
  unfolding strip_tags
  strip_tags_ends [] html = inl (html, refl, omega arith)
  strip_tags_ends (tag ∷ tags) html =
      elim (strip_tag_lem (suc (length html)) tag html (omega arith)) [
        | inr stopped ↦ inr (rw (stopped, strip_tags) refl)
        | inl (first, ran, (clean, le)) ↦
            rw (ran, strip_tags)
              (elim (strip_tags_ends tags first) [
                | inl (r, rest, le') ↦ inl (r, rest, omega (arith, le, le'))
                | inr stopped ↦ inr stopped
              ])
      ]

  -- The last tag that is stripped leaves no complete element.
  pub strip_tags_clean :
      (tags : List Text) (tag html r : Text)
      → strip_tags to_lowercase html (tags ++ tag ∷ []) ≡ ok r
      → region to_lowercase tag r ≡ none
  unfolding strip_tags
  strip_tags_clean [] tag html r h =
      elim (strip_tag_lem (suc (length html)) tag html (omega arith)) [
        | inr stopped ↦ absurd (let wrong = rw (stopped, strip_tags) at h in cc)
        | inl (first, ran, (clean, le)) ↦
            let same : first ≡ r = (let e = rw (ran, strip_tags) at h in cc) in rw (← same) clean
      ]
  strip_tags_clean (t ∷ tags) tag html r h =
      elim (strip_tag_lem (suc (length html)) t html (omega arith)) [
        | inr stopped ↦ absurd (let wrong = rw (stopped, strip_tags) at h in cc)
        | inl (first, ran, (clean, le)) ↦
            strip_tags_clean tags tag first r (rw (ran, strip_tags) at h)
      ]
