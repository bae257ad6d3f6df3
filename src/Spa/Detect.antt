-- ===== src/Spa/Detect.antt =====
-- src/daemon/server.rs. What `detect_spa` decides by, and the pages on which it does not panic.
use skipjack_mcp.Base.{
  ℕ, zero, suc, ◌≤◌, ◌<◌, ◌≡◌, ◌⊎◌, refl, true, false, none, List, [], ◌∷◌, ◌++◌, map, ltb, leb,
  length, take, drop, length-map, All, arith, tests, Bool-cases, Option-cases, inl, inr,
}
use skipjack_mcp.Base.Text.{Text, bytes, lower}
use skipjack_mcp.Search.{ok, err, Result-cases}
use skipjack_mcp.Spa.Defs.{
  begins, is_char_boundary, replace_range, region, strip_tag, strip_tags, ignored, panicked,
  has_semantic_elements, contains_spa_root, flags, detect_spa,
}
use skipjack_mcp.Server.Trim.{trim}
use skipjack_mcp.Spa.Strip.{region_bounds, strip_tags_ends, strip_tags_clean}

abbrev pub IsAscii : Text → Type 0
IsAscii = All (λ c. c < 128)

IsAscii-append : (s t : Text) → IsAscii s → IsAscii t → IsAscii (s ++ t)
IsAscii-append [] t a b = b
IsAscii-append (c ∷ s) t a b = (a.0, IsAscii-append s t a.1 b)

IsAscii-take : (n : ℕ) (s : Text) → IsAscii s → IsAscii (take n s)
IsAscii-take zero s a = tt
IsAscii-take (suc n) [] a = tt
IsAscii-take (suc n) (c ∷ s) a = (a.0, IsAscii-take n s a.1)

IsAscii-drop : (n : ℕ) (s : Text) → IsAscii s → IsAscii (drop n s)
IsAscii-drop zero s a = a
IsAscii-drop (suc n) [] a = tt
IsAscii-drop (suc n) (c ∷ s) a = IsAscii-drop n s a.1

-- In ASCII every place is a boundary.
begins-IsAscii : (s : Text) (n : ℕ) → IsAscii s → n ≤ length s → begins s n ≡ true
unfolding begins
begins-IsAscii [] zero a le = refl
begins-IsAscii [] (suc n) a le = absurd (omega arith)
begins-IsAscii (c ∷ s) zero a le =
    let small : leb 128 c ≡ false = ground (arith, a.0) in rw small refl
begins-IsAscii (c ∷ s) (suc n) a le = begins-IsAscii s n a.1 (omega arith)

boundary-IsAscii : (s : Text) (n : ℕ) → IsAscii s → n ≤ length s → is_char_boundary s n ≡ true
unfolding is_char_boundary
boundary-IsAscii s n a le = let b = begins-IsAscii s n a le in ground arith

replace_range-IsAscii :
    (start end : ℕ) (html : Text)
    → IsAscii html
    → start < end
    → end ≤ length html
    → replace_range start end html ≡ ok (take start html ++ drop end html)
unfolding replace_range
replace_range-IsAscii start end html a lt le =
    let b : is_char_boundary html start ≡ true = boundary-IsAscii html start a (omega arith) in
    let d : is_char_boundary html end ≡ true = boundary-IsAscii html end a le in
    let ordered : leb start end ≡ true = ground arith in
    let inside : leb end (length html) ≡ true = ground arith in rw (ordered, inside, b, d) refl

module _ (to_lowercase : Text → Text)
    (lowers : (s : Text) → IsAscii s → to_lowercase s ≡ map lower s) where
  strip_tag-IsAscii :
      (fuel : ℕ) (tag html : Text)
      → IsAscii html
      → ¬ (strip_tag to_lowercase fuel tag html ≡ err panicked)
        × ((r : Text) → strip_tag to_lowercase fuel tag html ≡ ok r → IsAscii r)
  unfolding strip_tag
  strip_tag-IsAscii zero tag html a = (λ h. absurd cc, λ r h. absurd cc)
  strip_tag-IsAscii (suc fuel) tag html a = elim (Option-cases (region to_lowercase tag html)) [
    | inl clean ↦ (
      λ h. absurd (let wrong = rw (clean, strip_tag) at h in cc),
      λ r h. let same : html ≡ r = (let e = rw (clean, strip_tag) at h in cc) in rw (← same) a,
    )
    | inr ((start, end), found) ↦
        let bounds = region_bounds to_lowercase tag html start end found in
        let size : length (to_lowercase html) ≡ length html =
          rw (lowers html a) (length-map html lower) in
        let cut = replace_range-IsAscii start end html a bounds.0 (omega (arith, bounds, size)) in
        let shorter =
          IsAscii-append (take start html) (drop end html) (IsAscii-take start html a)
            (IsAscii-drop end html a) in
        let rest = strip_tag-IsAscii fuel tag (take start html ++ drop end html) shorter in
        (
          λ h. rest.0 (rw (found, cut, strip_tag) at h),
          λ r h. rest.1 r (rw (found, cut, strip_tag) at h),
        )
  ]

  strip_tags-IsAscii :
      (tags : List Text) (html : Text)
      → IsAscii html
      → ¬ (strip_tags to_lowercase html tags ≡ err panicked)
  unfolding strip_tags
  strip_tags-IsAscii [] html a h = absurd cc
  strip_tags-IsAscii (tag ∷ tags) html a h =
      let first = strip_tag-IsAscii (suc (length html)) tag html a in
      elim (Result-cases (strip_tag to_lowercase (suc (length html)) tag html)) [
        | inl (r, ran) ↦ strip_tags-IsAscii tags r (first.1 r ran) (rw (ran, strip_tags) at h)
        | inr (stop, stopped) ↦
            let same : stop ≡ panicked = (let e = rw (stopped, strip_tags) at h in cc) in
            absurd (first.0 (rw (← same) stopped))
      ]

module _ (to_lowercase : Text → Text) where
  -- The page has text, a semantic element and no root of an application.
  abbrev pub IsReadable : Text → Text → Type 0
  IsReadable stripped html =
      (512 ≤ length (trim stripped))
      × (has_semantic_elements (to_lowercase stripped) ≡ true)
      × (contains_spa_root (to_lowercase html) ≡ false)

  flags_iff :
      (stripped html : Text)
      → ((flags to_lowercase stripped html ≡ false) × IsReadable stripped html)
        ⊎ ((flags to_lowercase stripped html ≡ true) × ¬ IsReadable stripped html)
  unfolding flags
  flags_iff stripped html = elim (Bool-cases (ltb (length (trim stripped)) 512)) [
    | inl short ↦ inr (rw (short, flags) refl, λ r. absurd (omega (arith, tests, short, r.0)))
    | inr enough ↦ elim (Bool-cases (has_semantic_elements (to_lowercase stripped))) [
      | inr bare ↦ inr (rw (enough, bare, flags) refl, λ r. absurd (let wrong = r.1 in cc))
      | inl semantic ↦ elim (Bool-cases (contains_spa_root (to_lowercase html))) [
        | inl root ↦
            inr (rw (enough, semantic, root, flags) refl, λ r. absurd (let wrong = r.2 in cc))
        | inr plain ↦ inl (
          rw (enough, semantic, plain, flags) refl,
          (omega (arith, tests, enough), semantic, plain),
        )
      ]
    ]
  ]

  -- The page is stripped, and the flag is raised exactly if it is not readable.
  abbrev pub Decided : Text → Text → Text → Type 0
  Decided warning html stripped =
      ((detect_spa to_lowercase warning html ≡ ok (false, [])) × IsReadable stripped html)
      ⊎ ((detect_spa to_lowercase warning html ≡ ok (true, warning)) × ¬ IsReadable stripped html)

  pub detect_spa_cases :
      (warning html : Text)
      → ((stripped : Text) × (strip_tags to_lowercase html ignored ≡ ok stripped)
          × (length stripped ≤ length html)
          × Decided warning html stripped)
        ⊎ ((strip_tags to_lowercase html ignored ≡ err panicked)
            × (detect_spa to_lowercase warning html ≡ err panicked))
  unfolding detect_spa
  detect_spa_cases warning html = elim (strip_tags_ends to_lowercase ignored html) [
    | inr stopped ↦ inr (stopped, rw (stopped, detect_spa) refl)
    | inl (stripped, ran, le) ↦ inl (
      stripped,
      ran,
      le,
      elim (flags_iff stripped html) [
        | inl (plain, readable) ↦ inl (rw (ran, plain, detect_spa) refl, readable)
        | inr (flagged, bare) ↦ inr (rw (ran, flagged, detect_spa) refl, bare)
      ],
    )
  ]

  -- Where `to_lowercase` does to ASCII texts what it does in ASCII, `detect_spa` ends on every
  -- page, and without a panic if the page is in ASCII. If it does not panic, the page without
  -- its script, style and noscript elements is no longer than the page and holds no complete
  -- noscript element; and `detect_spa` raises no flag and returns no warning if that text,
  -- trimmed, has at least 512 bytes, has a semantic element in lower case, and the page has no
  -- root element of an application in lower case, and otherwise raises the flag and returns
  -- the warning.
  pub detect_spa_total :
      (warning html : Text)
      → ((s : Text) → IsAscii s → to_lowercase s ≡ map lower s)
      → ((stripped : Text) × (strip_tags to_lowercase html ignored ≡ ok stripped)
          × (length stripped ≤ length html)
          × (region to_lowercase (bytes "noscript") stripped ≡ none)
          × Decided warning html stripped)
        ⊎ ((detect_spa to_lowercase warning html ≡ err panicked) × ¬ IsAscii html)
  detect_spa_total warning html lowers = elim (detect_spa_cases warning html) [
    | inr stopped ↦
        inr
          (stopped.1, λ a. absurd (strip_tags-IsAscii to_lowercase lowers ignored html a stopped.0))
    | inl (stripped, ran, le, decided) ↦ inl (
      stripped,
      ran,
      le,
      strip_tags_clean to_lowercase (bytes "script" ∷ bytes "style" ∷ []) (bytes "noscript") html
          stripped ran,
      decided,
    )
  ]
