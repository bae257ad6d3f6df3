-- ===== src/Spa/Defs.antt =====
-- src/daemon/server.rs: `strip_tags`, `has_semantic_elements`, `contains_spa_root`, `detect_spa`.
-- `str::to_lowercase`, which may change the length of a text, is a parameter; `replace_range` panics
-- outside the text and within a character.
use skipjack_mcp.Base.{
  ℕ, zero, suc, ◌+◌, Bool, true, false, not, ◌&&◌, ◌||◌, Option, none, some, List, [], ◌∷◌, ◌++◌,
  ltb, leb, ◌==◌, if◌then◌else◌, length, take, drop, any,
}
use skipjack_mcp.Base.Text.{Text, bytes, starts_with, has_substring}
use skipjack_mcp.Search.{Result, ok, err}
use skipjack_mcp.Server.Trim.{trim}

-- `s.find(needle)`
unfoldable pub find : Text → Text → Option ℕ
find needle [] = if starts_with [] needle then some 0 else none
find needle (c ∷ s) =
    let later : Option ℕ = elim (find needle s) [ none ↦ none | some p ↦ some (suc p) ] in
    if starts_with (c ∷ s) needle then some 0 else later

abbrev pub open_tag : Text → Text
open_tag tag = b'<' ∷ tag

abbrev pub close_tag : Text → Text
close_tag tag = b'<' ∷ b'/' ∷ tag ++ b'>' ∷ []

-- A byte that begins no character.
abbrev pub is_continuation : ℕ → Bool
is_continuation c = leb 128 c && ltb c 192

-- The place is the end of the text, or the byte at it begins a character.
unfoldable pub begins : Text → ℕ → Bool
begins [] zero = true
begins [] (suc n) = false
begins (c ∷ s) zero = not (is_continuation c)
begins (c ∷ s) (suc n) = begins s n

-- `s.is_char_boundary(place)`
unfoldable pub is_char_boundary : Text → ℕ → Bool
unfolding begins
is_char_boundary s place = place == 0 || begins s place

-- Why there is no stripped text.
pub data Stop : Type 0 where
  panicked out_of_fuel : Stop

-- `html.replace_range(start..end, "")`
unfoldable pub replace_range : ℕ → ℕ → Text → Result Stop Text
unfolding is_char_boundary
replace_range start end html =
    if leb start end
      && leb end (length html)
      && is_char_boundary html start
      && is_char_boundary html end
    then ok (take start html ++ drop end html)
    else err panicked

module _ (to_lowercase : Text → Text) where
  -- The first region from an opening tag to the end of the next closing one, in the lower case.
  unfoldable pub region : Text → Text → Option (ℕ × ℕ)
  unfolding find
  region tag html =
      let lower = to_lowercase html in
      elim (find (open_tag tag) lower) [
        | none ↦ none
        | some open_pos ↦ elim (find (close_tag tag) (drop open_pos lower)) [
          | none ↦ none
          | some p ↦ some (open_pos, open_pos + p + length (close_tag tag))
        ]
      ]

  -- The inner `loop` with fuel.
  unfoldable pub strip_tag : ℕ → Text → Text → Result Stop Text
  unfolding replace_range
  strip_tag zero tag html = err out_of_fuel
  strip_tag (suc fuel) tag html = elim (region tag html) [
    | none ↦ ok html
    | some (start, end) ↦ elim (replace_range start end html) [
      | err stop ↦ err stop
      | ok shorter ↦ strip_tag fuel tag shorter
    ]
  ]

  -- Each tag is stripped with as much fuel as `strip_tag_lem` asks for.
  unfoldable pub strip_tags : Text → List Text → Result Stop Text
  unfolding strip_tag
  strip_tags html [] = ok html
  strip_tags html (tag ∷ tags) = elim (strip_tag (suc (length html)) tag html) [
    | err stop ↦ err stop
    | ok rest ↦ strip_tags rest tags
  ]

abbrev semantic : List Text
semantic =
    bytes "<p "
    ∷ bytes "<p>"
    ∷ bytes "<h1"
    ∷ bytes "<h2"
    ∷ bytes "<h3"
    ∷ bytes "<h4"
    ∷ bytes "<h5"
    ∷ bytes "<h6"
    ∷ bytes "<article"
    ∷ bytes "<main"
    ∷ bytes "<section"
    ∷ []

unfoldable pub has_semantic_elements : Text → Bool
has_semantic_elements html_lower = any (has_substring html_lower) semantic

-- `<div id="root"` and `<div id='root'`, with the code of the quotation mark given.
abbrev root_element : Text → ℕ → Text
root_element id quote = bytes "<div id=" ++ (quote ∷ id ++ quote ∷ [])

abbrev roots : List Text
roots =
    root_element (bytes "root") 34
    ∷ root_element (bytes "root") 39
    ∷ root_element (bytes "app") 34
    ∷ root_element (bytes "app") 39
    ∷ root_element (bytes "__next") 34
    ∷ root_element (bytes "__next") 39
    ∷ root_element (bytes "__nuxt") 34
    ∷ root_element (bytes "__nuxt") 39
    ∷ []

unfoldable pub contains_spa_root : Text → Bool
contains_spa_root html_lower = any (has_substring html_lower) roots

abbrev pub ignored : List Text
ignored = bytes "script" ∷ bytes "style" ∷ bytes "noscript" ∷ []

module _ (to_lowercase : Text → Text) where
  -- The three flags, of the stripped text and the page.
  unfoldable pub flags : Text → Text → Bool
  unfolding has_semantic_elements contains_spa_root trim
  flags stripped html =
      ltb (length (trim stripped)) 512
      || not (has_semantic_elements (to_lowercase stripped))
      || contains_spa_root (to_lowercase html)

  -- `detect_spa`: the flag and the block to append.
  unfoldable pub detect_spa : Text → Text → Result Stop (Bool × Text)
  unfolding flags strip_tags
  detect_spa warning html = elim (strip_tags to_lowercase html ignored) [
    | err stop ↦ err stop
    | ok stripped ↦ ok (if flags stripped html then (true, warning) else (false, []))
  ]
