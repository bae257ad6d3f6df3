-- ===== src/Mcp/Line.antt =====
-- src/mcp.rs. A line that a client of the daemon reads, however it is cut into chunks.
use skipjack_mcp.Base.{
  ℕ, ◌+◌, ◌≤◌, ◌≡◌, refl, sym, ap, ◌∙◌, inl, inr, Option, some, List, [], ◌∷◌, ◌++◌, length, arith,
}
use skipjack_mcp.Base.Text.{Text}
use skipjack_mcp.Search.{ok}
use skipjack_mcp.Url.Defs.{split_at}
use skipjack_mcp.Url.Split.{IsFree, split_at-append}
use skipjack_mcp.Server.Lines.{newline, Reader, read_line_limited}
use skipjack_mcp.Server.Position.{Cuts}
use skipjack_mcp.Server.Reading.{Holds, IsTooLong}
use skipjack_mcp.Server.Frames.{read-Reads}
use skipjack_mcp.Server.Transcript.{
  frames, frames_free, frames-append, StartsLong, frames-StartsLong,
}
use skipjack_mcp.Server.Conversation.{ends}

some_first : (a b c d : Text) → ◌≡◌ {A = Option (Text × Text)} (some (a, c)) (some (b, d)) → a ≡ b
some_first a b c d h = cc

-- A text ends its first line in one place.
Cuts-unique :
    (bytes line line' rest rest' : Text)
    → Cuts bytes line rest
    → Cuts bytes line' rest'
    → line ≡ line'
Cuts-unique bytes line line' rest rest' (shape, free) (shape', free') =
    let here = split_at-append newline line rest free in
    let there = split_at-append newline line' rest' free' in
    let same = sym here ∙ ap (split_at newline) (sym shape ∙ shape') ∙ there in
    some_first line line' rest rest' same

abbrev first_length : List Text → ℕ
first_length [] = 0
first_length (line ∷ lines) = length line

module _ (max_size : ℕ) (line : Text) (free : IsFree newline line)
    (fits : length line ≤ max_size) where
  abbrev frame : Text
  frame = line ++ newline ∷ []

  whole_line : Cuts frame line []
  whole_line = (refl, free)

  pub one_frame : frames frame ≡ (line ∷ [], [])
  unfolding frames
  one_frame = frames-append line [] free

  StartsLong-line : (size : ℕ) → StartsLong size (line ∷ [], []) → size ≤ length line
  StartsLong-line size (inl (first, lines, last, same, long)) =
      let here = ap (λ (parts : List Text × Text). first_length parts.0) same in omega (arith, here)
  StartsLong-line size (inr (last, same, long)) =
      absurd (let wrong = ap (λ (parts : List Text × Text). parts.0) same in cc)

  not-IsTooLong : ¬ (IsTooLong max_size [] frame)
  not-IsTooLong (inl (other, rest, cuts, over)) =
      let same = Cuts-unique frame line other [] rest whole_line cuts in
      omega (arith, ap length same)
  not-IsTooLong (inr (start, more, shape, ends, over)) =
      let long = frames-StartsLong start more ends in
      let short = StartsLong-line (length start) (rw (← shape, one_frame) at long) in
      omega (arith, short)

  pub read_frame :
      (reader : Reader)
      → Holds frame reader
      → ((read_line_limited max_size reader).0 ≡ ok (length line + 1))
        × ((read_line_limited max_size reader).1 ≡ line)
  read_frame reader holds = elim (read-Reads max_size frame reader holds) [
    | inl (other, rest, (cuts, small, result, text, left)) ↦
        let same = Cuts-unique frame line other [] rest whole_line cuts in
        (rw same result, rw same text)
    | inr (inl (ends, small, result)) ↦ absurd (
        let wrong =
          ap (λ (parts : List Text × Text). parts.0) (sym one_frame ∙ frames_free frame ends) in
        cc)
    | inr (inr (long, result)) ↦ absurd (not-IsTooLong long)
  ]
