-- ===== src/Server/Transcript.antt =====
-- src/daemon/server.rs. The lines of a stream, and the responses that a connection owes for them.
use skipjack_mcp.Base.{
  ℕ, suc, ◌+◌, ◌≤◌, ◌≡◌, ◌⊎◌, refl, inl, inr, false, Option, none, some, List, [], ◌∷◌, ◌++◌, ltb,
  ◌==◌, if◌then◌else◌, length, arith,
}
use skipjack_mcp.Base.Text.{Text}
use skipjack_mcp.Search.{Result, ok, err}
use skipjack_mcp.Url.Split.{IsFree}
use skipjack_mcp.Server.Request.{Request, max_message_size}
use skipjack_mcp.Server.Response.{Response}
use skipjack_mcp.Server.Lines.{newline}
use skipjack_mcp.Server.Trim.{trim}
use skipjack_mcp.Server.Connection.{parse_failure, request_too_large}

-- A byte in front of the lines.
unfoldable pub extend : ℕ → List Text × Text → List Text × Text
extend b ([], last) = if b == newline then ([] ∷ [], last) else ([], b ∷ last)
extend b (line ∷ lines, last) =
    if b == newline then ([] ∷ line ∷ lines, last) else ((b ∷ line) ∷ lines, last)

extend-newline : (parts : List Text × Text) → extend newline parts ≡ ([] ∷ parts.0, parts.1)
unfolding extend
extend-newline ([], last) = refl
extend-newline (line ∷ lines, last) = refl

-- The lines that a newline ends, and what is left.
unfoldable pub frames : Text → List Text × Text
unfolding extend
frames [] = ([], [])
frames (b ∷ s) = extend b (frames s)

pub frames_free : (s : Text) → IsFree newline s → frames s ≡ ([], s)
unfolding frames
frames_free [] h = refl
frames_free (b ∷ s) h = rw (frames_free s h.1, h.0) refl

pub frames-append :
    (line rest : Text)
    → IsFree newline line
    → frames (line ++ newline ∷ rest) ≡ (line ∷ (frames rest).0, (frames rest).1)
unfolding frames
frames-append [] rest h = extend-newline (frames rest)
frames-append (b ∷ line) rest h = rw (frames-append line rest h.1, h.0) refl

-- What comes first is at least as long as a beginning without a newline.
abbrev pub StartsLong : ℕ → List Text × Text → Type 0
StartsLong size parts =
    ((line : Text) × (lines : List Text) × (last : Text) × (parts ≡ (line ∷ lines, last))
      × (size ≤ length line))
    ⊎ ((last : Text) × (parts ≡ ([], last)) × (size ≤ length last))

frames_step :
    (b : ℕ) (s : Text) (size : ℕ)
    → (b == newline) ≡ false
    → StartsLong size (frames s)
    → StartsLong (suc size) (frames (b ∷ s))
unfolding frames
frames_step b s size e (inl (line, lines, last, shape, long)) =
    inl (b ∷ line, lines, last, rw (shape, e) refl, omega arith)
frames_step b s size e (inr (last, shape, long)) = inr (b ∷ last, rw (shape, e) refl, omega arith)

any_start : (parts : List Text × Text) → StartsLong 0 parts
any_start ([], last) = inr (last, refl, omega arith)
any_start (line ∷ lines, last) = inl (line, lines, last, refl, omega arith)

pub frames-StartsLong :
    (start more : Text) → IsFree newline start → StartsLong (length start) (frames (start ++ more))
frames-StartsLong [] more h = any_start (frames more)
frames-StartsLong (b ∷ start) more h =
    frames_step b (start ++ more) (length start) h.0 (frames-StartsLong start more h.1)

module _ {F S : Type 0} (from_str : Text → Result Text Request)
    (dispatch : Request → S → Option (Response F) × S) where
  -- The response to what serde_json makes of a line, and to a line.
  abbrev pub respond : Result Text Request → S → Option (Response F) × S
  respond (ok request) state = dispatch request state
  respond (err e) state = (some (parse_failure e), state)

  abbrev pub reply : Text → S → Option (Response F) × S
  reply line state = respond (from_str (trim line)) state

  -- A response, and those that follow it.
  abbrev pub after_reply :
      Option (Response F) × S
      → (S → Option (List (Response F) × S))
      → Option (List (Response F) × S)
  after_reply (none, state) rest = none
  after_reply (some r, state) rest = elim (rest state) [
    | none ↦ none
    | some (rs, state') ↦ some (r ∷ rs, state')
  ]

  -- A response for each line, up to one that is longer than the limit; what no newline ends gets
  -- none, unless it passes the limit by more than a byte.
  unfoldable pub transcript : List Text → Text → S → Option (List (Response F) × S)
  transcript [] last state =
      some (if ltb (max_message_size + 1) (length last) then request_too_large ∷ [] else [], state)
  transcript (line ∷ lines) last state =
      let rest = after_reply (reply line state) (transcript lines last) in
      if ltb max_message_size (length line) then some (request_too_large ∷ [], state) else rest
