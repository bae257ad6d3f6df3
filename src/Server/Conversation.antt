-- ===== src/Server/Conversation.antt =====
-- What `handle_connection` of src/daemon/server.rs sends: the transcript of the lines that arrive.
use mathlib.Core.List.{append_assoc, append-nil}
use skipjack_mcp.Base.{
  ℕ, zero, suc, ◌+◌, ◌≤◌, ◌<◌, ◌≡◌, refl, sym, ap, ◌∙◌, inl, inr, true, false, Option, none, some,
  List, [], ◌∷◌, ◌++◌, ltb, length, length-append, arith,
}
use skipjack_mcp.Base.Text.{Text}
use skipjack_mcp.Search.{Result, ok, err, Result-cases}
use skipjack_mcp.Server.Request.{Request, max_message_size}
use skipjack_mcp.Server.Response.{Response}
use skipjack_mcp.Server.Lines.{newline, Read, Reader, read_line_limited, max_size_exceeded}
use skipjack_mcp.Server.Trim.{trim}
use skipjack_mcp.Server.Connection.{
  Writer, write_all, write_response, Outcome, parse_failure, request_too_large, answer,
  handle_connection, after_read, go_on_or_fail,
}
use skipjack_mcp.Url.Split.{IsFree}
use skipjack_mcp.Server.Position.{Cuts}
use skipjack_mcp.Server.Reading.{Holds, IsTooLong}
use skipjack_mcp.Server.Frames.{read-Reads}
use skipjack_mcp.Server.Transcript.{
  frames, frames_free, frames-append, frames-StartsLong, reply, after_reply, transcript,
}

-- A writer whose writes succeed.
abbrev pub wrote : Text → Writer
wrote written = record { written = written; outcomes = [] }

module _ {F : Type 0} (json : Response F → Text) where
  -- The frames of responses.
  abbrev pub sent : List (Response F) → Text
  sent [] = []
  sent (r ∷ rs) = (json r ++ newline ∷ []) ++ sent rs

  -- The connection ends well, with these responses sent.
  abbrev pub ends : {S : Type 0} → Text → Option (List (Response F) × S) → Outcome S
  ends written none = none
  ends written (some (rs, state)) = some (ok tt, wrote (written ++ sent rs), state)

module _ {F S : Type 0} (from_str : Text → Result Text Request)
    (to_string : Response F → Result Text Text) (dispatch : Request → S → Option (Response F) × S)
    (json : Response F → Text) (prints : (r : Response F) → to_string r ≡ ok (json r)) where
  write_lem :
      (r : Response F) (written : Text)
      → write_response from_str to_string dispatch r (wrote written)
        ≡ (ok tt, wrote (written ++ (json r ++ newline ∷ [])))
  unfolding write_response write_all
  write_lem r written = rw (prints r, write_response) refl

  replied : (Writer → S → Outcome S) → Text → Option (Response F) × S → Outcome S
  replied next written (none, state) = none
  replied next written (some r, state) = next (wrote (written ++ (json r ++ newline ∷ []))) state

  go_on :
      (next : Writer → S → Outcome S) (written : Text) (response : Option (Response F)) (state : S)
      → (elim response [
        | none ↦ none
        | some r ↦
            go_on_or_fail from_str to_string dispatch
              (λ w. next w state)
              state
              (write_response from_str to_string dispatch r (wrote written))
      ])
        ≡ replied next written (response, state)
  unfolding replied
  go_on next written none state = refl
  go_on next written (some r) state = rw (write_lem r written) refl

  answer_lem :
      (next : Writer → S → Outcome S) (line written : Text) (state : S)
      → answer from_str to_string dispatch next line (wrote written) state
        ≡ replied next written (reply from_str dispatch line state)
  unfolding answer replied
  answer_lem next line written state = elim (Result-cases (from_str (trim line))) [
    | inl (request, e) ↦
        rw (e, answer) (go_on next written (dispatch request state).0 (dispatch request state).1)
    | inr (x, e) ↦ rw (e, answer, write_lem (parse_failure x) written) refl
  ]

  -- What a round does, once its read is known.
  module _ (next : Reader → Writer → S → Outcome S) (written : Text) (state : S) where
    round_end :
        (read : Read)
        → read.0 ≡ ok 0
        → after_read from_str to_string dispatch next read (wrote written) state
          ≡ ends json written (some ([], state))
    unfolding after_read
    round_end (result, line, reader) e = rw (e, append-nil written) refl

    round_too_long :
        (read : Read)
        → read.0 ≡ err max_size_exceeded
        → after_read from_str to_string dispatch next read (wrote written) state
          ≡ ends json written (some (request_too_large ∷ [], state))
    unfolding after_read
    round_too_long (result, line, reader) e =
        rw
          (
            e,
            write_lem request_too_large written,
            append-nil (json request_too_large ++ newline ∷ []),
          )
          refl

    round_line :
        (n : ℕ) (line : Text) (read : Read)
        → read.0 ≡ ok (n + 1)
        → read.1 ≡ line
        → after_read from_str to_string dispatch next read (wrote written) state
          ≡ replied (next read.2) written (reply from_str dispatch line state)
    unfolding after_read
    round_line n line (result, text, reader) e f =
        let same : result ≡ ok (suc n) = e ∙ ap ok (omega arith) in
        rw (same, f) (answer_lem _ line written state)

  round_step :
      (fuel : ℕ) (reader : Reader) (writer : Writer) (state : S)
      → handle_connection from_str to_string dispatch (suc fuel) reader writer state
        ≡ after_read from_str to_string dispatch
            (handle_connection from_str to_string dispatch fuel)
            (read_line_limited max_message_size reader)
            writer
            state
  unfolding handle_connection
  round_step fuel reader writer state = refl

  abbrev owed : Text → S → Option (List (Response F) × S)
  owed bytes state = transcript from_str dispatch (frames bytes).0 (frames bytes).1 state

  owed_end :
      (bytes : Text) (state : S)
      → IsFree newline bytes
      → length bytes ≤ max_message_size + 1
      → owed bytes state ≡ some ([], state)
  unfolding transcript
  owed_end bytes state free fits =
      let small : ltb (max_message_size + 1) (length bytes) ≡ false = ground arith in
      rw (frames_free bytes free, small) refl

  owed_too_long :
      (bytes : Text) (state : S)
      → IsTooLong max_message_size [] bytes
      → owed bytes state ≡ some (request_too_large ∷ [], state)
  unfolding transcript
  owed_too_long bytes state (inl (line, rest, (shape, free), over)) =
      let large : ltb max_message_size (length line) ≡ true = ground arith in
      rw (shape, frames-append line rest free, large) refl
  owed_too_long bytes state (inr (start, more, shape, free, over)) =
      elim (frames-StartsLong start more free) [
        | inl (line, lines, last, parts, long) ↦
            let large : ltb max_message_size (length line) ≡ true = ground arith in
            rw (shape, parts, large) refl
        | inr (last, parts, long) ↦
            let large : ltb (max_message_size + 1) (length last) ≡ true = ground arith in
            rw (shape, parts, large) refl
      ]

  owed_line :
      (bytes line rest : Text) (state : S)
      → Cuts bytes line rest
      → length line ≤ max_message_size
      → owed bytes state
        ≡ after_reply from_str dispatch (reply from_str dispatch line state) (owed rest)
  unfolding transcript
  owed_line bytes line rest state (shape, free) fits =
      let small : ltb max_message_size (length line) ≡ false = ground arith in
      rw (shape, frames-append line rest free, small) refl

  -- A response is sent in front of those that follow.
  ends_after :
      (r : Response F) (written : Text) (more : Option (List (Response F) × S))
      → ends json (written ++ (json r ++ newline ∷ [])) more
        ≡ ends json written (elim more [ none ↦ none | some (rs, state) ↦ some (r ∷ rs, state) ])
  ends_after r written none = refl
  ends_after r written (some (rs, state)) =
      ap (λ w. some (ok tt, wrote w, state))
        (append_assoc written (json r ++ newline ∷ []) (sent json rs))

  replied-ends :
      (next : Writer → S → Outcome S) (written : Text) (response : Option (Response F) × S)
      (rest : S → Option (List (Response F) × S))
      → ((w : Text) (state : S) → next (wrote w) state ≡ ends json w (rest state))
      → replied next written response
        ≡ ends json written (after_reply from_str dispatch response rest)
  unfolding replied
  replied-ends next written (none, state) rest h = refl
  replied-ends next written (some r, state) rest h =
      h (written ++ (json r ++ newline ∷ [])) state ∙ ends_after r written (rest state)

  rest_shorter : (bytes line rest : Text) → Cuts bytes line rest → length rest < length bytes
  rest_shorter bytes line rest (shape, free) =
      rw shape (omega (arith, length-append line (newline ∷ rest)))

  pub handle_connection-transcript :
      (fuel : ℕ) (bytes : Text) (reader : Reader) (written : Text) (state : S)
      → Holds bytes reader
      → length bytes < fuel
      → handle_connection from_str to_string dispatch fuel reader (wrote written) state
        ≡ ends json written (transcript from_str dispatch (frames bytes).0 (frames bytes).1 state)
  handle_connection-transcript zero bytes reader written state holds enough = absurd (omega arith)
  handle_connection-transcript (suc fuel) bytes reader written state holds enough =
      let next = handle_connection from_str to_string dispatch fuel in
      let read = read_line_limited max_message_size reader in
      round_step fuel reader (wrote written) state
      ∙ elim (read-Reads max_message_size bytes reader holds) [
        | inl (line, rest, (cuts, fits, result, text, left)) ↦
            round_line next written state (length line) line read result text
            ∙ replied-ends (next read.2) written (reply from_str dispatch line state) (owed rest)
                (λ w after.
                  handle_connection-transcript fuel rest read.2 w after left
                    (omega (arith, rest_shorter bytes line rest cuts)))
            ∙ ap (ends json written) (sym (owed_line bytes line rest state cuts fits))
        | inr (inl (free, fits, result)) ↦
            round_end next written state read result
            ∙ ap (ends json written) (sym (owed_end bytes state free fits))
        | inr (inr (long, result)) ↦
            round_too_long next written state read result
            ∙ ap (ends json written) (sym (owed_too_long bytes state long))
      ]
