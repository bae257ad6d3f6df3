-- ===== src/Server/Connection.antt =====
-- src/daemon/server.rs: `handle_connection` and `write_response`. serde_json is a parameter, and so is
-- the handler of a request, for which the daemon has `dispatch_request`. What the writes of the socket
-- do is a list of outcomes; a write that fails has sent a part of its bytes.
use skipjack_mcp.Base.{ℕ, zero, suc, Option, none, some, List, [], ◌∷◌, ◌++◌, take}
use skipjack_mcp.Base.Text.{Text, bytes}
use skipjack_mcp.Search.{Result, ok, err}
use skipjack_mcp.Server.Request.{Request, max_message_size}
use skipjack_mcp.Server.Response.{Response, error}
use skipjack_mcp.Server.Lines.{newline, max_size_exceeded, io, Reader, Read, read_line_limited}
use skipjack_mcp.Server.Trim.{trim}

-- The bytes sent, and the outcomes of the next writes: the error and the number of bytes sent where
-- one fails. Those after the last of the list succeed.
pub record Writer : Type 0 where
  pub written : Text
  pub outcomes : List (Option (ℕ × Text))

-- `write_all` and `flush`.
unfoldable pub write_all : Text → Writer → Result Text (Unit {0}) × Writer
write_all frame writer = elim writer.outcomes [
  | [] ↦ (ok tt, record { written = writer.written ++ frame; outcomes = [] })
  | none ∷ outcomes ↦ (ok tt, record { written = writer.written ++ frame; outcomes = outcomes })
  | some (count, e) ∷ outcomes ↦
      (err e, record { written = writer.written ++ take count frame; outcomes = outcomes })
]

-- What a connection returns and leaves; `none` if it is not done, or its handler is not.
abbrev pub Outcome : Type 0 → Type 0
Outcome S = Option (Result Text (Unit {0}) × Writer × S)

module _ {F : Type 0} where
  abbrev pub parse_failure : Text → Response F
  parse_failure e = error 32700 (bytes "Parse error: " ++ e)

  abbrev pub request_too_large : Response F
  request_too_large = error 32600 (bytes "Request too large: maximum message size is 1 MB")

module _ {F S : Type 0} (from_str : Text → Result Text Request)
    (to_string : Response F → Result Text Text)
    (dispatch : Request → S → Option (Response F) × S) where
  unfoldable pub write_response : Response F → Writer → Result Text (Unit {0}) × Writer
  unfolding write_all
  write_response response writer = elim (to_string response) [
    | err e ↦ (err (bytes "serialization error: " ++ e), writer)
    | ok json ↦ write_all (json ++ newline ∷ []) writer
  ]

  -- The end of a write that may fail: the error is returned, or else the loop goes on.
  abbrev pub go_on_or_fail : (Writer → Outcome S) → S → Result Text (Unit {0}) × Writer → Outcome S
  go_on_or_fail next state (ok _, writer) = next writer
  go_on_or_fail next state (err e, writer) = some (err e, writer, state)

  -- The error is dropped and the connection ends.
  abbrev pub go_on_or_end : (Writer → Outcome S) → S → Result Text (Unit {0}) × Writer → Outcome S
  go_on_or_end next state (ok _, writer) = next writer
  go_on_or_end next state (err e, writer) = some (ok tt, writer, state)

  -- A line was read; `next` is the next round of the loop.
  unfoldable pub answer : (Writer → S → Outcome S) → Text → Writer → S → Outcome S
  unfolding write_response
  answer next line writer state = elim (from_str (trim line)) [
    | ok request ↦
        let (response, state') = dispatch request state in
        elim response [
          | none ↦ none
          | some r ↦ go_on_or_fail (λ w. next w state') state' (write_response r writer)
        ]
    | err e ↦ go_on_or_end (λ w. next w state) state (write_response (parse_failure e) writer)
  ]

  -- What a round does after its read; `next` are the further rounds.
  unfoldable pub after_read : (Reader → Writer → S → Outcome S) → Read → Writer → S → Outcome S
  unfolding answer write_response
  after_read next (ok zero, line, reader) writer state = some (ok tt, writer, state)
  after_read next (ok (suc n), line, reader) writer state = answer (next reader) line writer state
  after_read next (err (io e), line, reader) writer state = some (ok tt, writer, state)
  after_read next (err max_size_exceeded, line, reader) writer state =
      some (ok tt, (write_response request_too_large writer).1, state)

  -- A round reads a byte or ends the loop: `fuel` is the number of rounds.
  unfoldable pub handle_connection : ℕ → Reader → Writer → S → Outcome S
  unfolding read_line_limited after_read
  handle_connection zero reader writer state = none
  handle_connection (suc fuel) reader writer state =
      after_read (handle_connection fuel) (read_line_limited max_message_size reader) writer state
