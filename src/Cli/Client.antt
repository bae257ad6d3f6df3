-- ===== src/Cli/Client.antt =====
-- src/cli.rs: the client of the daemon's socket, and the check of its name. `read_line_limited` is a copy
-- of the daemon's. serde_json is a parameter; an error is its message and its cause.
use skipjack_mcp.Base.{
  ℕ, zero, suc, Bool, ◌&&◌, ◌||◌, Option, none, some, [], ◌∷◌, ◌++◌, leb, ◌==◌, if◌then◌else◌, not,
  any,
}
use skipjack_mcp.Base.Text.{Text, bytes}
use skipjack_mcp.Number.{to_decimal}
use skipjack_mcp.Search.{Result, ok, err, ◌>>=◌}
use skipjack_mcp.Server.Request.{Request, max_message_size}
use skipjack_mcp.Server.Response.{Response, error}
use skipjack_mcp.Server.Lines.{newline, max_size_exceeded, io, Reader, Read, read_line_limited}
use skipjack_mcp.Server.Trim.{trim}
use skipjack_mcp.Server.Connection.{Writer, write_all}

pub record Failure : Type 0 where
  pub message : Text
  pub cause : Option Text

abbrev pub bail : {A : Type 0} → Text → Result Failure A
bail message = err (record { message = message; cause = none })

abbrev pub context : {A : Type 0} → Text → Result Text A → Result Failure A
context message (ok a) = ok a
context message (err e) = err (record { message = message; cause = some e })

-- The characters of a name; those beyond ASCII have bytes that are none of these.
abbrev pub is_name_byte : ℕ → Bool
is_name_byte c =
    (leb b'a' c && leb c b'z')
    || (leb b'A' c && leb c b'Z')
    || (leb b'0' c && leb c b'9')
    || c == b'_'
    || c == b'-'

unfoldable pub check_name : Text → Result Failure (Unit {0})
check_name daemon_name =
    if not (any (λ c. not (is_name_byte c)) daemon_name)
    then ok tt
    else bail (
        bytes "invalid daemon name: '"
        ++ daemon_name
        ++ bytes
            "'. Daemon name must contain only alphanumeric characters, underscores, and hyphens.")

-- A stream of the socket: its writes, and what is then read of the bytes written.
pub record Stream : Type 0 where
  pub writer : Writer
  pub answers : Text → Reader

unfoldable pub line_of : Read → Result Failure Text
unfolding to_decimal
line_of (ok zero, line, reader) = bail (bytes "daemon closed connection without response")
line_of (ok (suc n), line, reader) = ok line
line_of (err max_size_exceeded, line, reader) =
    bail (bytes "daemon response too large (>" ++ to_decimal max_message_size ++ bytes " bytes)")
line_of (err (io e), line, reader) = bail (bytes "failed to read response from daemon: " ++ e)

module _ {F : Type 0} (to_string : Request → Result Text Text)
    (from_str : Text → Result Text (Response F)) where
  -- `write_all` and `flush`, whose failures have different texts, are one step.
  unfoldable pub exchange : Stream → Text → Result Failure (Response F)
  unfolding write_all line_of read_line_limited
  exchange stream json =
      let (sent, writer) = write_all (json ++ newline ∷ []) stream.writer in
      do
        done ← context (bytes "failed to send request to daemon") sent
        line ← line_of (read_line_limited max_message_size (stream.answers writer.written))
        context (bytes "failed to parse daemon response") (from_str (trim line))

  unfoldable pub send_request : Result Text Stream → Request → Result Failure (Response F)
  unfolding exchange
  send_request connected request = do
    stream ← context (bytes "daemon not running") connected
    json ← context (bytes "failed to serialize request") (to_string request)
    exchange stream json

unfoldable pub check_response_error : {F : Type 0} → Response F → Result Failure (Response F)
check_response_error (error code message) = bail message
check_response_error response = ok response
