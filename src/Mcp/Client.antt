-- ===== src/Mcp/Client.antt =====
-- src/mcp.rs: `DaemonClient` with its `read_line_limited`, a copy of the daemon's. serde_json is a
-- parameter. The code of an error is its magnitude, since all are negative; a response that the
-- timeout cuts off is a flag of the connection.
use skipjack_mcp.Base.{ℕ, Bool, ◌∷◌, [], ◌++◌, if◌then◌else◌, zero, suc}
use skipjack_mcp.Base.Text.{Text, bytes}
use skipjack_mcp.Search.{Result, ok, err, ◌>>=◌}
use skipjack_mcp.Config.Defs.{Config}
use skipjack_mcp.Server.Request.{Request, max_message_size}
use skipjack_mcp.Server.Response.{Response}
use skipjack_mcp.Server.Lines.{newline, max_size_exceeded, io, Reader, Read, read_line_limited}
use skipjack_mcp.Server.Trim.{trim}
use skipjack_mcp.Server.Connection.{Writer, write_all}

pub record ErrorData : Type 0 where
  pub code : ℕ
  pub message : Text

pub record DaemonClient : Type 0 where
  pub socket_path : Text
  pub timeout : ℕ

unfoldable pub new_client : {F : Type 0} → Config F → DaemonClient
new_client config = record {
  socket_path = config.daemon.socket_dir ++ bytes "/" ++ config.daemon.name ++ bytes ".sock";
  timeout = config.search.request_timeout_secs;
}

abbrev pub unreachable_code : ℕ
unreachable_code = 32000

abbrev pub failed : Text → Text → ErrorData
failed what e = record { code = unreachable_code; message = what ++ e }

-- A connection to the daemon: the writes, what is then read of the bytes written, and whether the
-- timeout passes before the line is there.
pub record Connection : Type 0 where
  pub writer : Writer
  pub answers : Text → Reader
  pub times_out : Bool

unfoldable pub line_of : Read → Result ErrorData Text
line_of (ok zero, line, reader) = err (record {
  code = unreachable_code;
  message = bytes "Daemon closed connection before sending response";
})
line_of (ok (suc n), line, reader) = ok line
line_of (err (io e), line, reader) = err (failed (bytes "Read error from daemon: ") e)
line_of (err max_size_exceeded, line, reader) =
    err (record { code = unreachable_code; message = bytes "Daemon response exceeded 1 MB limit" })

module _ {F : Type 0} (to_string : Request → Result Text Text)
    (from_str : Text → Result Text (Response F)) (number : ℕ → Text) where
  abbrev pub parse_response : Text → Result ErrorData (Response F)
  parse_response line = elim (from_str (trim line)) [
    | err e ↦ err (failed (bytes "Failed to parse daemon response: ") e)
    | ok response ↦ ok response
  ]

  unfoldable pub read_response : DaemonClient → Connection → Text → Result ErrorData (Response F)
  unfolding line_of read_line_limited
  read_response client connection written =
      if connection.times_out
      then err (record {
        code = 32001;
        message = bytes "Search request timed out after " ++ number client.timeout ++ bytes "s";
      })
      else line_of (read_line_limited max_message_size (connection.answers written))
        >>= parse_response

  -- `write_all` and `flush`, whose failures have different texts, are one step.
  unfoldable pub send_request :
      DaemonClient → Result Text Connection → Request → Result ErrorData (Response F)
  unfolding write_all read_response
  send_request client (err e) request = err (failed (bytes "Daemon unreachable: ") e)
  send_request client (ok connection) request = elim (to_string request) [
    | err e ↦ err (record { code = 32602; message = bytes "Failed to serialize request: " ++ e })
    | ok json ↦
        let (wrote, writer) = write_all (json ++ newline ∷ []) connection.writer in
        elim wrote [
          | err e ↦ err (failed (bytes "Failed to send request: ") e)
          | ok done ↦ read_response client connection writer.written
        ]
  ]
