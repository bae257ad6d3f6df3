-- ===== src/Mcp/Through.antt =====
-- A request of the MCP server of src/mcp.rs, through a connection of src/daemon/server.rs and back.
use mathlib.Core.List.{append-nil}
use skipjack_mcp.Base.{
  ℕ, zero, suc, ◌+◌, ◌≤◌, ◌<◌, ◌≡◌, refl, ap, ◌∙◌, false, Option, none, some, List, [], ◌∷◌, ◌++◌,
  ltb, length, length-append, arith,
}
use skipjack_mcp.Base.Text.{Text}
use skipjack_mcp.Search.{Result, ok, err, ◌>>=◌}
use skipjack_mcp.Url.Split.{IsFree}
use skipjack_mcp.Server.Request.{Request, max_message_size}
use skipjack_mcp.Server.Response.{Response}
use skipjack_mcp.Server.Lines.{newline, ReadError, Reader, Read, read_line_limited}
use skipjack_mcp.Server.Trim.{trim}
use skipjack_mcp.Server.Connection.{Outcome, write_all, handle_connection}
use skipjack_mcp.Server.Reading.{Holds}
use skipjack_mcp.Server.Transcript.{transcript}
use skipjack_mcp.Server.Conversation.{wrote, ends, handle_connection-transcript}
use skipjack_mcp.Mcp.Client.{
  DaemonClient, Connection, line_of, parse_response, read_response, send_request,
}
use skipjack_mcp.Mcp.Line.{one_frame, read_frame}

no_line : (n : ℕ) → ¬ (◌≡◌ {A = Result ReadError ℕ} (ok 0) (ok (n + 1)))
no_line n h = absurd (let wrong : 0 ≡ n + 1 = cc in omega (arith, wrong))

-- What a connection has written.
abbrev output : {S : Type 0} → Outcome S → Text
output none = []
output (some (result, writer, state)) = writer.written

module _ {F S : Type 0} (print_request : Request → Result Text Text)
    (parse_request : Text → Result Text Request) (to_string : Response F → Result Text Text)
    (from_response : Text → Result Text (Response F)) (number : ℕ → Text)
    (dispatch : Request → S → Option (Response F) × S) (json : Response F → Text)
    (prints : (r : Response F) → to_string r ≡ ok (json r)) where
  -- What the daemon writes back when the bytes that the client has written reach it.
  abbrev pub served : ℕ → (Text → Reader) → S → Text → Text
  served fuel deliver state bytes =
      output
        (handle_connection parse_request to_string dispatch fuel (deliver bytes) (wrote []) state)

  abbrev pub connected : ℕ → (Text → Reader) → (Text → Reader) → S → Connection
  connected fuel deliver relay state = record {
    writer = wrote [];
    answers = λ bytes. relay (served fuel deliver state bytes);
    times_out = false;
  }

  owed_one :
      (line : Text) (request : Request) (response : Response F) (state after : S)
      → length line ≤ max_message_size
      → parse_request (trim line) ≡ ok request
      → dispatch request state ≡ (some response, after)
      → transcript parse_request dispatch (line ∷ []) [] state ≡ some (response ∷ [], after)
  unfolding transcript
  owed_one line request response state after fits parsed answered =
      let small : ltb max_message_size (length line) ≡ false = ground arith in
      rw (small, parsed, answered, transcript) refl

  served_one :
      (fuel : ℕ) (deliver : Text → Reader) (state after : S) (line : Text) (request : Request)
      (response : Response F)
      → IsFree newline line
      → length line ≤ max_message_size
      → parse_request (trim line) ≡ ok request
      → dispatch request state ≡ (some response, after)
      → Holds (line ++ newline ∷ []) (deliver (line ++ newline ∷ []))
      → length line + 1 < fuel
      → served fuel deliver state (line ++ newline ∷ []) ≡ json response ++ newline ∷ []
  served_one fuel deliver state after line request response free fits parsed answered holds enough =
      let bytes = line ++ newline ∷ [] in
      let framed = one_frame max_message_size line free fits in
      let handled =
        handle_connection-transcript parse_request to_string dispatch json prints fuel bytes
          (deliver bytes) [] state holds (omega (arith, length-append line (newline ∷ []))) in
      let owed =
        ap (λ (parts : List Text × Text). transcript parse_request dispatch parts.0 parts.1 state)
          framed
        ∙ owed_one line request response state after fits parsed answered in
      ap output (handled ∙ ap (ends json []) owed) ∙ append-nil (json response ++ newline ∷ [])

  parsed_ok :
      (line : Text) (response : Response F)
      → from_response (trim line) ≡ ok response
      → parse_response print_request from_response number line ≡ ok response
  parsed_ok line response e = rw (e, parse_response) refl

  -- The client takes the line that it reads apart.
  line_received :
      (read : Read) (n : ℕ) (line : Text) (response : Response F)
      → read.0 ≡ ok (n + 1)
      → read.1 ≡ line
      → from_response (trim line) ≡ ok response
      → (line_of read >>= parse_response print_request from_response number) ≡ ok response
  unfolding line_of
  line_received (ok zero, text, reader) n line response h same e = absurd (no_line n h)
  line_received (ok (suc m), text, reader) n line response h same e =
      ap (parse_response print_request from_response number) same ∙ parsed_ok line response e
  line_received (err x, text, reader) n line response h same e = cc

  send_step :
      (client : DaemonClient) (answers : Text → Reader) (request : Request) (line : Text)
      → print_request request ≡ ok line
      → send_request print_request from_response number client
          (ok (record { writer = wrote []; answers = answers; times_out = false }))
          request
        ≡ (line_of (read_line_limited max_message_size (answers (line ++ newline ∷ [])))
            >>= parse_response print_request from_response number)
  unfolding send_request write_all read_response
  send_step client answers request line printed = rw (printed, send_request) refl

  -- A client of the daemon gets the response that `dispatch_request` or any other handler
  -- gives to its request, when serde_json reads back what it wrote of both, each is written in
  -- one line of at most 1 MB, every chunk that either side reads holds whole UTF-8 characters,
  -- no write fails, the timeout does not pass, and the connection has more rounds than the
  -- line of the request has bytes.
  pub send_request-handle_connection :
      (client : DaemonClient) (fuel : ℕ) (deliver relay : Text → Reader) (request : Request)
      (line : Text) (response : Response F) (state after : S)
      → print_request request ≡ ok line
      → parse_request (trim line) ≡ ok request
      → IsFree newline line
      → length line ≤ max_message_size
      → length line + 1 < fuel
      → Holds (line ++ newline ∷ []) (deliver (line ++ newline ∷ []))
      → dispatch request state ≡ (some response, after)
      → from_response (trim (json response)) ≡ ok response
      → IsFree newline (json response)
      → length (json response) ≤ max_message_size
      → Holds (json response ++ newline ∷ []) (relay (json response ++ newline ∷ []))
      → send_request print_request from_response number client
          (ok (connected fuel deliver relay state))
          request
        ≡ ok response
  send_request-handle_connection client fuel deliver relay request line response state after printed
        parsed free fits enough holds answered read_back free' fits' holds' =
      let back =
        served_one fuel deliver state after line request response free fits parsed answered holds
          enough in
      let (result, text) =
        read_frame max_message_size (json response) free' fits'
          (relay (json response ++ newline ∷ [])) holds' in
      let received : Reader = relay (json response ++ newline ∷ []) in
      send_step client (λ bytes. relay (served fuel deliver state bytes)) request line printed
      ∙ ap
          (λ bytes.
            line_of (read_line_limited max_message_size (relay bytes))
            >>= parse_response print_request from_response number)
          back
      ∙ line_received (read_line_limited max_message_size received) (length (json response))
          (json response) response result text read_back
