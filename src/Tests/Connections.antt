-- ===== src/Tests/Connections.antt =====
-- Connections of the daemon at concrete inputs. A line of the client is the name of a request.

use skipjack_mcp.Base.{
  ℕ, ◌≡◌, refl, ◌⊎◌, true, false, none, some, List, [], ◌∷◌, ◌++◌, map, arith, if◌then◌else◌,
}
use skipjack_mcp.Base.Text.{Text, bytes, text_eq}
use skipjack_mcp.Base.Float.{whole}
use skipjack_mcp.Search.{Result, ok, err}
use skipjack_mcp.Manager.Dispatch.{completes}
use skipjack_mcp.Manager.Setting.{Shared}
use skipjack_mcp.Cache.Defs as Cached
use skipjack_mcp.Mcp.Client.{DaemonClient, send_request}
use skipjack_mcp.Mcp.Through.{connected, send_request-handle_connection}
use skipjack_mcp.Server.Request.{Request}
use skipjack_mcp.Server.Trim.{trim, trim_start, trim_end, is_white}
use skipjack_mcp.Server.Response.{Response, cache_stats}
use skipjack_mcp.Server.Lines.{Reader, read_line_limited, utf8_from, utf8_lead}
use skipjack_mcp.Server.Connection.{Outcome, handle_connection}
use skipjack_mcp.Server.Dispatch.{Daemon, dispatch_request}
use skipjack_mcp.Ssrf.Defs.{Cidr, range4, octets, in_cidr}
use skipjack_mcp.Server.Reading.{Holds, Reads, yields}
use skipjack_mcp.Server.Frames.{read-Reads}
use skipjack_mcp.Server.Transcript.{frames}
use skipjack_mcp.Server.Conversation.{wrote, sent}
use skipjack_mcp.Server.Daemon.{IsTranscript, HasSilent, connection-IsTranscript}
use skipjack_mcp.Tests.Network.{urls, resolve, fetcher}
use skipjack_mcp.Tests.Dispatch.{setting, manager, shared}

-- The stream arrives in two chunks, the first of which ends within a line.
abbrev chunks : List (ℕ × Text)
chunks = (b's', bytes "ta") ∷ (b't', b's' ∷ b'\n' ∷ 0xe2 ∷ 0x82 ∷ 0xac ∷ []) ∷ []

abbrev reader : Reader
reader = record { buffer = []; reads = yields chunks }

abbrev stream : Text
stream = bytes "stats\n" ++ 0xe2 ∷ 0x82 ∷ 0xac ∷ []

holds : Holds stream reader
unfolding utf8_from utf8_lead
holds = ([], chunks, refl, refl, refl, (refl, (refl, tt)))

read-Reads_example : Reads 3 [] stream (read_line_limited 3 reader)
read-Reads_example = read-Reads 3 stream reader holds

abbrev from_str : Text → Result Text Request
from_str line =
    if text_eq line (bytes "stats")
    then ok Request.cache_stats
    else if text_eq line (bytes "stop")
    then ok Request.shutdown
    else err line

abbrev json : Response ℕ → Text
json response = bytes "{}"

abbrev to_string : Response ℕ → Result Text Text
to_string response = ok (json response)

abbrev daemon : Daemon whole setting manager
daemon = record {
  web = fetcher;
  nets = record {
    IpNet = Cidr;
    parse = λ text. some (range4 (octets 127 0 0 0) 8);
    contains = in_cidr;
  };
  urls = urls;
  resolve = resolve;
  version = bytes "0.1.0";
  states_order = λ states. states;
  late = λ now. false;
  events = λ request names. map completes names;
  elapsed = 12;
  returns = λ request state. true;
}

abbrev run : Outcome (Shared × ℕ)
run =
    handle_connection from_str to_string (dispatch_request daemon) 20 reader (wrote []) (shared, 9)

connection-IsTranscript_example :
    ((rs : List (Response ℕ)) × (after : Shared × ℕ) × IsTranscript from_str
        (dispatch_request daemon)
        (frames stream).0
        (frames stream).1
        (shared, 9)
        rs
        after
      × (run ≡ some (ok tt, wrote ([] ++ sent json rs), after)))
    ⊎ ((run ≡ none) × HasSilent daemon from_str to_string (frames stream).0)
connection-IsTranscript_example =
    connection-IsTranscript daemon from_str to_string json (λ r. refl) 20 stream reader []
      (shared, 9) holds (ground arith)

abbrev stats : Response ℕ
stats = cache_stats (Cached.stats whole shared.cache)

-- A text comes in one chunk.
abbrev in_one : Text → Reader
in_one text = record { buffer = []; reads = ok text ∷ [] }

stats_answered : dispatch_request daemon Request.cache_stats (shared, 9) ≡ (some stats, (shared, 9))
unfolding dispatch_request
stats_answered = refl

request-Holds : Holds (bytes "stats\n") (in_one (bytes "stats\n"))
unfolding utf8_from utf8_lead
request-Holds = ([], (b's', bytes "tats\n") ∷ [], refl, refl, refl, (refl, tt))

response-Holds : Holds (bytes "{}\n") (in_one (bytes "{}\n"))
unfolding utf8_from utf8_lead
response-Holds = ([], (b'{', bytes "}\n") ∷ [], refl, refl, refl, (refl, tt))

stats_parsed : from_str (trim (bytes "stats")) ≡ ok Request.cache_stats
unfolding trim trim_start trim_end is_white
stats_parsed = refl

abbrev client : DaemonClient
client = record { socket_path = bytes "/tmp/skipjackd.sock"; timeout = 60 }

send_request-handle_connection_example :
    send_request
      (λ r. ok (bytes "stats"))
      (λ text. ok stats)
      (λ n. [])
      client
      (ok (
        connected
          (λ r. ok (bytes "stats"))
          from_str
          to_string
          (λ text. ok stats)
          (λ n. [])
          (dispatch_request daemon)
          json
          (λ r. refl)
          20
          in_one
          in_one
          (shared, 9)))
      Request.cache_stats
    ≡ ok stats
send_request-handle_connection_example =
    send_request-handle_connection (λ r. ok (bytes "stats")) from_str to_string (λ text. ok stats)
      (λ n. []) (dispatch_request daemon) json (λ r. refl) client 20 in_one in_one
      Request.cache_stats (bytes "stats") stats (shared, 9) (shared, 9) refl stats_parsed
      (ground arith) (ground arith) (ground arith) request-Holds stats_answered refl (ground arith)
      (ground arith) response-Holds
