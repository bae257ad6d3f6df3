-- ===== src/Server/Request.antt =====
-- src/daemon/protocol.rs: the requests of the socket.
use skipjack_mcp.Base.{ℕ, Option}
use skipjack_mcp.Base.Text.{Text}
use skipjack_mcp.Search.{SearchRequest}

-- In bytes.
abbrev pub max_message_size : ℕ
max_message_size = 1_048_576

abbrev pub default_fetch_timeout : ℕ
default_fetch_timeout = 15

pub data Request : Type 0 where
  search : SearchRequest → Request
  list_providers cache_stats provider_status : Request
  cache_clear : Option Text → Request
  health : Request
  fetch : Text → ℕ → Request
  shutdown : Request
