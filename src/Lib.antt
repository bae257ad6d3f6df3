-- ===== src/Lib.antt =====
-- Skipjack: a local daemon that searches the web through several providers and fetches pages, for
-- assistants that speak MCP. This library models its core, from the Rust sources under src/ of the
-- repository.
--
-- The parts. A request reaches the daemon over a socket (src/daemon/server.rs). A search goes to the
-- manager (src/daemon/manager.rs), which chooses providers by the catalog and their health states,
-- looks in the cache (src/cache), runs a pipeline for each provider - cache, rate limiter, retried
-- search, cache - and merges and ranks what they return (src/search/merge.rs, src/search/rank.rs). A
-- provider (src/search/providers) asks its server through a client that is rebuilt from time to time
-- (src/anti_blocking/rotating_client.rs) and parses the answer. The MCP server (src/mcp.rs) checks the
-- arguments of its tools and passes them to the daemon over the socket. A fetch checks its URL against
-- internal addresses, follows redirects under the same check, reads a capped body and looks for pages
-- that need scripts. Strategies that rotate addresses or proxies are in
-- src/anti_blocking/ip_rotation.rs.
--
-- The files.
--   Base         names of the libraries that all modules use, and children: Tests (Boolean tests on
--                numbers), Lists, Text (a string as its bytes), Dict (a HashMap as an association
--                list), Float (f64 as a parameter with the IEEE facts used), Sort (`sort_by`).
--   Number       unsigned integers in decimal, as Rust prints and parses them.
--   Search       the types of src/search/provider.rs and src/search/request.rs, and `Result`.
--   RateLimiter  src/anti_blocking/rate_limiter.rs. `Windows` is the map behind the mutex; `round` is
--                one turn of the loop in `acquire`, which the mutex makes atomic, so that a list of
--                rounds is any interleaving of tasks. Defs, Counting, Bound, Waiting.
--   Retry        src/anti_blocking/retry.rs. `retry_loop` counts down the attempts that are left, which
--                are `max_attempts` at the start; a delay that is no `Duration` is a panic. Defs,
--                Attempts, Delays, Success.
--   Health       `HealthState` of src/daemon/manager.rs, one function for each method. Defs, Invariant,
--                Window.
--   IpRotation   src/anti_blocking/ip_rotation.rs: the pools, their cursors and the factory. Defs, Pool,
--                Factory.
--   Ssrf         `is_hostname_blocked`, `is_ip_blocked` and `validate_url` of src/daemon/server.rs.
--                Defs, Ranges, Validate.
--   Spa          `strip_tags` and `detect_spa` of src/daemon/server.rs. `strip_tags` runs on the length
--                of the page as fuel, since each round shortens it or panics. Defs, Strip, Detect.
--   Fetch        `read_body_capped` and `handle_fetch` of src/daemon/server.rs; the result says also
--                which URLs were requested. Defs, Body, Requests.
--   Url, Merge   `canonicalize_url` and `merge` of src/search/merge.rs. Url: Defs, Split, Canonical.
--                Merge: Defs, Best, Keys, Merged.
--   Rank         src/search/rank.rs. Defs, Scores, Ranking.
--   Cache        src/cache/mod.rs (Keys) and src/cache/sqlite.rs (Defs), whose table is a list of rows
--                and whose statements are functions on it. Order, Select, Store, Clear,
--                Reachable.
--   Server       the socket in src/daemon/server.rs and the messages of src/daemon/protocol.rs: Request,
--                Response, Lines (`read_line_limited` on what the reads of a socket yield), Trim,
--                Connection (`handle_connection`), Dispatch (`dispatch_request`). Of the lines: Utf8,
--                Position, Rounds, Reading, Frames. Of a connection: Transcript, Conversation,
--                Daemon.
--                A round of the loop reads a byte or is the last, so that the number of the bytes
--                and one are enough rounds.
--   Client       src/anti_blocking: Rotating (rotating_client.rs), Tls (tls.rs), Agents (agents.rs).
--                Rotations, Suites.
--   Providers    src/search/providers: Http (what the four share), Clients (the closures that build
--                their clients), Brave, DuckDuckGo, Jina, Searxng, Backend (`create_provider`, and a
--                provider as one of the four). Escaped, Parsed, Honest.
--   Config       src/config.rs: Defs, Agents, Defaults, Toml (the overrides of the environment), Load.
--                Overrides.
--   Manager      the rest of src/daemon/manager.rs: Catalog, Choice (which providers, and the tiers),
--                Setting (the state that requests share, and the outside), Pipeline, Dispatch, New.
--                Members, Chosen, Reuse, Priority, Tiers, Answers, Complete.
--   Mcp          src/mcp.rs: Client (`DaemonClient`), Tools (the handlers of the four tools). Requests,
--                Line, Through.
--   Cli          src/cli.rs: Client (the check of the name, the client of the socket), Commands, Stop
--                (`cmd_stop`).
--   Lifecycle    src/daemon/mod.rs: Files (the operations on the PID file and the socket file, with the
--                calls of the operating system that fail as a parameter), Daemon (`Daemon::start` and
--                its drop), Running (the accept loop and the signal handler). Pid, Steps, Exclusive.
--   Tests        the theorems at concrete inputs.
--
-- Conventions. Machine integers are natural numbers with the wrap-around written out; an instant is a
-- number of nanoseconds. Crates are parameters: ipnet, url, reqwest, html-to-markdown, scraper,
-- chrono, sha2, serde_json, toml, rustls and the source of random numbers; what a theorem needs of one
-- is a hypothesis with the documented behaviour, and Tests instantiates it. Lower case is that of
-- ASCII, but in Spa, where `str::to_lowercase` is a parameter. The order in which a HashMap yields its entries is a parameter, of which only that it
-- permutes them is used. A response that never comes, by a panic or an endless wait, is `none`.
--
-- Not modelled: on the command line the parsing of arguments, `search`, `status`, `providers` and what
-- is printed; the declaration of the MCP tools and the service loop, which are calls of the crate
-- rmcp; failures of SQLite itself, and the opening of the database. The dispatch takes the search of a
-- provider as a parameter and not the models in Providers. The tasks of one dispatch run one after the
-- other, in the order in which they complete, with arbitrary changes of the shared state by other
-- requests in between.
pub mod Base
pub mod Number
pub mod Search
pub mod RateLimiter
pub mod Retry
pub mod Health
pub mod IpRotation
pub mod Ssrf
pub mod Spa
pub mod Fetch
pub mod Url
pub mod Merge
pub mod Rank
pub mod Cache
pub mod Server
pub mod Client
pub mod Providers
pub mod Config
pub mod Manager
pub mod Mcp
pub mod Cli
pub mod Lifecycle
pub mod Tests
