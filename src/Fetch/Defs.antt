-- ===== src/Fetch/Defs.antt =====
-- src/daemon/server.rs: `read_body_capped`, the redirect policy and `handle_fetch`. What the crates
-- reqwest and html-to-markdown do is a parameter; an error string is a constructor for its wording.
use skipjack_mcp.Base.{
  ℕ, ◌*◌, Bool, false, ◌||◌, Option, none, some, List, [], ◌∷◌, ◌++◌, ltb, leb, ◌==◌, if◌then◌else◌,
  length, unwrap_or,
}
use skipjack_mcp.Base.Text.{Text, bytes}
use skipjack_mcp.Search.{Result, ok, err}
use skipjack_mcp.Ssrf.Defs.{UrlError, IpAddr, IpNets, Urls, validate_url}
use skipjack_mcp.Spa.Defs.{detect_spa}

abbrev pub max_fetch_body_size : ℕ
max_fetch_body_size = 5 * 1024 * 1024

abbrev pub max_redirects : ℕ
max_redirects = 5

abbrev pub max_fetch_timeout_secs : ℕ
max_fetch_timeout_secs = 120

pub data BodyError : Type 0 where
  declared_too_large : ℕ → BodyError
  too_large : BodyError
  read_failed : Text → BodyError

-- A response of reqwest: a chunk may fail to arrive.
pub record HttpResponse : Type 0 where
  pub url : Text
  pub status : ℕ
  pub content_length : Option ℕ
  pub chunks : List (Result Text Text)

-- The loop over the chunks.
unfoldable pub read_chunks : ℕ → Text → List (Result Text Text) → Result BodyError Text
read_chunks max_bytes body [] = ok body
read_chunks max_bytes body (err e ∷ chunks) = err (read_failed e)
read_chunks max_bytes body (ok chunk ∷ chunks) =
    let rest = read_chunks max_bytes (body ++ chunk) chunks in
    if ltb max_bytes (length (body ++ chunk)) then err too_large else rest

unfoldable pub read_body_capped : ℕ → HttpResponse → Result BodyError Text
read_body_capped max_bytes response = elim response.content_length [
  | none ↦ read_chunks max_bytes [] response.chunks
  | some cl ↦
      if ltb max_bytes cl
      then err (declared_too_large cl)
      else read_chunks max_bytes [] response.chunks
]

pub data SendError : Type 0 where
  timed_out : SendError
  redirect_error : SendError
  other : Text → SendError

pub data FetchError : Type 0 where
  bad_timeout : FetchError
  rejected : UrlError → FetchError
  tls_config : Text → FetchError
  client_build : Text → FetchError
  request_timed_out : ℕ → FetchError
  too_many_redirects : FetchError
  request_failed : Text → FetchError
  body_read : BodyError → FetchError
  invalid_utf8 : FetchError

-- `Response::FetchResult`
pub record FetchResult : Type 0 where
  pub url : Text
  pub markdown : Text
  pub status : Text
  pub spa_detected : Bool
  pub http_status : ℕ
  pub error : Option FetchError

-- What the closure given to `Policy::custom` answers.
pub data Action : Type 0 where
  follow stop : Action

-- The number of the earlier requests of the chain, and the target.
abbrev pub Policy : Type 0
Policy = ℕ → Text → Action

-- The client, the page converter and the TLS setup. `send` also says which URLs it requested.
pub record Web : Type 1 where
  pub Tls : Type 0
  pub Client : Type 0
  pub tls : Result Text Tls
  pub user_agent : Text
  pub build : Tls → Text → Policy → ℕ → Result Text Client
  pub send : Client → Text → Result SendError HttpResponse × List Text
  pub is_utf8 : Text → Bool
  pub convert : Text → Option (Option Text)
  pub spa_warning : Text
  -- `str::to_lowercase` of the standard library
  pub to_lowercase : Text → Text

abbrev pub failed : Text → ℕ → FetchError → FetchResult
failed url http_status e = record {
  url = url;
  markdown = [];
  status = bytes "error";
  spa_detected = false;
  http_status = http_status;
  error = some e;
}

unfoldable pub send_failure : ℕ → SendError → FetchError
send_failure timeout_secs timed_out = request_timed_out timeout_secs
send_failure timeout_secs redirect_error = too_many_redirects
send_failure timeout_secs (other e) = request_failed e

module _ (web : Web) (nets : IpNets) (urls : Urls) (resolve : Text → ℕ → Option (List IpAddr)) where
  unfoldable pub redirect_policy : Policy
  redirect_policy previous target =
      if leb max_redirects previous
      then stop
      else elim (validate_url nets urls resolve target) [ ok u ↦ follow | err e ↦ stop ]

  -- What follows once the page is text; `none` if `detect_spa` panics.
  unfoldable pub finish : Text → ℕ → Text → Option FetchResult
  finish final_url http_status html = elim (detect_spa web.to_lowercase web.spa_warning html) [
    | err e ↦ none
    | ok (is_spa, spa_md) ↦
        let markdown : Text = elim (web.convert html) [
          | none ↦ []
          | some content ↦ unwrap_or content []
        ] in
        some (record {
          url = final_url;
          markdown = if is_spa then markdown ++ spa_md else markdown;
          status = if is_spa then bytes "spa_detected" else bytes "ok";
          spa_detected = is_spa;
          http_status = http_status;
          error = none;
        })
  ]

  unfoldable pub received : HttpResponse → Option FetchResult
  received response = elim (read_body_capped max_fetch_body_size response) [
    | err e ↦ some (failed response.url response.status (body_read e))
    | ok body ↦
        if web.is_utf8 body
        then finish response.url response.status body
        else some (failed response.url response.status invalid_utf8)
  ]

  unfoldable pub sent : Text → ℕ → Result SendError HttpResponse → Option FetchResult
  sent url timeout_secs (ok response) = received response
  sent url timeout_secs (err e) = some (failed url 0 (send_failure timeout_secs e))

  -- The result, and the URLs requested.
  unfoldable pub handle_fetch : Text → ℕ → Option FetchResult × List Text
  handle_fetch url timeout_secs =
      if timeout_secs == 0 || ltb max_fetch_timeout_secs timeout_secs
      then (some (failed url 0 bad_timeout), [])
      else elim (validate_url nets urls resolve url) [
        | err e ↦ (some (failed url 0 (rejected e)), [])
        | ok parsed ↦ elim web.tls [
          | err e ↦ (some (failed url 0 (tls_config e)), [])
          | ok tls ↦ elim (web.build tls web.user_agent redirect_policy timeout_secs) [
            | err e ↦ (some (failed url 0 (client_build e)), [])
            | ok client ↦
                let (response, requested) = web.send client url in
                (sent url timeout_secs response, requested)
          ]
        ]
      ]
