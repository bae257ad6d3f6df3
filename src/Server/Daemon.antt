-- ===== src/Server/Daemon.antt =====
-- src/daemon/server.rs. The connections of the daemon, whose handler is `dispatch_request`.
use mathlib.Core.List.{Memᴰ}
use skipjack_mcp.Base.{
  ℕ, ◌+◌, ◌≤◌, ◌<◌, ◌≡◌, refl, ap, ◌∙◌, inl, inr, Option, none, false, ◌⊎◌, some, List, [], ◌∷◌,
  ◌++◌, ltb, length, arith, Bool-cases, Option-cases,
}
use skipjack_mcp.Base.Text.{Text}
use skipjack_mcp.Base.Float.{F64}
use skipjack_mcp.Search.{Result, ok, err, Result-cases}
use skipjack_mcp.Spa.Defs.{strip_tags, ignored, panicked}
use skipjack_mcp.Fetch.Requests.{IsPage, fetch-IsCoherent}
use skipjack_mcp.Manager.Setting.{Shared, Setting, Manager}
use skipjack_mcp.Server.Request.{
  Request, search, list_providers, cache_stats, provider_status, cache_clear, health, fetch,
  shutdown, max_message_size,
}
use skipjack_mcp.Server.Response.{Response}
use skipjack_mcp.Server.Lines.{Reader}
use skipjack_mcp.Server.Trim.{trim}
use skipjack_mcp.Server.Connection.{parse_failure, request_too_large, handle_connection}
use skipjack_mcp.Server.Dispatch.{Daemon, dispatch_request}
use skipjack_mcp.Server.Reading.{Holds}
use skipjack_mcp.Server.Transcript.{frames, reply, transcript}
use skipjack_mcp.Server.Conversation.{wrote, sent, ends, handle_connection-transcript}

-- A member of a list of one is the head of any longer one.
Memᴰ-first : {l line : Text} {lines : List Text} → Memᴰ l (line ∷ []) → Memᴰ l (line ∷ lines)
Memᴰ-first (Memᴰ.head e) = Memᴰ.head e
Memᴰ-first (Memᴰ.tail m) = elim m [ ]

module _ {F S : Type 0} (from_str : Text → Result Text Request)
    (dispatch : Request → S → Option (Response F) × S) where
  -- At most a response for each line, and one for what is left.
  abbrev pub IsTranscript : List Text → Text → S → List (Response F) → S → Type 0
  IsTranscript lines last state rs after =
      (transcript from_str dispatch lines last state ≡ some (rs, after))
      × (length rs ≤ length lines + 1)

  -- One of the lines holds a request to which the handler gives no answer.
  abbrev pub IsStuck : List Text → Type 0
  IsStuck lines =
      (line : Text) × (request : Request) × (state : S) × Memᴰ line lines
      × (from_str (trim line) ≡ ok request)
      × ((dispatch request state).0 ≡ none)

  Transcribed : List Text → Text → S → Type 0
  Transcribed lines last state =
      ((rs : List (Response F)) × (after : S) × IsTranscript lines last state rs after)
      ⊎ ((transcript from_str dispatch lines last state ≡ none) × IsStuck lines)

  reply_cases :
      (line : Text) (state : S)
      → ((r : Response F) × (next : S) × (reply from_str dispatch line state ≡ (some r, next)))
        ⊎ (((next : S) × (reply from_str dispatch line state ≡ (none, next))) × IsStuck (line ∷ []))
  reply_cases line state = elim (Result-cases (from_str (trim line))) [
    | inr (x, e) ↦ inl (rw e (parse_failure x, state, refl))
    | inl (request, e) ↦ elim (Option-cases (dispatch request state).0) [
      | inr (r, f) ↦
          inl (rw e (r, (dispatch request state).1, ap (λ x. (x, (dispatch request state).1)) f))
      | inl f ↦ inr (
        rw e ((dispatch request state).1, ap (λ x. (x, (dispatch request state).1)) f),
        (line, request, state, Memᴰ.head refl, e, f),
      )
    ]
  ]

  transcript_cases : (lines : List Text) (last : Text) (state : S) → Transcribed lines last state
  unfolding transcript Transcribed
  transcript_cases [] last state = elim (Bool-cases (ltb (max_message_size + 1) (length last))) [
    | inl e ↦ inl (request_too_large ∷ [], state, (rw e refl, omega arith))
    | inr e ↦ inl ([], state, (rw e refl, omega arith))
  ]
  transcript_cases (line ∷ lines) last state =
      elim (Bool-cases (ltb max_message_size (length line))) [
        | inl e ↦ inl (request_too_large ∷ [], state, (rw e refl, omega arith))
        | inr e ↦ elim (reply_cases line state) [
          | inl (r, next, f) ↦ elim (transcript_cases lines last next) [
            | inl (rs, after, (g, few)) ↦
                inl (r ∷ rs, after, (rw (e, f, g) refl, omega (arith, few)))
            | inr (g, (l, request, s, m, parsed, silent)) ↦
                inr (rw (e, f, g) refl, (l, request, s, Memᴰ.tail m, parsed, silent))
          ]
          | inr ((next, f), (l, request, s, m, parsed, silent)) ↦
              inr (rw (e, f) refl, (l, request, s, Memᴰ-first m, parsed, silent))
        ]
      ]

module _ {f64 : F64} {setting : Setting f64} {manager : Manager (f64.Carrier)}
    (daemon : Daemon f64 setting manager) where
  abbrev State : Type 0
  State = Shared × setting.Outside

  -- Why a request gets no answer: a search that does not return, or a panic on a page.
  abbrev pub IsSilent : Request → State → Type 0
  IsSilent (search request) state = daemon.returns request state ≡ false
  IsSilent (fetch url timeout_secs) state =
      (html : Text) × IsPage daemon.web daemon.nets daemon.urls daemon.resolve url timeout_secs html
      × (strip_tags daemon.web.to_lowercase html ignored ≡ err panicked)
  IsSilent _ state = ⊥

  dispatch_request-IsSilent :
      (request : Request) (state : State)
      → (dispatch_request daemon request state).0 ≡ none
      → IsSilent request state
  unfolding dispatch_request
  dispatch_request-IsSilent (search request) state h =
      elim (Bool-cases (daemon.returns request state)) [
        | inl back ↦ absurd (let wrong = rw back at h in cc)
        | inr lost ↦ lost
      ]
  dispatch_request-IsSilent list_providers state h = absurd cc
  dispatch_request-IsSilent cache_stats state h = absurd cc
  dispatch_request-IsSilent provider_status state h = absurd cc
  dispatch_request-IsSilent (cache_clear provider) state h = absurd cc
  dispatch_request-IsSilent health state h = absurd cc
  dispatch_request-IsSilent (fetch url timeout_secs) state h =
      elim (fetch-IsCoherent daemon.web daemon.nets daemon.urls daemon.resolve url timeout_secs) [
        | inr (nothing, page) ↦ page
        | inl (result, e, _) ↦ absurd (let wrong = rw (e, dispatch_request) at h in cc)
      ]
  dispatch_request-IsSilent shutdown state h = absurd cc

  module _ (from_str : Text → Result Text Request)
      (to_string : Response (f64.Carrier) → Result Text Text) where
    -- One of the lines holds a request that gets no answer.
    abbrev pub HasSilent : List Text → Type 0
    HasSilent lines =
        (line : Text) × (request : Request) × (state : State) × Memᴰ line lines
        × (from_str (trim line) ≡ ok request)
        × IsSilent request state

    -- Where every response serializes and every write succeeds, a connection whose chunks
    -- hold whole UTF-8 characters has, given more rounds than there are bytes, one of two
    -- outcomes. It returns without an error and has sent one frame for each line: the
    -- response of `dispatch_request` to the request in it, in the state that the lines
    -- before it left, or a parse error if serde_json refuses the trimmed line; for a line of
    -- more than 1 MB, or a rest of more than a byte above it, an error of size is the last
    -- frame. Or it does not return, and then one of its lines holds a search that does not
    -- return, or a fetch of a URL for which a client that the fetch builds receives a page
    -- on which `strip_tags` panics.
    pub connection-IsTranscript :
        (json : Response (f64.Carrier) → Text)
        → ((r : Response (f64.Carrier)) → to_string r ≡ ok (json r))
        → (fuel : ℕ) (bytes : Text) (reader : Reader) (written : Text) (state : State)
        → Holds bytes reader
        → length bytes < fuel
        → let lines = (frames bytes).0 in
          let run =
            handle_connection from_str to_string
              (dispatch_request daemon)
              fuel
              reader
              (wrote written)
              state in
          ((rs : List (Response (f64.Carrier))) × (after : State) × IsTranscript from_str
              (dispatch_request daemon)
              lines
              (frames bytes).1
              state
              rs
              after
            × (run ≡ some (ok tt, wrote (written ++ sent json rs), after)))
          ⊎ ((run ≡ none) × HasSilent lines)
    unfolding Transcribed
    connection-IsTranscript json prints fuel bytes reader written state holds enough =
        let run =
          handle_connection-transcript from_str to_string (dispatch_request daemon) json prints fuel
            bytes reader written state holds enough in
        elim (transcript_cases from_str (dispatch_request daemon) (frames bytes).0 (frames bytes).1
          state) [
            | inl (rs, after, owed) ↦ inl (rs, after, owed, run ∙ ap (ends json written) owed.0)
            | inr (nothing, (line, request, s, m, parsed, silent)) ↦ inr (
              run ∙ ap (ends json written) nothing,
              (line, request, s, m, parsed, dispatch_request-IsSilent request s silent),
            )
          ]
