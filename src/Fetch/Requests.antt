-- ===== src/Fetch/Requests.antt =====
-- src/daemon/server.rs. Which URLs a `fetch` requests, and what it reports.
use skipjack_mcp.Base.{
  ℕ, suc, ◌+◌, ◌≤◌, ◌<◌, ◌≡◌, ◌⊎◌, refl, inl, inr, true, false, ◌||◌, Option, none, some, List, [],
  ◌∷◌, ltb, leb, ◌==◌, length, All, arith, tests, Bool-cases,
}
use skipjack_mcp.Base.Text.{Text, bytes}
use skipjack_mcp.Search.{Result, ok, err, Result-cases}
use skipjack_mcp.Ssrf.Defs.{IpAddr, IpNets, Urls, validate_url}
use skipjack_mcp.Spa.Defs.{strip_tags, ignored, panicked}
use skipjack_mcp.Spa.Detect.{detect_spa_cases}
use skipjack_mcp.Fetch.Defs.{
  max_redirects, max_fetch_timeout_secs, HttpResponse, SendError, FetchError, FetchResult, follow,
  Policy, Web, failed, redirect_policy, finish, received, sent, handle_fetch, send_failure,
  bad_timeout, rejected, tls_config, client_build, body_read, invalid_utf8, read_body_capped,
  max_fetch_body_size,
}

-- Requests `from` on of a chain, each of which the policy let follow.
abbrev pub Allowed : Policy → ℕ → List Text → Type 0
Allowed policy from [] = Unit
Allowed policy from (u ∷ us) = (policy from u ≡ follow) × Allowed policy (suc from) us

-- What reqwest documents of a client: it requests the URL that it is given, and then the targets
-- of redirects which the policy answered with `follow`, given the number of requests before.
abbrev pub Obeys : Web → Policy → Type 0
Obeys web policy =
    (tls : web.Tls) (timeout_secs : ℕ) (client : web.Client) (url : Text)
    → web.build tls web.user_agent policy timeout_secs ≡ ok client
    → (rest : List Text) × ((web.send client url).1 ≡ url ∷ rest) × Allowed policy 1 rest

module _ (web : Web) (nets : IpNets) (urls : Urls) (resolve : Text → ℕ → Option (List IpAddr)) where
  -- The URL passes the checks against internal addresses.
  abbrev pub IsValidated : Text → Type 0
  IsValidated u = (parsed : urls.Url) × (validate_url nets urls resolve u ≡ ok parsed)

  policy_follow :
      (n : ℕ) (u : Text)
      → redirect_policy web nets urls resolve n u ≡ follow
      → (n < max_redirects) × IsValidated u
  unfolding redirect_policy
  policy_follow n u h = elim (Bool-cases (leb max_redirects n)) [
    | inl full ↦ absurd (ground arith)
    | inr room ↦ elim (Result-cases (validate_url nets urls resolve u)) [
      | inl (parsed, valid) ↦ (omega tests, (parsed, valid))
      | inr (e, bad) ↦ absurd (ground arith)
    ]
  ]

  Allowed-chain :
      (from : ℕ) (us : List Text)
      → from ≤ max_redirects
      → Allowed (redirect_policy web nets urls resolve) from us
      → All IsValidated us × (from + length us ≤ max_redirects)
  Allowed-chain from [] le h = (tt, omega arith)
  Allowed-chain from (u ∷ us) le h =
      let (small, valid) = policy_follow from u h.0 in
      let (all, size) = Allowed-chain (suc from) us small h.1 in ((valid, all), omega arith)

  abbrev fetched : Text → ℕ → Option FetchResult × List Text
  fetched = handle_fetch web nets urls resolve

  -- A fetch requests nothing, or what a client requests for a URL that passed the validation.
  requested_cases :
      (url : Text) (timeout_secs : ℕ)
      → ((fetched url timeout_secs).1 ≡ [])
        ⊎ (IsValidated url
            × ((tls : web.Tls) × (client : web.Client) × (web.build tls web.user_agent
                    (redirect_policy web nets urls resolve)
                    timeout_secs
                  ≡ ok client)
                × ((fetched url timeout_secs).1 ≡ (web.send client url).1)))
  unfolding handle_fetch
  requested_cases url timeout_secs =
      elim (Bool-cases (timeout_secs == 0 || ltb max_fetch_timeout_secs timeout_secs)) [
        | inl out ↦ inl (ground arith)
        | inr in_range ↦ elim (Result-cases (validate_url nets urls resolve url)) [
          | inr (e, bad) ↦ inl (ground arith)
          | inl (parsed, valid) ↦ elim (Result-cases web.tls) [
            | inr (e, bad) ↦ inl (ground arith)
            | inl (tls, good) ↦
                elim (Result-cases (
                  web.build tls web.user_agent (redirect_policy web nets urls resolve)
                    timeout_secs)) [
                      | inr (e, bad) ↦ inl (ground arith)
                      | inl (client, built) ↦
                          inr ((parsed, valid), (tls, client, built, ground arith))
                    ]
          ]
        ]
      ]

  -- Under a client that obeys its redirect policy, every URL that a fetch requests has passed
  -- `validate_url`, redirect targets included, and a fetch makes at most five requests in all.
  pub fetch_requests-IsValidated :
      (url : Text) (timeout_secs : ℕ)
      → Obeys web (redirect_policy web nets urls resolve)
      → let requested = (handle_fetch web nets urls resolve url timeout_secs).1 in
        All IsValidated requested × (length requested ≤ max_redirects)
  fetch_requests-IsValidated url timeout_secs obeys = elim (requested_cases url timeout_secs) [
    | inl nothing ↦ rw nothing (tt, omega arith)
    | inr (valid, (tls, client, built, same)) ↦
        let (rest, sent_for, allowed) = obeys tls timeout_secs client url built in
        let (all, size) = Allowed-chain 1 rest (omega arith) allowed in
        rw (same, sent_for) ((valid, all), omega arith)
  ]

  -- What a reader of the result may rely on: there is an error exactly with the status `error`, and
  -- then no text and no flag; without one the flag and the status agree.
  abbrev pub IsCoherent : FetchResult → Type 0
  IsCoherent r =
      ((e : FetchError) × (r.error ≡ some e)
        × (r.status ≡ bytes "error")
        × (r.markdown ≡ [])
        × (r.spa_detected ≡ false))
      ⊎ ((r.error ≡ none) × (r.status ≡ bytes "ok") × (r.spa_detected ≡ false))
      ⊎ ((r.error ≡ none) × (r.status ≡ bytes "spa_detected") × (r.spa_detected ≡ true))

  -- A client that the fetch builds.
  abbrev pub IsBuilt : ℕ → web.Client → Type 0
  IsBuilt timeout_secs client =
      (tls : web.Tls) × (web.build tls web.user_agent (redirect_policy web nets urls resolve)
          timeout_secs
        ≡ ok client)

  -- A client that the fetch builds receives this page for the URL.
  abbrev pub IsPage : Text → ℕ → Text → Type 0
  IsPage url timeout_secs html =
      (client : web.Client) × IsBuilt timeout_secs client
      × ((response : HttpResponse) × ((web.send client url).0 ≡ ok response)
          × (read_body_capped max_fetch_body_size response ≡ ok html))

  -- Stripping the page panics, and with it the fetch.
  abbrev pub Panics : Text → ℕ → Option FetchResult → Type 0
  Panics url timeout_secs o =
      (o ≡ none)
      × ((html : Text) × IsPage url timeout_secs html
          × (strip_tags web.to_lowercase html ignored ≡ err panicked))

  abbrev Ends : Text → ℕ → Option FetchResult → Type 0
  Ends url timeout_secs o =
      ((r : FetchResult) × (o ≡ some r) × IsCoherent r) ⊎ Panics url timeout_secs o

  failed-Ends :
      (asked : Text) (timeout_secs : ℕ) (url : Text) (status : ℕ) (e : FetchError)
      → Ends asked timeout_secs (some (failed url status e))
  failed-Ends asked timeout_secs url status e =
      inl (failed url status e, refl, inl (e, refl, refl, refl, refl))

  finish-Ends :
      (asked : Text) (timeout_secs : ℕ) (url : Text) (status : ℕ) (html : Text)
      → IsPage asked timeout_secs html
      → Ends asked timeout_secs (finish web nets urls resolve url status html)
  unfolding finish
  finish-Ends asked timeout_secs url status html page =
      elim (detect_spa_cases web.to_lowercase web.spa_warning html) [
        | inr (stopped, out) ↦ rw (out, finish) (inr (refl, (html, page, stopped)))
        | inl (stripped, ran, le, inl (plain, _)) ↦
            rw (plain, finish) (inl (_, refl, inr (inl (refl, refl, refl))))
        | inl (stripped, ran, le, inr (flagged, _)) ↦
            rw (flagged, finish) (inl (_, refl, inr (inr (refl, refl, refl))))
      ]

  received-Ends :
      (asked : Text) (timeout_secs : ℕ) (client : web.Client) (response : HttpResponse)
      → IsBuilt timeout_secs client
      → (web.send client asked).0 ≡ ok response
      → Ends asked timeout_secs (received web nets urls resolve response)
  unfolding received
  received-Ends asked timeout_secs client response built came =
      elim (Result-cases (read_body_capped max_fetch_body_size response)) [
        | inr (e, bad) ↦
            rw (bad, received)
              (failed-Ends asked timeout_secs response.url response.status (body_read e))
        | inl (body, read) ↦ elim (Bool-cases (web.is_utf8 body)) [
          | inl text ↦
              rw (read, text, received)
                (finish-Ends asked timeout_secs response.url response.status body
                  (client, built, (response, came, read)))
          | inr bytes_only ↦
              rw (read, bytes_only, received)
                (failed-Ends asked timeout_secs response.url response.status invalid_utf8)
        ]
      ]

  sent-Ends :
      (url : Text) (timeout_secs : ℕ) (client : web.Client) (r : Result SendError HttpResponse)
      → IsBuilt timeout_secs client
      → (web.send client url).0 ≡ r
      → Ends url timeout_secs (sent web nets urls resolve url timeout_secs r)
  unfolding sent
  sent-Ends url timeout_secs client (ok response) built e =
      received-Ends url timeout_secs client response built e
  sent-Ends url timeout_secs client (err x) built e =
      failed-Ends url timeout_secs url 0 (send_failure timeout_secs x)

  -- A fetch ends, whatever the arguments and the web do, in one of two ways. Its result is
  -- coherent: an error exactly with the status `error`, and then no text and no flag; without
  -- one the flag and the status agree. Or it panics, and then a client that it builds receives
  -- a page for the URL, within the cap of the body, on which `strip_tags` panics.
  pub fetch-IsCoherent :
      (url : Text) (timeout_secs : ℕ)
      → ((r : FetchResult) × ((fetched url timeout_secs).0 ≡ some r) × IsCoherent r)
        ⊎ Panics url timeout_secs (fetched url timeout_secs).0
  unfolding handle_fetch redirect_policy
  fetch-IsCoherent url timeout_secs =
      elim (Bool-cases (timeout_secs == 0 || ltb max_fetch_timeout_secs timeout_secs)) [
        | inl out ↦ rw out (failed-Ends url timeout_secs url 0 bad_timeout)
        | inr in_range ↦ elim (Result-cases (validate_url nets urls resolve url)) [
          | inr (e, bad) ↦ rw (in_range, bad) (failed-Ends url timeout_secs url 0 (rejected e))
          | inl (parsed, valid) ↦ elim (Result-cases web.tls) [
            | inr (e, bad) ↦
                rw (in_range, valid, bad) (failed-Ends url timeout_secs url 0 (tls_config e))
            | inl (tls, good) ↦
                elim (Result-cases (
                  web.build tls web.user_agent (redirect_policy web nets urls resolve)
                    timeout_secs)) [
                      | inr (e, bad) ↦
                          rw (in_range, valid, good, bad)
                            (failed-Ends url timeout_secs url 0 (client_build e))
                      | inl (client, built) ↦
                          rw (in_range, valid, good, built)
                            (sent-Ends url timeout_secs client (web.send client url).0 (tls, built)
                              refl)
                    ]
          ]
        ]
      ]
