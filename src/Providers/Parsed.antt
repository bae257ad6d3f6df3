-- ===== src/Providers/Parsed.antt =====
-- src/search/providers. That every result that a provider parses is its own.
use skipjack_mcp.Base.{
  ℕ, suc, Bool, true, false, ◌&&◌, ◌||◌, ◌≡◌, refl, inl, inr, List, [], ◌∷◌, is_empty, map,
  filter_by, All, arith, Bool-cases, ◌==◌,
}
use skipjack_mcp.Base.Text.{Text, bytes}
use skipjack_mcp.Base.Float.{F64}
use skipjack_mcp.Search.{Result, ok, SearchResult, Result-cases}
use skipjack_mcp.Rank.Defs.{enumerate}
use skipjack_mcp.Server.Trim.{trim}
use skipjack_mcp.Providers.Brave.{BraveWebResult}
use skipjack_mcp.Providers.Brave as Brave
use skipjack_mcp.Providers.DuckDuckGo.{Container}
use skipjack_mcp.Providers.DuckDuckGo as DuckDuckGo
use skipjack_mcp.Providers.Jina.{JinaResult}
use skipjack_mcp.Providers.Jina as Jina
use skipjack_mcp.Providers.Searxng.{SearxngResult}
use skipjack_mcp.Providers.Searxng as Searxng
use skipjack_mcp.Providers.Backend.{Parsers}

module _ {F : Type 0} where
  -- A result of the provider of that name, with a title and a URL where the provider checks them.
  abbrev pub IsFrom : Bool → Text → SearchResult F → Type 0
  IsFrom checks name r =
      (r.provider_name ≡ name) × ((checks && (is_empty r.title || is_empty r.url)) ≡ false)

module _ (f64 : F64) where
  open f64 use {Carrier}

  ok_inj : {E B : Type 0} {a b : B} → ◌≡◌ {A = Result E B} (ok a) (ok b) → a ≡ b
  ok_inj h = cc

  module _ (parsers : Parsers f64) where
    brave_kept :
        (i : ℕ) (items : List BraveWebResult)
        → All (IsFrom true (bytes "brave")) (
            map
              (Brave.to_result f64 parsers.brave_response)
              (filter_by (Brave.is_kept f64 parsers.brave_response) (enumerate i items)))
    unfolding enumerate
    brave_kept i [] = tt
    brave_kept i (item ∷ items) =
        elim (Bool-cases (Brave.is_kept f64 parsers.brave_response (i, item))) [
          | inl kept ↦ rw kept ((refl, ground (arith, kept)), brave_kept (suc i) items)
          | inr skipped ↦ rw skipped (brave_kept (suc i) items)
        ]

    pub brave_parsed :
        (body : Text) (results : List (SearchResult Carrier))
        → Brave.parse_results f64 parsers.brave_response body ≡ ok results
        → All (IsFrom true (bytes "brave")) results
    unfolding Brave.parse_results
    brave_parsed body results h = elim (Bool-cases (is_empty (trim body))) [
      | inl blank ↦
          let nothing : [] ≡ results = let built = rw (blank, Brave.parse_results) at h in cc in
          rw (← nothing) tt
      | inr text ↦ elim (Result-cases (parsers.brave_response body)) [
        | inl (items, e) ↦
            let same : _ ≡ results =
              let built = rw (text, e, Brave.parse_results) at h in ok_inj built in
            rw (← same) (brave_kept 0 items)
        | inr (x, e) ↦ absurd (let wrong = rw (text, e, Brave.parse_results) at h in cc)
      ]
    ]

    duckduckgo-IsFrom :
        (i : ℕ) (items : List Container)
        → All
            (IsFrom true (bytes "duckduckgo"))
            (DuckDuckGo.collect f64 parsers.duckduckgo_page i items)
    unfolding DuckDuckGo.collect
    duckduckgo-IsFrom i [] = tt
    duckduckgo-IsFrom i (c ∷ items) =
        elim (Bool-cases
          (is_empty (DuckDuckGo.trimmed c.title_text) || is_empty (DuckDuckGo.url_of c))) [
            | inl skipped ↦ rw (skipped, DuckDuckGo.collect) (duckduckgo-IsFrom (suc i) items)
            | inr kept ↦
                rw (kept, DuckDuckGo.collect) ((refl, kept), duckduckgo-IsFrom (suc i) items)
          ]

    jina-IsFrom :
        (i : ℕ) (items : List JinaResult)
        → All
            (IsFrom true (bytes "jina"))
            (Jina.collect f64 parsers.jina_response parsers.number i items)
    unfolding Jina.collect
    jina-IsFrom i [] = tt
    jina-IsFrom i (item ∷ items) =
        elim (Bool-cases (is_empty (Jina.trimmed item.title) || is_empty (Jina.trimmed item.url))) [
          | inl skipped ↦ rw (skipped, Jina.collect) (jina-IsFrom (suc i) items)
          | inr kept ↦ rw (kept, Jina.collect) ((refl, kept), jina-IsFrom (suc i) items)
        ]

    searxng-IsFrom :
        (i : ℕ) (items : List (SearxngResult Carrier))
        → All
            (IsFrom false (bytes "searxng"))
            (map (Searxng.to_result f64 parsers.searxng_response) (enumerate i items))
    unfolding enumerate
    searxng-IsFrom i [] = tt
    searxng-IsFrom i (item ∷ items) = ((refl, refl), searxng-IsFrom (suc i) items)

    pub duckduckgo_parsed :
        (body : Text) (results : List (SearchResult Carrier))
        → DuckDuckGo.parse_results f64 parsers.duckduckgo_page body ≡ ok results
        → All (IsFrom true (bytes "duckduckgo")) results
    unfolding DuckDuckGo.parse_results
    duckduckgo_parsed body results h = elim (Result-cases (parsers.duckduckgo_page body)) [
      | inl (items, e) ↦
          let same : _ ≡ results = ok_inj (rw (e, DuckDuckGo.parse_results) at h) in
          rw (← same) (duckduckgo-IsFrom 0 items)
      | inr (x, e) ↦ absurd (let wrong = rw (e, DuckDuckGo.parse_results) at h in cc)
    ]

    pub jina_parsed :
        (body : Text) (results : List (SearchResult Carrier))
        → Jina.parse_results f64 parsers.jina_response parsers.number body ≡ ok results
        → All (IsFrom true (bytes "jina")) results
    unfolding Jina.parse_results
    jina_parsed body results h = elim (Result-cases (parsers.jina_response body)) [
      | inl (reply, e) ↦ elim (Bool-cases (reply.code == 200)) [
        | inl fine ↦
            let same : _ ≡ results = ok_inj (rw (e, fine, Jina.parse_results) at h) in
            rw (← same) (jina-IsFrom 0 reply.data_of)
        | inr other ↦ absurd (let wrong = rw (e, other, Jina.parse_results) at h in cc)
      ]
      | inr (x, e) ↦ absurd (let wrong = rw (e, Jina.parse_results) at h in cc)
    ]

    pub searxng_parsed :
        (body : Text) (results : List (SearchResult Carrier))
        → Searxng.parse_results f64 parsers.searxng_response body ≡ ok results
        → All (IsFrom false (bytes "searxng")) results
    unfolding Searxng.parse_results
    searxng_parsed body results h = elim (Result-cases (parsers.searxng_response body)) [
      | inl (reply, e) ↦
          let same : _ ≡ results = ok_inj (rw (e, Searxng.parse_results) at h) in
          rw (← same) (searxng-IsFrom 0 reply.results)
      | inr (x, e) ↦ absurd (let wrong = rw (e, Searxng.parse_results) at h in cc)
    ]
