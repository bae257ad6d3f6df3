-- ===== src/Manager/Reuse.antt =====
-- src/daemon/manager.rs. The cached responses of a provider.
use skipjack_mcp.Base.{
  ℕ, ◌+◌, ◌-◌, ◌^◌, ◌<◌, ◌≡◌, refl, sym, ap, ◌∙◌, false, Option, none, some, [], ◌∷◌, leb, arith,
  if◌then◌else◌, inl, inr,
}
use mathlib.Core.Path.{subst}
use skipjack_mcp.Base.Text.{Text}
use skipjack_mcp.Base.Float.{F64}
use skipjack_mcp.Search.{ok, err, Result-cases, SearchRequest}
use skipjack_mcp.RateLimiter.Defs.{Windows}
use skipjack_mcp.Retry.Defs.{Ending, done, panicked, provider_classify}
use skipjack_mcp.Retry.Success.{retry-success}
use skipjack_mcp.Cache.Keys.{provider_list_string}
use skipjack_mcp.Cache.Defs as Cached
use skipjack_mcp.Cache.Defs.{Cache, as_hit}
use skipjack_mcp.Cache.Store.{get-stored}
use skipjack_mcp.Manager.Setting.{Shared, Setting, Manager}
use skipjack_mcp.Manager.Pipeline.{
  Response, key_of, write, attempt, after_turn, after_miss, execute_provider_pipeline,
}

module _ (f64 : F64) (setting : Setting f64) (manager : Manager (f64.Carrier))
    (request : SearchRequest) where
  open setting use {
    Outside, CacheError, provider_search, now_secs, rounds, random, from_str, to_string, too_large,
  }

  abbrev Resp : Type 0
  Resp = Response f64 setting manager request

  abbrev key : Text → Text
  key name = key_of f64 setting manager request (name ∷ [])

  -- The cache after the response has been written to it.
  abbrev IsWritten : Text → Resp → Cache → Outside → Type 0
  IsWritten name response cache outside =
      (before : Cache) × (cache
        ≡ write f64 setting manager request (key name) (provider_list_string (name ∷ [])) response
            (now_secs outside) before)

  attempt-IsWritten :
      (name : Text) (s : Cache × Outside) (response : Resp)
      → (attempt f64 setting manager request name s).0 ≡ ok response
      → IsWritten name response
          (attempt f64 setting manager request name s).1.0
          (attempt f64 setting manager request name s).1.1
  unfolding attempt
  attempt-IsWritten name (cache, outside) response h =
      elim (Result-cases (provider_search name request outside).0) [
        | inl (r, found) ↦
            let returned : ok r ≡ ok response = rw (found, attempt) at h in
            let same : r ≡ response = cc in
            rw (found, attempt)
              (
                cache,
                ap
                    (λ v.
                      write f64 setting manager request (key name)
                        (provider_list_string (name ∷ [])) v
                        (now_secs (provider_search name request outside).1) cache)
                    same,
              )
        | inr (e, failed) ↦ let wrong : err e ≡ ok response = rw (failed, attempt) at h in cc
      ]

  ended :
      {T E : Type 0} (ending : Ending T E) (v : T)
      → (elim ending [ done result ↦ some result | panicked ↦ none ]) ≡ some (ok v)
      → ending ≡ done (ok v)
  ended (done result) v h = let same : result ≡ ok v = cc in ap done same
  ended panicked v h = cc

  after_turn-IsWritten :
      (name : Text) (turn : Option ℕ) (cache : Cache) (windows : Windows) (shared : Shared)
      (outside : Outside) (response : Resp)
      → (after_turn f64 setting manager request name turn cache windows shared outside).0
        ≡ some (ok response)
      → IsWritten name response
          (after_turn f64 setting manager request name turn cache windows shared outside).1.cache
          (after_turn f64 setting manager request name turn cache windows shared outside).2
  unfolding after_turn
  after_turn-IsWritten name none cache windows shared outside response h = cc
  after_turn-IsWritten name (some t) cache windows shared outside response h =
      retry-success f64 provider_classify (attempt f64 setting manager request name)
        manager.retry_config (random outside) (λ v s. IsWritten name v s.0 s.1)
        (λ s v. attempt-IsWritten name s v) (cache, outside) response (ended _ response h)

  pipeline-miss :
      (name : Text) (rpm : ℕ) (shared : Shared) (outside : Outside)
      → (Cached.get from_str shared.cache (key name) (now_secs outside)).1 ≡ ok none
      → execute_provider_pipeline f64 setting manager request name rpm shared outside
        ≡ after_miss f64 setting manager request name rpm
            (Cached.get from_str shared.cache (key name) (now_secs outside)).0
            shared
            outside
  unfolding execute_provider_pipeline
  pipeline-miss name rpm shared outside h = rw (h, execute_provider_pipeline) refl

  pipeline-hit :
      (name : Text) (rpm : ℕ) (shared : Shared) (outside : Outside) (cached : Resp)
      → (Cached.get from_str shared.cache (key name) (now_secs outside)).1 ≡ ok (some cached)
      → ((execute_provider_pipeline f64 setting manager request name rpm shared outside).0
          ≡ some (ok (as_hit cached)))
        × ((execute_provider_pipeline f64 setting manager request name rpm shared outside).2
            ≡ outside)
  unfolding execute_provider_pipeline
  pipeline-hit name rpm shared outside cached h = rw (h, execute_provider_pipeline) (refl, refl)

  after_miss-IsWritten :
      (name : Text) (rpm : ℕ) (cache : Cache) (shared : Shared) (outside : Outside)
      (response : Resp)
      → (after_miss f64 setting manager request name rpm cache shared outside).0
        ≡ some (ok response)
      → IsWritten name response
          (after_miss f64 setting manager request name rpm cache shared outside).1.cache
          (after_miss f64 setting manager request name rpm cache shared outside).2
  unfolding after_miss
  after_miss-IsWritten name rpm cache shared outside response h =
      after_turn-IsWritten name _ cache _ shared _ response h

  -- When the pipeline of a provider finds nothing in the cache and returns a response, which
  -- serde_json writes and reads back, the next pipeline for the same request before the TTL,
  -- below 2 ^ 63 seconds, has passed returns that response as a hit and asks no provider.
  pub pipeline-Reuses :
      (name : Text) (rpm : ℕ) (shared : Shared) (outside later : Outside) (response : Resp)
      (json : Text)
      → to_string response ≡ ok json
      → from_str json ≡ ok response
      → manager.cache_ttl_secs < 2 ^ 63
      → now_secs later < 2 ^ 63 - 1
      → (Cached.get from_str shared.cache
          (key_of f64 setting manager request (name ∷ []))
          (now_secs outside)).1
        ≡ ok none
      → (execute_provider_pipeline f64 setting manager request name rpm shared outside).0
        ≡ some (ok response)
      → now_secs later
        < now_secs (execute_provider_pipeline f64 setting manager request name rpm shared outside).2
          + manager.cache_ttl_secs
      → ((execute_provider_pipeline f64 setting manager request name rpm
            (execute_provider_pipeline f64 setting manager request name rpm shared outside).1
            later).0
          ≡ some (ok (as_hit response)))
        × ((execute_provider_pipeline f64 setting manager request name rpm
              (execute_provider_pipeline f64 setting manager request name rpm shared outside).1
              later).2
            ≡ later)
  pipeline-Reuses name rpm shared outside later response json ser de ttl small missed result fresh =
      let first = execute_provider_pipeline f64 setting manager request name rpm shared outside in
      let same = pipeline-miss name rpm shared outside missed in
      let (before, written) : IsWritten name response first.1.cache first.2 =
        subst (λ r. IsWritten name response r.1.cache r.2) (sym same)
          (after_miss-IsWritten name rpm _ shared outside response
            (ap (λ r. r.0) (sym same) ∙ result)) in
      let read =
        (get-stored from_str to_string too_large before (key name) request.query
          (provider_list_string (name ∷ [])) json response manager.cache_ttl_secs (now_secs first.2)
          (now_secs later) ser de ttl small) in
      let early : leb (now_secs first.2 + manager.cache_ttl_secs) (now_secs later) ≡ false =
        ground arith in
      pipeline-hit name rpm first.1 later (as_hit response) (
        ap (λ c. (Cached.get from_str c (key name) (now_secs later)).1) written
        ∙ read
        ∙ ap (λ b. if b then ok none else ok (some (as_hit response))) early)
