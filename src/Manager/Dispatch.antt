-- ===== src/Manager/Dispatch.antt =====
-- src/daemon/manager.rs: `search`, `search_concurrent` and `search_tiered`. The tasks of a dispatch
-- touch the cache entries, windows and health states of different providers; here they run one after
-- the other, in the order of their completion, and `others` stands for what other requests, and tasks
-- that are aborted at the deadline, do to the shared state in between.
use skipjack_mcp.Base.{
  ℕ, ◌+◌, Bool, true, false, Option, none, some, List, [], ◌∷◌, ◌++◌, if◌then◌else◌, ltb, leb,
  length, is_empty, unwrap_or,
}
use skipjack_mcp.Base.Text.{Text, bytes, text_eq}
use skipjack_mcp.Base.Float.{F64}
use skipjack_mcp.Search.{ProviderError, Result, ok, err, SearchRequest}
use skipjack_mcp.Cache.Keys.{provider_list_string}
use skipjack_mcp.Cache.Defs as Cached
use skipjack_mcp.Cache.Defs.{Cache, as_hit}
use skipjack_mcp.Merge.Defs.{merge}
use skipjack_mcp.Rank.Defs.{rank}
use skipjack_mcp.Manager.Choice.{choose, tier_order}
use skipjack_mcp.Manager.Setting.{Shared, Setting, Manager}
use skipjack_mcp.Manager.Pipeline.{Response, key_of, write, task}

module _ (f64 : F64) (setting : Setting f64) (manager : Manager (f64.Carrier))
    (request : SearchRequest) where
  open setting use {
    Outside, CacheError, provider_search, now_secs, instant, rounds, random, sha256, from_str,
    to_string, too_large, canonicalize, age_days, provider_order, value_order, sorter,
  }

  abbrev pub Resp : Type 0
  Resp = Response f64 setting manager request

  abbrev key_for : List Text → Text
  key_for = key_of f64 setting manager request

  pub data Event : Type 0 where
    completes : Text → Event
    others : (Shared → Shared) → Event

  abbrev pub collect : Option (Result ProviderError Resp) → List Resp → List Resp
  collect none responses = responses
  collect (some (err e)) responses = responses
  collect (some (ok response)) responses = response ∷ responses

  -- The events until all tasks have ended or the deadline has passed, with the responses collected.
  unfoldable pub run_tasks : List Event → Shared → Outside → List Resp × Shared × Outside
  unfolding task
  run_tasks [] shared outside = ([], shared, outside)
  run_tasks (others f ∷ events) shared outside = run_tasks events (f shared) outside
  run_tasks (completes name ∷ events) shared outside =
      let (result, shared', outside') = task f64 setting manager request name shared outside in
      let (responses, shared'', outside'') = run_tasks events shared' outside' in
      (collect result responses, shared'', outside'')

  abbrev pub limit : ℕ
  limit = if ltb 0 request.limit then request.limit else manager.default_limit

  abbrev pub empty_response : Resp
  empty_response = record {
    request_id = request.request_id;
    results = [];
    total_found = 0;
    providers_used = [];
    cache_hit = false;
    elapsed_ms = 0;
  }

  -- Merge and rank.
  unfoldable pub combine : List Resp → Resp
  combine responses =
      let merged = merge f64 canonicalize value_order responses limit in
      record merged {
        results = rank f64 age_days manager.ranking manager.provider_weights sorter merged.results;
      }

  -- The last part of a dispatch: merge, rank and cache.
  unfoldable pub finish : List Resp → Shared → Outside → Resp × Shared
  unfolding combine
  finish responses shared outside =
      let merged = combine responses in
      (
        merged,
        record shared {
          cache =
              write f64 setting manager request (key_for merged.providers_used)
                (provider_list_string merged.providers_used) merged (now_secs outside) shared.cache;
        },
      )

  -- `if let Ok(Some(cached)) = self.cache.get(…)`
  abbrev pub if_cached :
      Result CacheError (Option Resp)
      → Shared
      → Outside
      → Resp × Shared × Outside
      → Resp × Shared × Outside
  if_cached (ok (some cached)) shared outside rest = (cached, shared, outside)
  if_cached (ok none) shared outside rest = rest
  if_cached (err e) shared outside rest = rest

  -- `events` are those of the dispatch, where it comes to one.
  unfoldable pub search_concurrent :
      (List Text → List Event) → Shared → Outside → Resp × Shared × Outside
  unfolding run_tasks finish
  search_concurrent events shared outside =
      let (names, states) =
        choose provider_order manager.catalog true request (instant outside) shared.health_states in
      let checked = record shared { health_states = states } in
      let (cache, found) = Cached.get from_str checked.cache (key_for names) (now_secs outside) in
      let looked = record checked { cache = cache } in
      let (responses, shared', outside') = run_tasks (events names) looked outside in
      let (merged, shared'') = finish responses shared' outside' in
      if is_empty names
      then (empty_response, checked, outside)
      else if_cached found looked outside (merged, shared'', outside')

  abbrev pub count_results : List Resp → ℕ
  count_results [] = 0
  count_results (response ∷ responses) = length response.results + count_results responses

  -- The loop over the tiers. `late` says that the deadline has passed, which is asked between tiers.
  unfoldable pub run_tiers :
      (Outside → Bool)
      → (List Text → List Event)
      → List (List Text)
      → ℕ
      → Shared
      → Outside
      → List Resp × Shared × Outside
  unfolding run_tasks
  run_tiers late events [] cumulative shared outside = ([], shared, outside)
  run_tiers late events (chunk ∷ tiers) cumulative shared outside =
      let (responses, shared', outside') = run_tasks (events chunk) shared outside in
      let (more, shared'', outside'') =
        run_tiers late events tiers (cumulative + count_results responses) shared' outside' in
      if leb limit cumulative
      then ([], shared, outside)
      else if late outside
      then ([], shared, outside)
      else (responses ++ more, shared'', outside'')

  unfoldable pub search_tiered :
      (Outside → Bool) → (List Text → List Event) → Shared → Outside → Resp × Shared × Outside
  unfolding run_tiers finish
  search_tiered late events shared outside =
      let (names, states) =
        choose provider_order manager.catalog false request (instant outside)
          shared.health_states in
      let checked = record shared { health_states = states } in
      let (cache, found) = Cached.get from_str checked.cache (key_for names) (now_secs outside) in
      let looked = record checked { cache = cache } in
      let (responses, shared', outside') =
        run_tiers late events (tier_order manager.catalog names) 0 looked outside in
      let (merged, shared'') = finish responses shared' outside' in
      if_cached found looked outside (merged, shared'', outside')

  -- `mode` is that of the request, or else the manager's.
  unfoldable pub search :
      (Outside → Bool) → (List Text → List Event) → ℕ → Shared → Outside → Resp × Shared × Outside
  unfolding search_concurrent search_tiered
  search late events elapsed shared outside =
      let (response, shared', outside') =
        if text_eq (unwrap_or request.dispatch_mode manager.dispatch_mode) (bytes "tiered")
        then search_tiered late events shared outside
        else search_concurrent events shared outside in
      (record response { request_id = request.request_id; elapsed_ms = elapsed }, shared', outside')
