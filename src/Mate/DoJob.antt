-- ===== src/Mate/DoJob.antt =====
-- DoJob of scrapemate.go. Logging and the duration that it logs are left out.
pub mod Named
pub mod Settled
pub mod Frame
pub mod Caching
pub mod Results
use scrapemate.Prelude.{
  String, ℤ, Bool, true, false, Option, none, some, List, [], ◌∷◌, if◌then◌else◌, not, ◌&&◌,
  is_none,
}
use scrapemate.Errors.{Error, panicked}
use scrapemate.Response.{Response}
use scrapemate.Mate.Env.{IJob, ScrapeMate, Cacher, HtmlParser, Processed, Reply, replies, throws}
use scrapemate.Mate.Exec.{
  cache_set, processed, Event, State, Outcome, returns, panics, out_of_fuel, Exec, and_then, ◌>>=◌,
  ◌>>◌, pure, record_event, call,
}
use scrapemate.Mate.Fetch.{do_fetch}

-- return nil, nil, err
abbrev pub failure : {J V : Type 0} → Error → Processed J V
failure e = record { result = none; next = []; err = some e }

module _ {W J V : Type 0} (ijob : IJob W J V) (mate : ScrapeMate W J V) where
  -- s.cache.Get, if there is a cache: the response, if there was no error.
  pub cached_response : Option (Cacher W V) → String → Exec (State W J V) (Option (Response V))
  cached_response none key = pure none
  cached_response (some cache) key = do
    (resp, err) ← call (cache.get key)
    pure (if is_none err then some resp else none)

  -- s.cache.Set, if there is a cache; an error of it is only logged.
  pub store_response : Option (Cacher W V) → String → Response V → Exec (State W J V) (Unit {0})
  store_response none key resp = pure tt
  store_response (some cache) key resp = do
    err ← call (cache.set key resp)
    record_event (cache_set key resp)

  -- s.htmlParser.Parse, if there is a parser and the response has no error. It returns the
  -- response with its document, and the error.
  pub set_document :
      Option (HtmlParser W V) → Response V → Exec (State W J V) (Response V × Option Error)
  set_document none resp = pure (resp, none)
  set_document (some parser) resp =
      if is_none resp.error
      then (do
        (doc, err) ← call (parser.parse resp.body)
        pure (record resp { document = doc }, err))
      else pure (resp, none)

  -- job.Process: its results, or nil results with its error.
  pub process_job : J → Response V → Exec (State W J V) (Processed J V)
  process_job job resp = do
    p ← call (ijob.process job resp)
    record_event (processed job)
    pure (elim p.err [ none ↦ p | some e ↦ failure e ])

  -- From the parser on.
  pub process_response : J → Response V → Exec (State W J V) (Processed J V)
  process_response job resp = do
    (ready, err) ← set_document mate.html_parser resp
    elim err [ none ↦ process_job job ready | some e ↦ pure (failure e) ]

  -- The default case of the switch: no response in the cache.
  pub fetch_response : J → Exec (State W J V) (Processed J V)
  fetch_response job = do
    resp ← do_fetch ijob mate job
    elim resp.error [
      | none ↦ (do
        store_response mate.cache (ijob.get_cache_key job) resp
        process_response job resp)
      | some e ↦
          if ijob.process_on_fetch_error job then process_response job resp else pure (failure e)
    ]

  pub run_job : J → Exec (State W J V) (Processed J V)
  run_job job = do
    hit ← cached_response mate.cache (ijob.get_cache_key job)
    elim hit [ none ↦ fetch_response job | some resp ↦ process_response job resp ]

  -- The deferred function: a panic becomes an error.
  pub recovered : Outcome (Processed J V) × State W J V → Outcome (Processed J V) × State W J V
  recovered (returns p, s) = (returns p, s)
  recovered (panics, s) = (returns (failure panicked), s)
  recovered (out_of_fuel, s) = (out_of_fuel, s)

  -- From the deferred function on.
  pub attempt : J → Exec (State W J V) (Processed J V)
  attempt job s = recovered (run_job job s)

  -- GetID, for the log, comes before the deferred function: DoJob does not recover from a panic of it.
  pub do_job : J → Exec (State W J V) (Processed J V)
  do_job job = elim (ijob.get_id job) [ throws ↦ (λ s. (panics, s)) | replies id ↦ attempt job ]
