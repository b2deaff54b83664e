-- ===== src/Mate/DoJob/Caching.antt =====
-- How DoJob uses the cache.
use scrapemate.Prelude.{◌≡◌, refl, none, some, List, [], ◌∷◌}
use scrapemate.Response.{Response}
use scrapemate.Mate.Env.{throws, IJob, ScrapeMate, Cacher, replies}
use scrapemate.Mate.Exec.{Event, cache_set, State}
use scrapemate.Mate.Triple.{Triple, Ends-returns}
use scrapemate.Mate.Fetch.Retries.{count_fetched, Fetched}
use scrapemate.Mate.DoJob.Named.{do_job-Triple}
use scrapemate.Mate.DoJob.{
  cached_response, process_response, set_document, run_job, attempt, do_job,
}
use scrapemate.Mate.DoJob.Frame.{JobFrame, process_response-frame, recovered-frame, attempt-frame}

-- Every response that a trace puts in the cache is free of error.
abbrev pub CachesGood : {J V : Type 0} → List (Event J V) → Type 0
CachesGood [] = Unit
CachesGood (cache_set key resp ∷ es) = (resp.error ≡ none) × CachesGood es
CachesGood (_ ∷ es) = CachesGood es

module _ {W J V : Type 0} (ijob : IJob W J V) (mate : ScrapeMate W J V) (job : J) where
  abbrev pub Good : State W J V → Type 0
  Good s = CachesGood s.trace

  Good-frame : JobFrame Good
  Good-frame = record {
    fetching = record {
      world = λ s w p. p;
      fetches = λ s j p. p;
      checks = λ s j b ans p. p;
      sleeps = λ s d p. p;
      halts = λ s p. p;
    };
    stores = λ s key resp e p. (e, p);
    response = record { world = λ s w p. p; processes = λ s j p. p };
  }

  -- DoJob never puts a response with an error in the cache, however it ends; it panics only if the job's GetID
  -- does.
  pub do_job-CachesGood :
      Triple Good (do_job ijob mate job) (λ _. Good) (λ s. Good s × (ijob.get_id job ≡ throws))
  do_job-CachesGood = do_job-Triple ijob mate job (attempt-frame ijob mate job Good-frame)

  run_job-hit :
      (s : State W J V) (cache : Cacher W V) (resp : Response V) (w : W)
      → mate.cache ≡ some cache
      → cache.get (ijob.get_cache_key job) s.world ≡ (replies (resp, none), w)
      → run_job ijob mate job s ≡ process_response ijob mate job resp (record s { world = w })
  unfolding run_job cached_response process_response set_document
  run_job-hit s cache resp w e h = rw (e, cached_response, h)

  -- DoJob does not fetch a response that the cache has: if the cache's Get for the job's key has
  -- no error, the number of fetches stays what it was.
  attempt-hit :
      (s : State W J V) (cache : Cacher W V) (resp : Response V) (w : W)
      → mate.cache ≡ some cache
      → cache.get (ijob.get_cache_key job) s.world ≡ (replies (resp, none), w)
      → count_fetched (attempt ijob mate job s).1.trace ≡ count_fetched s.trace
  unfolding attempt
  attempt-hit s cache resp w e h = rw (run_job-hit s cache resp w e h) (
      Ends-returns (Fetched (count_fetched s.trace)) _ _ (
        recovered-frame ijob mate (Fetched (count_fetched s.trace)) _ (
          (process_response-frame ijob mate job
              (record { world = λ s w p. p; processes = λ s j p. p }) resp).at
            (record s { world = w }) refl)))
