-- ===== src/Mate/DoJob/Frame.antt =====
-- What DoJob leaves alone: a predicate that its events, the outside and a cancellation keep.
use scrapemate.Prelude.{◌≡◌, String, Option, none, some, ◌∷◌, is_none}
use scrapemate.Response.{Response}
use scrapemate.Mate.Env.{IJob, ScrapeMate, Processed, Cacher, HtmlParser}
use scrapemate.Mate.Exec.{cache_set, processed, State, Outcome, returns, panics, out_of_fuel}
use scrapemate.Mate.Triple.{
  Triple, Ends, Triple-bind, Triple-pure, Triple-then, Triple-call, Triple-event, Triple-option,
  Triple-if,
}
use scrapemate.Mate.Fetch.Frame.{Frame, do_fetch-frame}
use scrapemate.Mate.DoJob.{
  cached_response, store_response, set_document, process_job, process_response, fetch_response,
  run_job, recovered, attempt,
}

module _ {W J V : Type 0} where
  -- What happens from the parser on.
  pub record ResponseFrame (P : State W J V → Type 0) : Type 0 where
    pub world : (s : State W J V) (w : W) → P s → P (record s { world = w })
    pub processes : (s : State W J V) (j : J) → P s → P (record s { trace = processed j ∷ s.trace })

  -- All that happens: only a response without an error is put in the cache.
  pub record JobFrame (P : State W J V → Type 0) : Type 0 where
    pub fetching : Frame P
    pub stores :
        (s : State W J V) (key : String) (resp : Response V)
        → resp.error ≡ none
        → P s
        → P (record s { trace = cache_set key resp ∷ s.trace })
    pub response : ResponseFrame P

module _ {W J V : Type 0} (ijob : IJob W J V) (mate : ScrapeMate W J V)
    (P : State W J V → Type 0) where
  pub recovered-frame :
      (r : Outcome (Processed J V) × State W J V)
      → Ends (λ _. P) P r.0 r.1
      → Ends (λ _. P) (λ _. ⊥) (recovered ijob mate r).0 (recovered ijob mate r).1
  unfolding recovered
  recovered-frame (returns p, s) h = h
  recovered-frame (panics, s) h = h
  recovered-frame (out_of_fuel, s) h = h

module _ {W J V : Type 0} (ijob : IJob W J V) (mate : ScrapeMate W J V) (job : J)
    {P : State W J V → Type 0} (frame : ResponseFrame P) where
  pub document-frame :
      (parser : Option (HtmlParser W V)) (resp : Response V)
      → Triple P (set_document ijob mate parser resp) (λ _. P) P
  unfolding set_document
  document-frame none resp = Triple-pure _ (λ s p. p)
  document-frame (some parser) resp =
      Triple-if (is_none resp.error) _ _
        (λ _.
          Triple-bind _ _ (Triple-call _ (λ s w _. frame.world s w) frame.world)
            λ r. Triple-pure _ (λ s p. p))
        (λ _. Triple-pure _ (λ s p. p))

  process_job-frame : (resp : Response V) → Triple P (process_job ijob mate job resp) (λ _. P) P
  unfolding process_job
  process_job-frame resp =
      Triple-bind _ _ (Triple-call _ (λ s w _. frame.world s w) frame.world) λ p.
        Triple-then _ _ (Triple-event _ (λ s. frame.processes s job)) (Triple-pure _ (λ s p. p))

  pub process_response-frame :
      (resp : Response V) → Triple P (process_response ijob mate job resp) (λ _. P) P
  unfolding process_response
  process_response-frame resp =
      Triple-bind _ _ (document-frame mate.html_parser resp) λ (ready, err).
        Triple-option err _ _ (λ _. process_job-frame ready) (λ e _. Triple-pure _ (λ s p. p))

module _ {W J V : Type 0} (ijob : IJob W J V) (mate : ScrapeMate W J V) (job : J)
    {P : State W J V → Type 0} (frame : JobFrame P) where
  pub cached-frame :
      (cache : Option (Cacher W V)) (key : String)
      → Triple P (cached_response ijob mate cache key) (λ _. P) P
  unfolding cached_response
  cached-frame none key = Triple-pure _ (λ s p. p)
  cached-frame (some cache) key =
      Triple-bind _ _ (Triple-call _ (λ s w _. frame.fetching.world s w) frame.fetching.world)
        λ r. Triple-pure _ (λ s p. p)

  pub store-frame :
      (cache : Option (Cacher W V)) (key : String) (resp : Response V)
      → resp.error ≡ none
      → Triple P (store_response ijob mate cache key resp) (λ _. P) P
  unfolding store_response
  store-frame none key resp e = Triple-pure _ (λ s p. p)
  store-frame (some cache) key resp e =
      Triple-bind _ _ (Triple-call _ (λ s w _. frame.fetching.world s w) frame.fetching.world)
        λ err. Triple-event _ (λ s. frame.stores s key resp e)

  fetch_response-frame : Triple P (fetch_response ijob mate job) (λ _. P) P
  unfolding fetch_response
  fetch_response-frame = Triple-bind _ _ (do_fetch-frame ijob mate job frame.fetching) λ resp.
      Triple-option resp.error _ _
        (λ e.
          Triple-then _ _ (store-frame mate.cache (ijob.get_cache_key job) resp e)
            (process_response-frame ijob mate job frame.response resp))
        (λ e _.
          Triple-if (ijob.process_on_fetch_error job) _ _
            (λ _. process_response-frame ijob mate job frame.response resp)
            (λ _. Triple-pure _ (λ s p. p)))

  run_job-frame : Triple P (run_job ijob mate job) (λ _. P) P
  unfolding run_job
  run_job-frame = Triple-bind _ _ (cached-frame mate.cache (ijob.get_cache_key job)) λ hit.
      Triple-option hit _ _ (λ _. fetch_response-frame)
        (λ resp _. process_response-frame ijob mate job frame.response resp)

  pub attempt-frame : Triple P (attempt ijob mate job) (λ _. P) (λ _. ⊥)
  unfolding attempt
  attempt-frame = record {
    at = λ s p. recovered-frame ijob mate P (run_job ijob mate job s) (run_job-frame.at s p);
  }
