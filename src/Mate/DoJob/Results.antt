-- ===== src/Mate/DoJob/Results.antt =====
-- A predicate on the results of DoJob, from one on those of Process.
use scrapemate.Prelude.{◌≡◌, refl, Option, none, some}
use scrapemate.Errors.{Error, panicked}
use scrapemate.Response.{Response}
use scrapemate.Mate.Env.{IJob, ScrapeMate, Processed, Reply, replies, throws}
use scrapemate.Mate.Exec.{State, Outcome, returns, panics, out_of_fuel, call, answer}
use scrapemate.Mate.Triple.{
  Triple, Ends, Triple-bind, Triple-pure, Triple-then, Triple-option, Triple-if,
}
use scrapemate.Mate.DoJob.{
  failure, process_job, process_response, fetch_response, run_job, recovered, attempt,
}
use scrapemate.Mate.DoJob.Frame.{JobFrame, cached-frame, store-frame, document-frame}
use scrapemate.Mate.Fetch.Frame.{do_fetch-frame}

module _ {W J V : Type 0} (ijob : IJob W J V) (mate : ScrapeMate W J V) (job : J)
    (Q : Processed J V → Type 0) (failures : (e : Error) → Q (failure e))
    (successes : (resp : Response V) (w w' : W) (p : Processed J V)
      → ijob.process job resp w ≡ (replies p, w')
      → Q p) where
  abbrev Any : State W J V → Type 0
  Any s = Unit

  Any-frame : JobFrame Any
  Any-frame = record {
    fetching = record {
      world = λ s w p. p;
      fetches = λ s j p. p;
      checks = λ s j b ans p. p;
      sleeps = λ s d p. p;
      halts = λ s p. p;
    };
    stores = λ s key resp e p. p;
    response = record { world = λ s w p. p; processes = λ s j p. p };
  }

  checked_result :
      (p : Processed J V) (o : Option Error) → Q p → Q (elim o [ none ↦ p | some e ↦ failure e ])
  checked_result p none q = q
  checked_result p (some e) q = failures e

  process_job-result :
      (resp : Response V) → Triple Any (process_job ijob mate job resp) (λ p _. Q p) Any
  unfolding process_job
  process_job-result resp =
      Triple-bind _ _ called λ p. record { at = λ s q. checked_result p p.err q }
    where
      called : Triple Any (call (ijob.process job resp)) (λ p _. Q p) Any
      called = record { at = λ s _. go s (ijob.process job resp s.world) refl }
        where
          go :
              (s : State W J V) (r : Reply (Processed J V) × W)
              → ijob.process job resp s.world ≡ r
              → Ends (λ p _. Q p) Any (answer s r).0 (answer s r).1
          go s (replies p, w) e = successes resp s.world w p e
          go s (throws, w) e = tt

  process_response-result :
      (resp : Response V) → Triple Any (process_response ijob mate job resp) (λ p _. Q p) Any
  unfolding process_response
  process_response-result resp =
      Triple-bind _ _ (document-frame ijob mate job Any-frame.response mate.html_parser resp)
        λ (ready, err).
          Triple-option err _ _ (λ _. process_job-result ready)
            (λ e _. Triple-pure _ (λ s p. failures e))

  fetch_response-result : Triple Any (fetch_response ijob mate job) (λ p _. Q p) Any
  unfolding fetch_response
  fetch_response-result = Triple-bind _ _ (do_fetch-frame ijob mate job Any-frame.fetching) λ resp.
      Triple-option resp.error _ _
        (λ e.
          Triple-then _ _
            (store-frame ijob mate job Any-frame mate.cache (ijob.get_cache_key job) resp e)
            (process_response-result resp))
        (λ e _.
          Triple-if (ijob.process_on_fetch_error job) _ _ (λ _. process_response-result resp)
            (λ _. Triple-pure _ (λ s p. failures e)))

  run_job-result : Triple Any (run_job ijob mate job) (λ p _. Q p) Any
  unfolding run_job
  run_job-result =
      Triple-bind _ _ (cached-frame ijob mate job Any-frame mate.cache (ijob.get_cache_key job))
        λ hit.
          Triple-option hit _ _ (λ _. fetch_response-result)
            (λ resp _. process_response-result resp)

  recovered-result :
      (r : Outcome (Processed J V) × State W J V)
      → Ends (λ p _. Q p) Any r.0 r.1
      → Ends (λ p _. Q p) (λ _. ⊥) (recovered ijob mate r).0 (recovered ijob mate r).1
  unfolding recovered
  recovered-result (returns p, s) h = h
  recovered-result (panics, s) h = failures panicked
  recovered-result (out_of_fuel, s) h = h

  pub attempt-result : Triple Any (attempt ijob mate job) (λ p _. Q p) (λ _. ⊥)
  unfolding attempt
  attempt-result = record {
    at = λ s p. recovered-result (run_job ijob mate job s) (run_job-result.at s p);
  }
