-- ===== src/Mate/Start/Totals.antt =====
-- The counters of a scraper with many workers.
use scrapemate.Prelude.{Bool, ℕ, ◌+◌, ◌≡◌, refl, ap, subst, arith, Option, pos_part}
use scrapemate.Errors.{Error}
use scrapemate.Mate.Env.{ScrapeMate, Processed}
use scrapemate.Mate.Worker.{inc_jobs_completed, inc_jobs_failed}
use scrapemate.Mate.Start.{
  Pc, working, finishing, pushing, sending, failing, Shared, returned, System, fresh, Move, stop,
  Step, turn, work, tick, stop_ticking, signal, cancel, leave, init_fails, init_ends, wait, return,
  Steps, stay, go_on,
}
use scrapemate.Mate.Start.Sums.{sum, sum-move, sum-AllStopped, sum-replicate}
use scrapemate.Mate.Start.Closing.{SoundAt, Sound, Steps-Sound, Steps-IsClosedLast}

-- A job that neither counter has for how it ends now.
abbrev pub uncounted : {J V : Type 0} → Pc J V → ℕ
uncounted (working j) = 1
uncounted (finishing j ans next) = 1
uncounted (failing j) = 1
uncounted _ = 0

-- A job that is counted as completed while finishJob still runs.
abbrev pub half_way : {J V : Type 0} → Pc J V → ℕ
half_way (pushing j ans next) = 1
half_way (sending j ans) = 1
half_way _ = 0

module _ {J V : Type 0} where
  pub record AreCounted (s : System J V) : Type 0 where
    pub ends :
        s.shared.stats.num_of_jobs_completed
          + s.shared.stats.num_of_jobs_failed
          + sum uncounted s.workers
        ≡ s.shared.taken + s.shared.half_done
    pub completions :
        s.shared.stats.num_of_jobs_completed
        ≡ s.shared.handled + s.shared.half_done + sum half_way s.workers

  -- What a move of one worker changes.
  record Counts (m : Shared) (p : Pc J V) (m' : Shared) (p' : Pc J V) : Type 0 where
    ends :
        m'.stats.num_of_jobs_completed
          + m'.stats.num_of_jobs_failed
          + uncounted p'
          + (m.taken + m.half_done)
        ≡ m.stats.num_of_jobs_completed
          + m.stats.num_of_jobs_failed
          + uncounted p
          + (m'.taken + m'.half_done)
    completions :
        m'.stats.num_of_jobs_completed + (m.handled + m.half_done + half_way p)
        ≡ m.stats.num_of_jobs_completed + (m'.handled + m'.half_done + half_way p')

module _ {W J V : Type 0} (mate : ScrapeMate W J V) (use_in_results : J → Bool)
    (does : J → Processed J V → Type 0) where
  Move-Counts :
      {m m' : Shared} {p p' : Pc J V} → Move mate use_in_results does m p m' p' → Counts m p m' p'
  unfolding inc_jobs_completed inc_jobs_failed
  Move-Counts (stop gone) = ground arith
  Move-Counts mv = ground arith

  Step-AreCounted :
      {s t : System J V} → Step mate use_in_results does s t → Sound s → AreCounted s → AreCounted t
  Step-AreCounted {s} (turn (work _ before after {p} {p'} {m'} at mv)) sound h =
      let c = Move-Counts mv in
      record {
        ends = omega (arith, c.ends, h.ends, sum-move uncounted s.workers before after p p' at);
        completions =
            omega (
              arith,
              c.completions,
              h.completions,
              sum-move half_way s.workers before after p p' at,
            );
      }
  Step-AreCounted (turn (tick _ now on idle)) sound h = record {
    ends = h.ends;
    completions = h.completions;
  }
  Step-AreCounted (turn (stop_ticking _ e on gone)) sound h = record {
    ends = h.ends;
    completions = h.completions;
  }
  Step-AreCounted (turn (signal _)) sound h = record { ends = h.ends; completions = h.completions }
  Step-AreCounted (cancel _ e) sound h = record { ends = h.ends; completions = h.completions }
  Step-AreCounted (leave _ r some_reader) sound h = record {
    ends = h.ends;
    completions = h.completions;
  }
  Step-AreCounted (turn (init_fails _ e at)) sound h = record {
    ends = h.ends;
    completions = h.completions;
  }
  Step-AreCounted {s} (turn (init_ends _ at)) sound h =
      let (none_yet, _, _) =
        subst (SoundAt s.shared.cause s.workers s.ticking s.shared.closed) at sound in
      let n = pos_part mate.concurrency in
      record {
        ends = omega (arith, h.ends, ap (sum uncounted) none_yet, sum-replicate uncounted refl n);
        completions =
            omega (arith, h.completions, ap (sum half_way) none_yet, sum-replicate half_way refl n);
      }
  Step-AreCounted (turn (wait _ at all quiet)) sound h = record {
    ends = h.ends;
    completions = h.completions;
  }
  Step-AreCounted (turn (return _ e at gone)) sound h = record {
    ends = h.ends;
    completions = h.completions;
  }

  -- Whatever the workers do and in whichever order: the jobs that are completed, failed or still to
  -- be counted are those that were taken, and once more those whose next jobs could not be pushed, which are
  -- counted twice; the completed ones are those that ended well, those, and the ones under way.
  Steps-AreCounted :
      (readers : ℕ) {s : System J V}
      → Steps mate use_in_results does (fresh readers) s
      → AreCounted s
  Steps-AreCounted readers stay = record { ends = refl; completions = refl }
  Steps-AreCounted readers (go_on steps step) =
      Step-AreCounted step (Steps-Sound mate use_in_results does steps (refl, refl, refl))
        (Steps-AreCounted readers steps)

  -- When Start has returned, however its workers took their steps: every job that a worker received
  -- ended well or is counted as failed, and the jobs counted as completed are those that ended well and
  -- those whose next jobs could not be pushed, which are counted as failed too.
  pub Steps-counters :
      {s : System J V} (readers : ℕ) (r : Option Error)
      → Steps mate use_in_results does (fresh readers) s
      → s.main ≡ returned r
      → (s.shared.taken ≡ s.shared.handled + s.shared.stats.num_of_jobs_failed)
        × (s.shared.stats.num_of_jobs_completed ≡ s.shared.handled + s.shared.half_done)
  Steps-counters {s} readers r steps at =
      let (all, _, _) = (Steps-IsClosedLast mate use_in_results does readers steps).result r at in
      let c = Steps-AreCounted readers steps in
      let u = sum-AllStopped uncounted refl s.workers all in
      let h = sum-AllStopped half_way refl s.workers all in
      (omega (arith, c.ends, c.completions, u, h), omega (arith, c.completions, h))
