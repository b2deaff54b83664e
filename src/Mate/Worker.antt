-- ===== src/Mate/Worker.antt =====
-- The worker of scrapemate.go: startWorker, finishJob, pushJobs, pushToFailedJobs and `stats`.
pub mod Accounts
use scrapemate.Prelude.{
  ℕ, suc, ◌+◌, ℤ, Bool, true, false, Option, none, some, List, [], ◌∷◌, if◌then◌else◌, is_none,
}
use scrapemate.Errors.{Error, wrapped, canceled}
use scrapemate.Mate.Env.{IJob, ScrapeMate, Runtime, Processed}
use scrapemate.Mate.Exec.{
  pushed, taken, delivered, Stats, State, Exec, ◌>>=◌, ◌>>◌, pure, diverge, record_event, call,
}
use scrapemate.Mate.DoJob.{do_job}

-- incJobsCompleted and incJobsFailed, at the time `t`.
unfoldable pub inc_jobs_completed : ℕ → Stats → Stats
inc_jobs_completed t o = record o {
  num_of_jobs_completed = o.num_of_jobs_completed + 1;
  last_activity_at = t;
}

unfoldable pub inc_jobs_failed : ℕ → Stats → Stats
inc_jobs_failed t o = record o {
  num_of_jobs_failed = o.num_of_jobs_failed + 1;
  last_activity_at = t;
}

-- What a worker's select takes: the end of the context, an error of the provider, or a job.
pub data Choice (J : Type 0) : Type 0 where
  done : Choice J
  provider_error : Error → Choice J
  job : J → Choice J

module _ {W J V : Type 0} (ijob : IJob W J V) (mate : ScrapeMate W J V)
    (runtime : Runtime W J) where
  -- The counters are written under the lock.
  pub count_completed : Exec (State W J V) (Unit {0})
  count_completed s =
      pure tt (record s { stats = inc_jobs_completed (runtime.now s.world) s.stats })

  pub count_failed : Exec (State W J V) (Unit {0})
  count_failed s = pure tt (record s { stats = inc_jobs_failed (runtime.now s.world) s.stats })

  -- The select in pushToFailedJobs: a reader takes the job, or the timeout passes.
  pub offer_failed : J → Exec (State W J V) (Unit {0})
  offer_failed j s =
      let (took, w) = runtime.take_failed j s.world in
      record_event (taken j took) (record s { world = w })

  pub push_to_failed_jobs : J → Exec (State W J V) (Unit {0})
  push_to_failed_jobs j = do count_failed; if mate.failed_jobs then offer_failed j else pure tt

  -- s.jobProvider.Push
  pub push : J → Exec (State W J V) (Option Error)
  push j = do err ← call (mate.job_provider.push j); record_event (pushed j err); pure err

  -- Stops at the first error.
  pub push_jobs : List J → Exec (State W J V) (Option Error)
  push_jobs [] = pure none
  push_jobs (j ∷ js) = do err ← push j; elim err [ none ↦ push_jobs js | some e ↦ pure (some e) ]

  -- The send on `results`; it waits until a reader takes the result.
  pub deliver : J → Option V → Exec (State W J V) (Unit {0})
  deliver j ans = if ijob.use_in_results j then record_event (delivered j ans) else pure tt

  pub finish_job : J → Option V → List J → Exec (State W J V) (Option Error)
  finish_job j ans next = do
    count_completed
    err ← push_jobs next
    elim err [
      | none ↦ (do deliver j ans; pure none)
      | some e ↦ pure (some (wrapped e "while pushing jobs"))
    ]

  -- The third case of the select in startWorker.
  pub handle_job : J → Exec (State W J V) (Unit {0})
  handle_job j = do
    p ← do_job ijob mate j
    elim p.err [
      | none ↦ (do
        err ← finish_job j p.result p.next
        elim err [ none ↦ pure tt | some e ↦ push_to_failed_jobs j ])
      | some e ↦ push_to_failed_jobs j
    ]

  -- One round of startWorker; `true` goes on. On an error of the provider it asks for the jobs
  -- again, unless the context is cancelled.
  pub worker_step : Choice J → Exec (State W J V) Bool
  worker_step done = pure false
  worker_step (provider_error e) = λ s. pure (is_none s.cause) s
  worker_step (job j) = do handle_job j; pure true

  -- A worker over the choices that its selects make.
  pub start_worker : List (Choice J) → Exec (State W J V) (Unit {0})
  start_worker [] = pure tt
  start_worker (c ∷ cs) = do more ← worker_step c; if more then start_worker cs else pure tt
