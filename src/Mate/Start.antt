-- ===== src/Mate/Start.antt =====
-- Start of scrapemate.go, with its goroutines: the workers, the ticker, the one that waits for a signal,
-- and Start itself. They take steps in any order. A step of a worker is one access to what they
-- share; the provider gives any job at any time, and DoJob gives what `does` allows.
pub mod Sums
pub mod Closing
pub mod Totals
pub mod Ending
pub mod Deadlock
use scrapemate.Prelude.{
  ℕ, suc, ℤ, pos_part, Bool, true, false, Option, none, some, List, [], ◌∷◌, ◌++◌, replicate, ◌≡◌,
}
use scrapemate.Errors.{Error, wrapped, inactivity_timeout, exit_signal, stopped_by_policy}
use scrapemate.Mate.Env.{ScrapeMate, Processed}
use scrapemate.Mate.Exec.{Stats, first_cause}
use scrapemate.Mate.Worker.{inc_jobs_completed, inc_jobs_failed}
use scrapemate.Mate.Monitor.{is_idle_at, report}

-- Where startWorker stands; `pausing` is its sleep after an error of the provider.
pub data Pc (J V : Type 0) : Type 0 where
  selecting pausing stopped : Pc J V
  -- In DoJob.
  working : J → Pc J V
  -- In finishJob: before incJobsCompleted, in pushJobs, and at the send on `results`.
  finishing pushing : J → Option V → List J → Pc J V
  sending : J → Option V → Pc J V
  -- In pushToFailedJobs: before incJobsFailed, and at its select.
  failing offering : J → Pc J V

-- What the goroutines share. `readers` are those that still receive from `results`, `closed` says
-- whether it is closed. The last three only count: the jobs that workers received, those that finishJob
-- ended without an error, and those that it ended with one.
pub record Shared : Type 0 where
  pub cause : Option Error
  pub stats : Stats
  pub readers : ℕ
  pub closed : Bool
  pub taken : ℕ
  pub handled : ℕ
  pub half_done : ℕ

-- Where Start stands: before and in processInitJob, at wg.Wait, at `<-s.Done()`, or returned.
pub data Main : Type 0 where
  starting waiting draining : Main
  returned : Option Error → Main

pub record System (J V : Type 0) : Type 0 where
  pub shared : Shared
  pub workers : List (Pc J V)
  pub ticking : Bool
  pub main : Main

abbrev pub zero_stats : Stats
zero_stats = record { num_of_jobs_completed = 0; num_of_jobs_failed = 0; last_activity_at = 0 }

-- A scraper that is not started, with the goroutines that read its results.
abbrev pub fresh : {J V : Type 0} → ℕ → System J V
fresh readers = record {
  shared = record {
    cause = none;
    stats = zero_stats;
    readers = readers;
    closed = false;
    taken = 0;
    handled = 0;
    half_done = 0;
  };
  workers = [];
  ticking = false;
  main = starting;
}

-- s.cancelFn
abbrev pub canceled_with : Error → Shared → Shared
canceled_with e m = record m { cause = first_cause m.cause e }

abbrev pub AllStopped : {J V : Type 0} → List (Pc J V) → Type 0
AllStopped [] = Unit
AllStopped (p ∷ ps) = (p ≡ stopped) × AllStopped ps

module _ {W J V : Type 0} (mate : ScrapeMate W J V) (use_in_results : J → Bool)
    (does : J → Processed J V → Type 0) where
  pub data Move (m : Shared) : Pc J V → Shared → Pc J V → Type 0 where
    -- `<-ctx.Done()`, or an error of the provider after the context was cancelled; the context has no deadline.
    stop : {e : Error} → m.cause ≡ some e → Move m selecting m stopped
    provider_fails : m.cause ≡ none → Move m selecting m pausing
    resume : Move m pausing m selecting
    take : {j : J} → Move m selecting (record m { taken = suc m.taken }) (working j)
    -- doFetch under StopScraping.
    halt : {j : J} → Move m (working j) (canceled_with stopped_by_policy m) (working j)
    fails :
        {j : J} {p : Processed J V} {e : Error}
        → does j p
        → p.err ≡ some e
        → Move m (working j) m (failing j)
    succeeds :
        {j : J} {p : Processed J V}
        → does j p
        → p.err ≡ none
        → Move m (working j) m (finishing j p.result p.next)
    count :
        {j : J} {ans : Option V} {next : List J} (t : ℕ)
        → Move m
            (finishing j ans next)
            (record m { stats = inc_jobs_completed t m.stats })
            (pushing j ans next)
    push_one :
        {j k : J} {ans : Option V} {next : List J}
        → Move m (pushing j ans (k ∷ next)) m (pushing j ans next)
    push_fails :
        {j k : J} {ans : Option V} {next : List J}
        → Move m (pushing j ans (k ∷ next)) (record m { half_done = suc m.half_done }) (failing j)
    pushed_all :
        {j : J} {ans : Option V}
        → use_in_results j ≡ true
        → Move m (pushing j ans []) m (sending j ans)
    unused :
        {j : J} {ans : Option V}
        → use_in_results j ≡ false
        → Move m (pushing j ans []) (record m { handled = suc m.handled }) selecting
    -- The send waits for a reader. It would panic if the channel were closed.
    send :
        {j : J} {ans : Option V} {r : ℕ}
        → m.closed ≡ false
        → m.readers ≡ suc r
        → Move m (sending j ans) (record m { handled = suc m.handled }) selecting
    offer :
        {j : J} (t : ℕ)
        → mate.failed_jobs ≡ true
        → Move m (failing j) (record m { stats = inc_jobs_failed t m.stats }) (offering j)
    drop :
        {j : J} (t : ℕ)
        → mate.failed_jobs ≡ false
        → Move m (failing j) (record m { stats = inc_jobs_failed t m.stats }) selecting
    -- A reader takes the job, or the timeout passes.
    offered : {j : J} → Move m (offering j) m selecting

  -- A step of the scraper's own goroutines.
  pub data Turn : System J V → System J V → Type 0 where
    work :
        (s : System J V) (before after : List (Pc J V)) {p p' : Pc J V} {m' : Shared}
        → s.workers ≡ before ++ (p ∷ after)
        → Move s.shared p m' p'
        → Turn s (record s { shared = m'; workers = before ++ (p' ∷ after) })
    -- A tick that finds the scraper idle at the time `now`; other ticks change nothing.
    tick :
        (s : System J V) (now : ℕ)
        → s.ticking ≡ true
        → is_idle_at mate now s.shared.stats ≡ true
        → Turn s (record s {
          shared = canceled_with (wrapped inactivity_timeout "last activity") s.shared;
          ticking = false;
        })
    stop_ticking :
        (s : System J V) (e : Error)
        → s.ticking ≡ true
        → s.shared.cause ≡ some e
        → Turn s (record s { ticking = false })
    signal : (s : System J V) → Turn s (record s { shared = canceled_with exit_signal s.shared })
    -- processInitJob: an error ends Start; otherwise it starts the workers and the ticker.
    init_fails :
        (s : System J V) (e : Error)
        → s.main ≡ starting
        → Turn s (record s { main = returned (some e); shared = record s.shared { closed = true } })
    init_ends :
        (s : System J V)
        → s.main ≡ starting
        → Turn s (record s {
          main = waiting;
          workers = replicate (pos_part mate.concurrency) selecting;
          ticking = true;
        })
    wait :
        (s : System J V)
        → s.main ≡ waiting
        → AllStopped s.workers
        → s.ticking ≡ false
        → Turn s (record s { main = draining })
    return :
        (s : System J V) (e : Error)
        → s.main ≡ draining
        → s.shared.cause ≡ some e
        → Turn s (record s {
          main = returned (report (some e));
          shared = record s.shared { closed = true };
        })

  -- A step of the scraper, or of what is around it.
  pub data Step : System J V → System J V → Type 0 where
    turn : {s t : System J V} → Turn s t → Step s t
    -- The context that the scraper was made with is cancelled.
    cancel : (s : System J V) (e : Error) → Step s (record s { shared = canceled_with e s.shared })
    -- A reader of the results returns, as a writer does after an error.
    leave :
        (s : System J V) (r : ℕ)
        → s.shared.readers ≡ suc r
        → Step s (record s { shared = record s.shared { readers = r } })

  -- Steps of the scraper alone.
  pub data Turns (s : System J V) : System J V → Type 0 where
    no_turn : Turns s s
    and_turn : {t u : System J V} → Turns s t → Turn t u → Turns s u

  pub data Steps (s : System J V) : System J V → Type 0 where
    stay : Steps s s
    go_on : {t u : System J V} → Steps s t → Step t u → Steps s u
