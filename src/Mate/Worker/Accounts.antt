-- ===== src/Mate/Worker/Accounts.antt =====
-- What a worker leaves in the counters, for each way in which a job ends.
use scrapemate.Prelude.{ℕ, suc, ◌≡◌, Option, none, some, List, [], ◌∷◌, if◌then◌else◌}
use scrapemate.Errors.{Error}
use scrapemate.Mate.Env.{IJob, ScrapeMate, Runtime, Processed}
use scrapemate.Mate.Exec.{Event, delivered, pushed, State, Exec, ◌>>=◌, ◌>>◌, pure}
use scrapemate.Mate.Triple.{Triple}
use scrapemate.Mate.DoJob.Frame.{JobFrame}
use scrapemate.Mate.Worker.{push_to_failed_jobs, finish_job}

-- The results that a trace delivers.
abbrev pub count_delivered : {J V : Type 0} → List (Event J V) → ℕ
count_delivered [] = 0
count_delivered (delivered j ans ∷ es) = suc (count_delivered es)
count_delivered (_ ∷ es) = count_delivered es

-- The pushes in a trace that failed.
abbrev pub count_refused : {J V : Type 0} → List (Event J V) → ℕ
count_refused [] = 0
count_refused (pushed j none ∷ es) = count_refused es
count_refused (pushed j (some e) ∷ es) = suc (count_refused es)
count_refused (_ ∷ es) = count_refused es

module _ {W J V : Type 0} where
  -- `c` jobs completed, `f` failed, `d` results delivered.
  abbrev pub Account : ℕ → ℕ → ℕ → State W J V → Type 0
  Account c f d s =
      (s.stats.num_of_jobs_completed ≡ c)
      × (s.stats.num_of_jobs_failed ≡ f)
      × (count_delivered s.trace ≡ d)

  pub Account-frame : (c f d : ℕ) → JobFrame (Account c f d)
  Account-frame c f d = record {
    fetching = record {
      world = λ s w p. p;
      fetches = λ s j p. p;
      checks = λ s j b ans p. p;
      sleeps = λ s x p. p;
      halts = λ s p. p;
    };
    stores = λ s key resp e p. p;
    response = record { world = λ s w p. p; processes = λ s j p. p };
  }

  -- The account, with `q` pushes that failed.
  abbrev pub Ledger : ℕ → ℕ → ℕ → ℕ → State W J V → Type 0
  Ledger c f d q s = Account c f d s × (count_refused s.trace ≡ q)

module _ {W J V : Type 0} (ijob : IJob W J V) (mate : ScrapeMate W J V) (runtime : Runtime W J)
    (c f d q : ℕ) where
  -- With the job counted as completed, a push that panics leaves this.
  abbrev Counted : State W J V → Type 0
  Counted s = Account (suc c) f d s

  -- The pushes that failed, after one whose error is `err`.
  abbrev refused : Option Error → ℕ
  refused none = q
  refused (some e) = suc q

  -- The results delivered for a job that ends well.
  abbrev pub with_result : J → ℕ
  with_result j = if ijob.use_in_results j then suc d else d

  -- After finishJob: counted as completed; delivered unless a push failed.
  abbrev Finished : J → Option Error → State W J V → Type 0
  Finished j none s = Ledger (suc c) f (with_result j) q s
  Finished j (some e) s = Ledger (suc c) f d (suc q) s

  -- How the counters stand after a job of which DoJob returned `p`. Without an error of DoJob it is finished, and its
  -- result delivered if it is used, when no push of a next job failed, and counted both as completed and as
  -- failed, with nothing delivered, when one did; with an error of DoJob it has failed, and nothing was pushed in vain.
  pub data Ending (j : J) (p : Processed J V) (s : State W J V) : Type 0 where
    finished : p.err ≡ none → Ledger (suc c) f (with_result j) q s → Ending j p s
    failed : (e : Error) → p.err ≡ some e → Ledger c (suc f) d q s → Ending j p s
    counted_twice : p.err ≡ none → Ledger (suc c) (suc f) d (suc q) s → Ending j p s

  -- handle_job after DoJob.
  abbrev rest_of : J → Processed J V → Exec (State W J V) (Unit {0})
  rest_of j p = elim p.err [
    | none ↦ (do
      err ← finish_job ijob mate runtime j p.result p.next
      elim err [ none ↦ pure tt | some e ↦ push_to_failed_jobs ijob mate runtime j ])
    | some e ↦ push_to_failed_jobs ijob mate runtime j
  ]
