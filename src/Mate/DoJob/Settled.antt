-- ===== src/Mate/DoJob/Settled.antt =====
-- DoJob always comes back, and its three results fit each other.
use scrapemate.Prelude.{ℕ, suc, ◌≤◌, ◌≡◌, ◌≢◌, none, List, [], ◌∷◌}
use scrapemate.Response.{Response}
use scrapemate.Mate.Env.{IJob, ScrapeMate, Processed}
use scrapemate.Mate.Exec.{Event, processed, State}
use scrapemate.Mate.Triple.{Triple}
use scrapemate.Mate.Fetch.Frame.{Frame}

-- How often a trace shows a job processed.
abbrev pub count_processed : {J V : Type 0} → List (Event J V) → ℕ
count_processed [] = 0
count_processed (processed j ∷ es) = suc (count_processed es)
count_processed (_ ∷ es) = count_processed es

module _ {W J V : Type 0} where
  abbrev pub WasProcessed : ℕ → State W J V → Type 0
  WasProcessed n s = count_processed s.trace ≡ n

  -- The results `p` after `n` earlier calls of Process: no error exactly after one more call,
  -- and with an error no result and no next jobs.
  pub record IsSettled (n : ℕ) (p : Processed J V) (s : State W J V) : Type 0 where
    pub once : p.err ≡ none → WasProcessed (suc n) s
    pub at_most_once : count_processed s.trace ≤ suc n
    pub no_result : p.err ≢ none → (p.result ≡ none) × (p.next ≡ [])

  pub processed_frame : (n : ℕ) → Frame (WasProcessed n)
  processed_frame n = record {
    world = λ s w p. p;
    fetches = λ s j p. p;
    checks = λ s j b ans p. p;
    sleeps = λ s d p. p;
    halts = λ s p. p;
  }

module _ {W J V : Type 0} (ijob : IJob W J V) (mate : ScrapeMate W J V) (job : J) (n : ℕ) where
  abbrev Before : State W J V → Type 0
  Before = WasProcessed n

  -- After a panic Process may have run, or not.
  abbrev Broken : State W J V → Type 0
  Broken s = count_processed s.trace ≤ suc n
