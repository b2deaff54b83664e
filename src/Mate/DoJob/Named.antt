-- ===== src/Mate/DoJob/Named.antt =====
-- DoJob of a job with and without an ID.
use scrapemate.Prelude.{String, ◌≡◌, refl}
use scrapemate.Mate.Env.{IJob, ScrapeMate, Processed, Reply, replies, throws}
use scrapemate.Mate.Exec.{State, Exec, panics}
use scrapemate.Mate.Triple.{Triple, Triple-weaken}
use scrapemate.Mate.DoJob.{attempt, do_job}

module _ {W J V : Type 0} (ijob : IJob W J V) (mate : ScrapeMate W J V) (job : J)
    {P : State W J V → Type 0} {R : Processed J V → State W J V → Type 0}
    (h : Triple P (attempt ijob mate job) R (λ _. ⊥)) where
  -- DoJob panics at most when GetID does, and has done nothing then.
  pub do_job-Triple : Triple P (do_job ijob mate job) R (λ s. P s × (ijob.get_id job ≡ throws))
  unfolding do_job
  do_job-Triple = go (ijob.get_id job) refl
    where
      go :
          (r : Reply String)
          → ijob.get_id job ≡ r
          → Triple P
              (elim r as (λ _. Exec (State W J V) (Processed J V)) [
                | throws ↦ (λ s. (panics, s))
                | replies id ↦ attempt ijob mate job
              ])
              R
              (λ s. P s × (ijob.get_id job ≡ throws))
      go throws e = record { at = λ s p. (p, e) }
      go (replies id) e = Triple-weaken _ h (λ _ s q. q) (λ s x. absurd x)

  pub do_job-Triple_named :
      (id : String) → ijob.get_id job ≡ replies id → Triple P (do_job ijob mate job) R (λ _. ⊥)
  unfolding do_job
  do_job-Triple_named id e = rw (do_job, e) h
