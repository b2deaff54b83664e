-- ===== src/Mate/InitJob.antt =====
-- processInitJob of scrapemate.go. `stack` is a queue: the next jobs go to its end.
pub mod Termination
use scrapemate.Prelude.{
  ℕ, zero, suc, Bool, Option, none, some, List, [], ◌∷◌, ◌++◌, if◌then◌else◌, is_none,
}
use scrapemate.Errors.{Error}
use scrapemate.Mate.Env.{IJob, ScrapeMate, Processed}
use scrapemate.Mate.Exec.{State, Exec, ◌>>=◌, pure, diverge}
use scrapemate.Mate.DoJob.{do_job}

module _ {W J V : Type 0} (ijob : IJob W J V) (mate : ScrapeMate W J V) where
  -- `case <-ctx.Done()`
  pub is_active : Exec (State W J V) Bool
  is_active s = pure (is_none s.cause) s

  -- The loop, with fuel for its rounds: `none` is a nil error.
  pub init_loop : ℕ → List J → Exec (State W J V) (Option Error)
  init_loop fuel [] = pure none
  init_loop zero (job ∷ stack) = diverge
  init_loop (suc fuel) (job ∷ stack) = do
    active ← is_active
    if active
        then (do
          p ← do_job ijob mate job
          elim p.err [ none ↦ init_loop fuel (stack ++ p.next) | some e ↦ pure (some e) ])
        else pure none

  pub process_init_job : ℕ → Exec (State W J V) (Option Error)
  process_init_job fuel = elim mate.init_job [
    | none ↦ pure none
    | some job ↦ init_loop fuel (job ∷ [])
  ]
