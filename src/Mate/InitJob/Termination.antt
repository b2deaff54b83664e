-- ===== src/Mate/InitJob/Termination.antt =====
-- processInitJob ends if the jobs that follow a job are smaller than it, and leaves no trace in
-- the results or the counters.
use scrapemate.Prelude.{
  String, ℕ, zero, suc, ◌+◌, ◌≤◌, ◌<◌, ◌≡◌, Option, none, some, List, [], ◌∷◌, ◌++◌, arith,
}
use scrapemate.Errors.{Error}
use scrapemate.Response.{Response}
use scrapemate.Mate.Env.{IJob, ScrapeMate, Processed, replies}
use scrapemate.Mate.Exec.{State, Exec, pure}
use scrapemate.Mate.Triple.{Triple, Triple-bind, Triple-pure, Triple-if, Triple-option, Triple-both}
use scrapemate.Mate.DoJob.{do_job}
use scrapemate.Mate.DoJob.Frame.{attempt-frame}
use scrapemate.Mate.DoJob.Results.{attempt-result}
use scrapemate.Mate.DoJob.Named.{do_job-Triple_named}
use scrapemate.Mate.Worker.Accounts.{Account, Account-frame}
use scrapemate.Mate.InitJob.{is_active, init_loop, process_init_job}

-- The sum of the weights of jobs.
abbrev pub total : {J : Type 0} → (J → ℕ) → List J → ℕ
total weight [] = 0
total weight (j ∷ js) = weight j + total weight js

total-append :
    {J : Type 0} (weight : J → ℕ) (xs ys : List J)
    → total weight (xs ++ ys) ≡ total weight xs + total weight ys
total-append weight [] ys = omega arith
total-append weight (x ∷ xs) ys = omega (arith, total-append weight xs ys)

-- GetID of a job does not panic, and Process gives next jobs that weigh less, together, than its job.
pub record Shrinks {W J V : Type 0} (ijob : IJob W J V) (weight : J → ℕ) : Type 0 where
  pub named : (j : J) → (id : String) × (ijob.get_id j ≡ replies id)
  pub positive : (j : J) → 0 < weight j
  pub smaller :
      (j : J) (resp : Response V) (w w' : W) (p : Processed J V)
      → ijob.process j resp w ≡ (replies p, w')
      → total weight p.next < weight j

module _ {W J V : Type 0} (ijob : IJob W J V) (mate : ScrapeMate W J V) (weight : J → ℕ)
    (shrinks : Shrinks ijob weight) (c f d : ℕ) where
  abbrev Same : State W J V → Type 0
  Same = Account c f d

  do_job-Same :
      (j : J)
      → Triple
          (λ s. Same s × Unit {0})
          (do_job ijob mate j)
          (λ p s. Same s × (total weight p.next < weight j))
          (λ _. ⊥)
  do_job-Same j =
      let (id, named) = shrinks.named j in
      do_job-Triple_named ijob mate j
        (Triple-both _ (attempt-frame ijob mate j (Account-frame c f d)) (
          attempt-result ijob mate j (λ p. total weight p.next < weight j) (λ e. shrinks.positive j)
            (shrinks.smaller j)))
        id named

  is_active-Same : Triple Same (is_active ijob mate) (λ _. Same) (λ _. ⊥)
  unfolding is_active
  is_active-Same = record { at = λ s p. p }

  -- The rest of a round, after DoJob.
  rest-Same :
      (loop : Exec (State W J V) (Option Error)) (j : J) (p : Processed J V)
      → (total weight p.next < weight j → Triple Same loop (λ _. Same) (λ _. ⊥))
      → Triple
          (λ s. Same s × (total weight p.next < weight j))
          (elim p.err [ none ↦ loop | some e ↦ pure (some e) ])
          (λ _. Same)
          (λ _. ⊥)
  rest-Same loop j p h =
      Triple-option p.err _ _ (λ _. record { at = λ s q. (h q.1).at s q.0 })
        (λ e _. Triple-pure _ (λ s q. q.0))

  init_loop-Same :
      (fuel : ℕ) (stack : List J)
      → total weight stack ≤ fuel
      → Triple Same (init_loop ijob mate fuel stack) (λ _. Same) (λ _. ⊥)
  unfolding init_loop
  init_loop-Same fuel [] h = Triple-pure _ (λ s p. p)
  init_loop-Same zero (j ∷ stack) h = absurd (omega (arith, shrinks.positive j))
  init_loop-Same (suc fuel) (j ∷ stack) h = Triple-bind _ _ is_active-Same λ active.
      Triple-if active _ _
        (λ _.
          Triple-bind (do_job ijob mate j) _ (record { at = λ s p. (do_job-Same j).at s (p, tt) })
            λ p. rest-Same _ j p λ less.
              init_loop-Same fuel (stack ++ p.next)
                (omega (arith, total-append weight stack p.next)))
        (λ _. Triple-pure _ (λ s p. p))

  -- If GetID of no job panics and each call of Process gives next jobs that weigh less than its job, processInitJob
  -- ends: with as many rounds as the init job weighs, the loop does not run out of
  -- them, and it does not panic. The results of the init jobs are discarded: whatever they
  -- return, nothing is delivered and no counter moves.
  pub process_init_job-ends :
      (fuel : ℕ)
      → ((j : J) → mate.init_job ≡ some j → weight j ≤ fuel)
      → Triple Same (process_init_job ijob mate fuel) (λ _. Same) (λ _. ⊥)
  unfolding process_init_job
  process_init_job-ends fuel enough =
      Triple-option mate.init_job _ _ (λ _. Triple-pure _ (λ s p. p))
        (λ j e. init_loop-Same fuel (j ∷ []) (omega (arith, enough j e)))
