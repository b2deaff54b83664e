-- ===== src/Mate/Fetch/Pauses.antt =====
-- The pauses of doFetch between its retries: their bound, their schedule, and the cap that job.go
-- documents for them (`MaxRetryDelay`).
use scrapemate.Prelude.{
  ℕ, zero, suc, ◌*◌, ◌≤◌, ◌≡◌, ◌≢◌, refl, ℤ, pos, pos_part, ◌*ℤ◌, ◌≤ℤ◌, ltb_ℤ, Bool, false, List,
  [], ◌∷◌, ◌++◌, arith, if◌then◌else◌, append-nil, subst, sym, ◌∙◌, ◌↔◌,
}
use scrapemate.Response.{Response}
use scrapemate.Mate.Env.{IJob, ScrapeMate, replies}
use scrapemate.Mate.Exec.{Event, slept, State, returns}
use scrapemate.Mate.Triple.{Triple, Triple-bind, Triple-pure, Ends-returns}
use scrapemate.Mate.Fetch.{
  again, decide, get_max_retries, fetch, check_response, back_off, do_fetch, millisecond, retry_job,
}
use scrapemate.Mate.Fetch.Rule.{Rule, fetch_loop_rule, again-lt, get_max_retries-le}

-- The pauses in a trace, newest first.
abbrev pub pauses : {J V : Type 0} → List (Event J V) → List ℤ
pauses [] = []
pauses (slept d ∷ es) = d ∷ pauses es
pauses (_ ∷ es) = pauses es

-- No pause of the trace is longer than `b`.
abbrev pub PausesUpTo : ℤ → List ℤ → Type 0
PausesUpTo b [] = Unit
PausesUpTo b (d ∷ ds) = (d ≤ℤ b) × PausesUpTo b ds

module _ {W J V : Type 0} (ijob : IJob W J V) (mate : ScrapeMate W J V) (job : J) where
  abbrev pub Bounded : ℤ → State W J V → Type 0
  Bounded b s = PausesUpTo b (pauses s.trace)

  Bounded-rule :
      (b : ℤ)
      → pos (100 * millisecond) ≤ℤ b
      → ijob.get_max_retry_delay job *ℤ pos 2 ≤ℤ b
      → Rule ijob mate job
          (λ r d s. Bounded b s × (d ≤ℤ b))
          (λ r d s. Bounded b s × (d ≤ℤ b))
          (λ r d v s. Bounded b s × (d ≤ℤ b))
          (λ _. Bounded b)
          (Bounded b)
  unfolding ◌*ℤ◌
  Bounded-rule b first twice = record {
    fetches = λ r d. record { at = λ s p. unfold fetch in ground arith };
    checks = λ r d ans. record { at = λ s p. unfold check_response in ground arith };
    finish = λ r d v s _ _ p. p.0;
    halt = λ r d v s _ p. p.0;
    round = λ r d v e. record { at = λ s p. unfold back_off in ground arith };
  }

  -- No pause is longer than a tenth of a second or twice the job's MaxRetryDelay, whichever is
  -- longer.
  do_fetch-pauses_le :
      (b : ℤ)
      → pos (100 * millisecond) ≤ℤ b
      → ijob.get_max_retry_delay job *ℤ pos 2 ≤ℤ b
      → Triple (Bounded b) (do_fetch ijob mate job) (λ _. Bounded b) (Bounded b)
  unfolding do_fetch
  do_fetch-pauses_le b first twice =
      Triple-bind _ _
        (record {
          at = λ s p.
              (fetch_loop_rule ijob mate job (Bounded-rule b first twice) 6 0 _
                  (omega (arith, get_max_retries-le ijob mate job)) (omega arith)).at
                s (p, first);
        })
        λ v. Triple-pure _ (λ s p. p)

  -- The job is under RetryJob; its fetches come back, and every answer is rejected.
  pub record Rejecting : Type 0 where
    pub policy : ijob.get_retry_policy job ≡ retry_job
    pub fetch_replies :
        (w : W)
        → (resp : Response V) × (w' : W) × (mate.http_fetcher.fetch job w ≡ (replies resp, w'))
    pub check_rejects :
        (ans : Response V) (w : W)
        → (ans' : Response V) × (w' : W) × (ijob.do_check_response job ans w
            ≡ (replies (false, ans'), w'))

  -- The pause before retry `i + 1` doubles while it is within MaxRetryDelay, and then falls back
  -- to it.
  pub pause : ℕ → ℤ
  pause zero = pos (100 * millisecond)
  pause (suc i) =
      if ltb_ℤ (ijob.get_max_retry_delay job) (pause i)
      then ijob.get_max_retry_delay job
      else pause i *ℤ pos 2

  -- The first `n` of them, the last first.
  abbrev pub first_pauses : ℕ → List ℤ
  first_pauses zero = []
  first_pauses (suc n) = pause n ∷ first_pauses n

  abbrev pub Paused : List ℤ → ℕ → State W J V → Type 0
  Paused before n s = pauses s.trace ≡ first_pauses n ++ before

  last_round :
      (rej : Rejecting) (r : ℕ) (ok : Bool)
      → r ≤ pos_part (get_max_retries ijob mate job)
      → ok ≡ false
      → decide ijob mate job (pos r) ok ≢ again
      → r ≡ pos_part (get_max_retries ijob mate job)
  unfolding decide
  last_round rej r ok l f h = ground (arith, rej.policy)

  back_off-retry :
      (rej : Rejecting) (d : ℤ) (s : State W J V)
      → back_off ijob mate job d s ≡ (
        returns (
            if ltb_ℤ (ijob.get_max_retry_delay job) d
            then ijob.get_max_retry_delay job
            else d *ℤ pos 2),
        record s { trace = slept d ∷ s.trace },
      )
  unfolding back_off
  back_off-retry rej d s = rw rej.policy

  schedule_rule :
      (before : List ℤ)
      → Rejecting
      → Rule ijob mate job
          (λ r d s.
            Paused before r s × (d ≡ pause r) × (r ≤ pos_part (get_max_retries ijob mate job)))
          (λ r d s.
            Paused before r s × (d ≡ pause r) × (r ≤ pos_part (get_max_retries ijob mate job)))
          (λ r d v s.
            Paused before r s
            × (d ≡ pause r)
            × (r ≤ pos_part (get_max_retries ijob mate job))
            × (v.0 ≡ false))
          (λ v. Paused before (pos_part (get_max_retries ijob mate job)))
          (λ s. ⊥)
  schedule_rule before rej = record {
    fetches =
        λ r d. record { at = λ s p. unfold fetch in ground (arith, rej.fetch_replies s.world) };
    checks = λ r d ans. record {
      at = λ s p. unfold check_response in ground (arith, rej.check_rejects ans s.world);
    };
    finish = λ r d v s h k p. subst (λ n. Paused before n s) (last_round rej r v.0 p.2 p.3 h) p.0;
    halt = λ r d v s e p. absurd (unfold decide in ground (arith, rej.policy));
    round = λ r d v e. record {
      at = λ s p.
          rw (back_off-retry rej d s)
            (cc (p.0, p.1), unfold pause in rw p.1, omega (arith, again-lt ijob mate job r v.0 e));
    };
  }

  -- When every answer is rejected under RetryJob, doFetch returns after every retry that
  -- getMaxRetries grants, and has made exactly the pauses of the schedule, in order.
  pub do_fetch-schedule :
      (before : List ℤ)
      → Rejecting
      → Triple
          (λ s. pauses s.trace ≡ before)
          (do_fetch ijob mate job)
          (λ _. Paused before (pos_part (get_max_retries ijob mate job)))
          (λ s. ⊥)
  unfolding do_fetch
  do_fetch-schedule before rej =
      Triple-bind _ _
        (record {
          at = λ s p.
              (fetch_loop_rule ijob mate job (schedule_rule before rej) 6 0
                  (pos (100 * millisecond)) (omega (arith, get_max_retries-le ijob mate job))
                  (omega arith)).at
                s (p, unfold pause in refl, omega arith);
        })
        λ v. Triple-pure _ (λ s p. p)

  -- The longest of five pauses, for a MaxRetryDelay of `k` nanoseconds.
  cap_cases :
      (k : ℕ)
      → ijob.get_max_retry_delay job ≡ pos k
      → PausesUpTo (pos k) (first_pauses 5) ↔ (1600 * millisecond ≤ k)
  unfolding pause ◌*ℤ◌
  cap_cases k e = rw e (λ h. ground arith, λ h. ground arith)

  -- MaxRetryDelay caps the pauses only if it is 1.6 seconds or more: with five retries, all of
  -- them needed, every pause is within a MaxRetryDelay of `k` nanoseconds exactly if `k` is at
  -- least 1.6e9. (The comment in job.go says that a longer pause is capped to MaxRetryDelay.)
  do_fetch-cap :
      (k : ℕ) (s : State W J V)
      → Rejecting
      → get_max_retries ijob mate job ≡ pos 5
      → ijob.get_max_retry_delay job ≡ pos k
      → pauses s.trace ≡ []
      → PausesUpTo (pos k) (pauses (do_fetch ijob mate job s).1.trace) ↔ (1600 * millisecond ≤ k)
  do_fetch-cap k s rej five e clean =
      subst (λ ds. PausesUpTo (pos k) ds ↔ (1600 * millisecond ≤ k)) (sym made) (cap_cases k e)
    where
      made : pauses (do_fetch ijob mate job s).1.trace ≡ first_pauses 5
      made =
          Ends-returns (Paused [] (pos_part (get_max_retries ijob mate job))) _ _
            ((do_fetch-schedule [] rej).at s clean)
          ∙ rw five (append-nil _)
