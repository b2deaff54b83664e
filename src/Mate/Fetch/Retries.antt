-- ===== src/Mate/Fetch/Retries.antt =====
-- How often doFetch fetches, and what its answer carries.
use scrapemate.Prelude.{
  ℕ, suc, ◌+◌, ◌≤◌, ◌<◌, ◌≡◌, ◌≢◌, pos, pos_part, Bool, true, false, Option, none, some, List, [],
  ◌∷◌, arith, refl, eqb_ℤ, ◌∙◌, if◌then◌else◌,
}
use scrapemate.Errors.{Error, status_code, stopped_by_policy}
use scrapemate.Response.{Response}
use scrapemate.Mate.Env.{IJob, ScrapeMate}
use scrapemate.Mate.Exec.{Event, fetched, checked, State, first_cause}
use scrapemate.Mate.Triple.{Triple, Triple-bind, Triple-pure}
use scrapemate.Mate.Fetch.{
  again, stop, decide, get_max_retries, fetch, check_response, back_off, with_error, do_fetch,
  stop_scraping,
}
use scrapemate.Mate.Fetch.Rule.{Rule, fetch_loop_rule, again-lt, get_max_retries-le}

-- The fetches in a trace.
abbrev pub count_fetched : {J V : Type 0} → List (Event J V) → ℕ
count_fetched [] = 0
count_fetched (fetched j ∷ es) = suc (count_fetched es)
count_fetched (_ ∷ es) = count_fetched es

-- The verdict that a trace ends with, and the answer that it is about, as the check left it.
abbrev pub last_verdict : {J V : Type 0} → List (Event J V) → Option (Bool × Response V)
last_verdict (checked j b ans ∷ es) = some (b, ans)
last_verdict _ = none

module _ {W J V : Type 0} where
  abbrev pub Fetched : ℕ → State W J V → Type 0
  Fetched n s = count_fetched s.trace ≡ n

  abbrev pub AtMost : ℕ → State W J V → Type 0
  AtMost k s = count_fetched s.trace ≤ k

  -- More than `low` fetches, and at most `high`.
  abbrev pub Within : ℕ → ℕ → State W J V → Type 0
  Within low high s = (low < count_fetched s.trace) × (count_fetched s.trace ≤ high)

  -- The trace ends with the verdict `b` about `ans`.
  abbrev pub Judged : Bool → Response V → State W J V → Type 0
  Judged b ans s = last_verdict s.trace ≡ some (b, ans)

module _ {W J V : Type 0} (ijob : IJob W J V) (mate : ScrapeMate W J V) (job : J) where
  fetches_rule :
      (n : ℕ)
      → Rule ijob mate job
          (λ r d s. Fetched (n + r) s × (r ≤ pos_part (get_max_retries ijob mate job)))
          (λ r d s. Fetched (suc (n + r)) s × (r ≤ pos_part (get_max_retries ijob mate job)))
          (λ r d v s. Fetched (suc (n + r)) s × (r ≤ pos_part (get_max_retries ijob mate job)))
          (λ _. Within n (n + pos_part (get_max_retries ijob mate job) + 1))
          (AtMost (n + pos_part (get_max_retries ijob mate job) + 1))
  fetches_rule n = record {
    fetches = λ r d. record { at = λ s p. unfold fetch in ground arith };
    checks = λ r d ans. record { at = λ s p. unfold check_response in ground arith };
    finish = λ r d v s _ _ p. omega arith;
    halt = λ r d v s _ p. omega arith;
    round = λ r d v e. record {
      at = λ s p. unfold back_off in ground (arith, again-lt ijob mate job r v.0 e);
    };
  }

  -- From `n` fetches, doFetch ends: its loop does not run out of rounds. When it returns it has
  -- fetched at least once more, and at most once and then once for each retry that getMaxRetries
  -- grants; it has not fetched more than that either when the fetcher or the check panics.
  pub do_fetch-fetches :
      (n : ℕ)
      → Triple
          (Fetched n)
          (do_fetch ijob mate job)
          (λ _. Within n (n + pos_part (get_max_retries ijob mate job) + 1))
          (AtMost (n + pos_part (get_max_retries ijob mate job) + 1))
  unfolding do_fetch
  do_fetch-fetches n =
      Triple-bind _ _
        (record {
          at = λ s p.
              (fetch_loop_rule ijob mate job (fetches_rule n) 6 0 _
                  (omega (arith, get_max_retries-le ijob mate job)) (omega arith)).at
                s (omega arith, omega arith);
        })
        λ v. Triple-pure _ (λ s p. p)

  with_error-ne_none : (v : Bool × Response V) → v.0 ≡ false → (with_error ijob mate v).error ≢ none
  unfolding with_error
  with_error-ne_none (true, ans) h e = cc
  with_error-ne_none (false, ans) h e = ground arith

  with_error-same : (v : Bool × Response V) → v.0 ≡ true → with_error ijob mate v ≡ v.1
  unfolding with_error
  with_error-same (true, ans) h = refl
  with_error-same (false, ans) h = cc

  -- with_error on a rejected answer, from its error.
  marked : Response V → Option Error → Response V
  marked ans e = elim e [
    | none ↦ record ans { error = some (status_code ans.status_code) }
    | some x ↦ ans
  ]

  marked-rest :
      (ans : Response V) (e : Option Error) → record (marked ans e) { error = ans.error } ≡ ans
  unfolding marked
  marked-rest ans none = refl
  marked-rest ans (some x) = refl

  marked-kept : (ans : Response V) (e : Option Error) → e ≢ none → marked ans e ≡ ans
  unfolding marked
  marked-kept ans none h = absurd (h refl)
  marked-kept ans (some x) h = refl

  with_error-rest :
      (v : Bool × Response V) → record (with_error ijob mate v) { error = v.1.error } ≡ v.1
  unfolding with_error marked
  with_error-rest (true, ans) = refl
  with_error-rest (false, ans) = marked-rest ans ans.error

  with_error-kept : (v : Bool × Response V) → v.1.error ≢ none → with_error ijob mate v ≡ v.1
  unfolding with_error marked
  with_error-kept (true, ans) h = refl
  with_error-kept (false, ans) h = marked-kept ans ans.error h

  -- The cause of the context after a verdict, from the cause `c` before the fetch.
  abbrev cause_after : Option Error → Bool → Option Error
  cause_after c ok =
      if ok
      then c
      else if eqb_ℤ (ijob.get_retry_policy job) stop_scraping
      then first_cause c stopped_by_policy
      else c

  finish_cause :
      (c : Option Error) (r : ℕ) (ok : Bool)
      → decide ijob mate job (pos r) ok ≢ again
      → decide ijob mate job (pos r) ok ≢ stop
      → c ≡ cause_after c ok
  unfolding decide
  finish_cause c r ok h k = ground arith

  halt_cause :
      (c : Option Error) (r : ℕ) (ok : Bool)
      → decide ijob mate job (pos r) ok ≡ stop
      → first_cause c stopped_by_policy ≡ cause_after c ok
  unfolding decide
  halt_cause c r ok h = ground arith

  verdict_rule :
      (c : Option Error)
      → Rule ijob mate job
          (λ r d s. s.cause ≡ c)
          (λ r d s. s.cause ≡ c)
          (λ r d v s. Judged v.0 v.1 s × (s.cause ≡ c))
          (λ v s. Judged v.0 v.1 s × (s.cause ≡ cause_after c v.0))
          (λ s. s.cause ≡ c)
  verdict_rule c = record {
    fetches = λ r d. record { at = λ s p. unfold fetch in ground arith };
    checks = λ r d ans. record { at = λ s p. unfold check_response in ground arith };
    finish = λ r d v s h k p. (p.0, p.1 ∙ finish_cause c r v.0 h k);
    halt = λ r d v s h p. (p.0, rw p.1 (halt_cause c r v.0 h));
    round = λ r d v e. record { at = λ s p. unfold back_off in ground arith };
  }

  -- What doFetch hands back: the answer `last` of its last check itself, if the check accepted it; and if not, one
  -- with an error, which is that of `last` if there is one, and otherwise as `last` is; and how the context stands.
  pub record Answered (c : Option Error) (ans : Response V) (s : State W J V) : Type 0 where
    pub accepted : Bool
    pub last : Response V
    pub judged : Judged accepted last s
    pub accepted_same : accepted ≡ true → ans ≡ last
    pub rejected_error : accepted ≡ false → ans.error ≢ none
    pub rejected_same : accepted ≡ false → record ans { error = last.error } ≡ last
    pub error_kept : last.error ≢ none → ans ≡ last
    pub cause : s.cause ≡ cause_after c accepted

  -- doFetch returns exactly the answer that its last check accepted or, if that check rejected it, that answer
  -- with an error, its own if it has one: a rejected answer never passes for a good one. The context is cancelled exactly if the answer
  -- was rejected under the policy StopScraping, and an earlier cause is kept.
  pub do_fetch-Answered :
      (c : Option Error)
      → Triple (λ s. s.cause ≡ c) (do_fetch ijob mate job) (Answered c) (λ s. s.cause ≡ c)
  unfolding do_fetch
  do_fetch-Answered c =
      Triple-bind _ _
        (fetch_loop_rule ijob mate job (verdict_rule c) 6 0 _
          (omega (arith, get_max_retries-le ijob mate job)) (omega arith))
        λ v. Triple-pure _ (λ s p. record {
          accepted = v.0;
          last = v.1;
          judged = p.0;
          accepted_same = with_error-same v;
          rejected_error = with_error-ne_none v;
          rejected_same = λ _. with_error-rest v;
          error_kept = with_error-kept v;
          cause = p.1;
        })
