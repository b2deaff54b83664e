-- ===== src/Mate/Fetch/Frame.antt =====
-- What doFetch leaves alone: a predicate that its events, the outside and a cancellation keep.
use scrapemate.Prelude.{Bool, ◌∷◌, ℤ, arith, pos, ◌*◌}
use scrapemate.Response.{Response}
use scrapemate.Mate.Env.{IJob, ScrapeMate}
use scrapemate.Mate.Exec.{fetched, checked, slept, State}
use scrapemate.Mate.Triple.{
  Triple, Triple-bind, Triple-pure, Triple-then, Triple-call, Triple-event,
}
use scrapemate.Mate.Fetch.{fetch, check_response, back_off, do_fetch, millisecond}
use scrapemate.Mate.Fetch.Rule.{Rule, fetch_loop_rule, halted, get_max_retries-le}

module _ {W J V : Type 0} where
  pub record Frame (P : State W J V → Type 0) : Type 0 where
    pub world : (s : State W J V) (w : W) → P s → P (record s { world = w })
    pub fetches : (s : State W J V) (j : J) → P s → P (record s { trace = fetched j ∷ s.trace })
    pub checks :
        (s : State W J V) (j : J) (b : Bool) (ans : Response V)
        → P s
        → P (record s { trace = checked j b ans ∷ s.trace })
    pub sleeps : (s : State W J V) (d : ℤ) → P s → P (record s { trace = slept d ∷ s.trace })
    pub halts : (s : State W J V) → P s → P (halted s)

module _ {W J V : Type 0} (ijob : IJob W J V) (mate : ScrapeMate W J V) (job : J)
    {P : State W J V → Type 0} (frame : Frame P) where
  fetch-frame : Triple P (fetch ijob mate job) (λ _. P) P
  unfolding fetch
  fetch-frame =
      Triple-bind _ _ (Triple-call _ (λ s w _. frame.world s w) frame.world) λ resp.
        Triple-then _ _ (Triple-event _ (λ s. frame.fetches s job)) (Triple-pure _ (λ s p. p))

  check-frame : (ans : Response V) → Triple P (check_response ijob mate job ans) (λ _. P) P
  unfolding check_response
  check-frame ans = Triple-bind _ _ (Triple-call _ (λ s w _. frame.world s w) frame.world) λ v.
      Triple-then _ _ (Triple-event _ (λ s. frame.checks s job v.0 v.1)) (Triple-pure _ (λ s p. p))

  back_off-frame : (d : ℤ) → Triple P (back_off ijob mate job d) (λ _. P) P
  unfolding back_off
  back_off-frame d = record { at = λ s p. ground (arith, frame.sleeps s d p) }

  pub do_fetch-frame : Triple P (do_fetch ijob mate job) (λ _. P) P
  unfolding do_fetch
  do_fetch-frame =
      Triple-bind _ _
        (fetch_loop_rule ijob mate job rule 6 0 (pos (100 * millisecond))
          (omega (arith, get_max_retries-le ijob mate job)) (omega arith))
        λ v. Triple-pure _ (λ s p. p)
    where
      rule : Rule ijob mate job (λ _ _. P) (λ _ _. P) (λ _ _ _. P) (λ _. P) P
      rule = record {
        fetches = λ r d. fetch-frame;
        checks = λ r d ans. check-frame ans;
        finish = λ r d v s _ _ p. p;
        halt = λ r d v s _ p. frame.halts s p;
        round = λ r d v e. back_off-frame d;
      }
