-- ===== src/Mate/Fetch/Rule.antt =====
-- A proof rule for the loop of doFetch: one premise for each call of a round.
use scrapemate.Prelude.{
  ℕ, zero, suc, ◌+◌, ◌≤◌, ◌<◌, ◌≡◌, ◌≢◌, refl, ℤ, pos, pos_part, ◌+ℤ◌, Bool, true, false, arith,
}
use scrapemate.Errors.{stopped_by_policy}
use scrapemate.Response.{Response}
use scrapemate.Mate.Env.{IJob, ScrapeMate}
use scrapemate.Mate.Exec.{State, Exec, first_cause}
use scrapemate.Mate.Triple.{Triple, Triple-bind, Triple-pure}
use scrapemate.Mate.Fetch.{
  Decision, accept, discard, stop, exhausted, again, decide, settle, get_max_retries, fetch,
  check_response, back_off, fetch_loop,
}

pub pos-suc : (n : ℕ) → pos n +ℤ pos 1 ≡ pos (suc n)
unfolding ◌+ℤ◌
pos-suc n = ground arith

-- The state after s.cancelFn.
abbrev pub halted : {W J V : Type 0} → State W J V → State W J V
halted s = record s { cause = first_cause s.cause stopped_by_policy }

module _ {W J V : Type 0} (ijob : IJob W J V) (mate : ScrapeMate W J V) (job : J) where
  -- `P` holds before a round, `F` after its fetch, `C` after its check; `R` and `T` are the
  -- postconditions.
  pub record Rule (P : ℕ → ℤ → State W J V → Type 0) (F : ℕ → ℤ → State W J V → Type 0)
      (C : ℕ → ℤ → Bool × Response V → State W J V → Type 0)
      (R : Bool × Response V → State W J V → Type 0) (T : State W J V → Type 0) : Type 0 where
    pub fetches : (r : ℕ) (d : ℤ) → Triple (P r d) (fetch ijob mate job) (λ _. F r d) T
    pub checks :
        (r : ℕ) (d : ℤ) (ans : Response V)
        → Triple (F r d) (check_response ijob mate job ans) (C r d) T
    pub finish :
        (r : ℕ) (d : ℤ) (v : Bool × Response V) (s : State W J V)
        → decide ijob mate job (pos r) v.0 ≢ again
        → decide ijob mate job (pos r) v.0 ≢ stop
        → C r d v s
        → R v s
    pub halt :
        (r : ℕ) (d : ℤ) (v : Bool × Response V) (s : State W J V)
        → decide ijob mate job (pos r) v.0 ≡ stop
        → C r d v s
        → R v (halted s)
    pub round :
        (r : ℕ) (d : ℤ) (v : Bool × Response V)
        → decide ijob mate job (pos r) v.0 ≡ again
        → Triple (C r d v) (back_off ijob mate job d) (P (suc r)) T

  -- getMaxRetries is five at most, and never more than the job asks for.
  pub get_max_retries-le :
      (pos_part (get_max_retries ijob mate job) ≤ 5)
      × (pos_part (get_max_retries ijob mate job) ≤ pos_part (ijob.get_max_retries job))
  unfolding get_max_retries
  get_max_retries-le = ground arith

  -- The decision shows the verdict, and that another round is within the bound.
  pub verdict_of :
      (r : ℕ) (ok : Bool)
      → (decide ijob mate job (pos r) ok ≡ accept → ok ≡ true)
        × (decide ijob mate job (pos r) ok ≢ accept → ok ≡ false)
  unfolding decide
  verdict_of r ok = ground arith

  pub again-lt :
      (r : ℕ) (ok : Bool)
      → decide ijob mate job (pos r) ok ≡ again
      → r < pos_part (get_max_retries ijob mate job)
  unfolding decide
  again-lt r ok e = ground arith

  module _ {P : ℕ → ℤ → State W J V → Type 0} {F : ℕ → ℤ → State W J V → Type 0}
      {C : ℕ → ℤ → Bool × Response V → State W J V → Type 0}
      {R : Bool × Response V → State W J V → Type 0} {T : State W J V → Type 0}
      (rule : Rule P F C R T) where
    settle_rule :
        (r : ℕ) (d : ℤ) (ok : Bool) (ans : Response V) (dec : Decision)
        (loop : ℤ → Exec (State W J V) (Bool × Response V))
        → decide ijob mate job (pos r) ok ≡ dec
        → (dec ≡ again → (d' : ℤ) → Triple (P (suc r) d') (loop d') R T)
        → Triple (C r d (ok, ans)) (settle ijob mate loop job d ans dec) R T
    unfolding settle
    settle_rule r d true ans accept loop e h =
        Triple-pure _ (λ s. rule.finish r d _ s (λ x. cc) (λ x. cc))
    settle_rule r d false ans accept loop e h = cc ((verdict_of r false).0 e)
    settle_rule r d false ans discard loop e h =
        Triple-pure _ (λ s. rule.finish r d _ s (λ x. cc) (λ x. cc))
    settle_rule r d false ans exhausted loop e h =
        Triple-pure _ (λ s. rule.finish r d _ s (λ x. cc) (λ x. cc))
    settle_rule r d false ans stop loop e h = record { at = λ s c. rule.halt r d _ s e c }
    settle_rule r d ok ans again loop e h = Triple-bind _ _ (rule.round r d _ e) (h refl)
    settle_rule r d true ans _ loop e h = cc ((verdict_of r true).1 (λ x. cc))

    pub fetch_loop_rule :
        (fuel r : ℕ) (d : ℤ)
        → pos_part (get_max_retries ijob mate job) < fuel + r
        → r ≤ pos_part (get_max_retries ijob mate job)
        → Triple (P r d) (fetch_loop ijob mate fuel job d (pos r)) R T
    unfolding fetch_loop
    fetch_loop_rule zero r d h l = absurd (omega arith)
    fetch_loop_rule (suc fuel) r d h l = Triple-bind _ _ (rule.fetches r d) λ resp.
        Triple-bind _ _ (rule.checks r d resp) λ v. settle_rule r d v.0 v.1 _ _ refl λ e d'.
          rw (pos-suc r)
            (fetch_loop_rule fuel (suc r) d' (omega arith) (omega (arith, again-lt r v.0 e)))
