-- ===== src/Mate/Start/Ending.antt =====
-- Start can always come to its end once the context is done.
use scrapemate.Prelude.{
  ℕ, suc, ◌≡◌, refl, sym, ◌∙◌, subst, List, [], ◌∷◌, ◌++◌, append_assoc, append-nil, Option, some,
  Bool, true, false, Bool-cases, Option-cases, inl, inr,
}
use scrapemate.Errors.{Error}
use scrapemate.Mate.Env.{ScrapeMate, Processed}
use scrapemate.Mate.Monitor.{report}
use scrapemate.Mate.Start.{
  Pc, selecting, pausing, stopped, working, finishing, pushing, sending, failing, offering, Shared,
  waiting, draining, returned, System, AllStopped, Move, stop, resume, fails, succeeds, count,
  push_one, pushed_all, unused, send, offer, drop, offered, work, stop_ticking, wait, return, Turns,
  no_turn, and_turn,
}

-- The context is done, and somebody reads the results.
pub record IsEnding (e : Error) (r : ℕ) (m : Shared) : Type 0 where
  pub gone : m.cause ≡ some e
  pub unclosed : m.closed ≡ false
  pub read : m.readers ≡ suc r

module _ {W J V : Type 0} (mate : ScrapeMate W J V) (use_in_results : J → Bool)
    (does : J → Processed J V → Type 0) where
  module _ (e : Error) (r : ℕ) (s : System J V) (before after : List (Pc J V))
      (ticking : Bool) where
    -- Start waits, and one worker stands at `p`.
    abbrev with_worker : Shared → Pc J V → System J V
    with_worker m p = record {
      shared = m;
      workers = before ++ (p ∷ after);
      ticking = ticking;
      main = waiting;
    }

    record Stops : Type 0 where
      last : Shared
      steps : Turns mate use_in_results does s (with_worker last stopped)
      ending : IsEnding e r last

    -- From a state with the worker at `p`.
    abbrev From : Shared → Pc J V → Type 0
    From m p = Turns mate use_in_results does s (with_worker m p) → IsEnding e r m → Stops

    moved :
        {m m₁ : Shared} {p p₁ : Pc J V}
        → Move mate use_in_results does m p m₁ p₁
        → Turns mate use_in_results does s (with_worker m p)
        → Turns mate use_in_results does s (with_worker m₁ p₁)
    moved {m} {m₁} {p} mv steps = and_turn steps (work (with_worker m p) before after refl mv)

    counted :
        (m m₁ : Shared)
        → m₁.cause ≡ m.cause
        → m₁.closed ≡ m.closed
        → m₁.readers ≡ m.readers
        → IsEnding e r m
        → IsEnding e r m₁
    counted m m₁ a b c h = record {
      gone = a ∙ h.gone;
      unclosed = b ∙ h.unclosed;
      read = c ∙ h.read;
    }

    From-selecting : (m : Shared) → From m selecting
    From-selecting m steps h = record { last = m; steps = moved (stop h.gone) steps; ending = h }

    From-failing : (m : Shared) (j : J) → From m (failing j)
    From-failing m j steps h = elim (Bool-cases mate.failed_jobs) [
      | inl on ↦
          From-selecting _ (moved offered (moved (offer 0 on) steps)) (counted m _ refl refl refl h)
      | inr off ↦ From-selecting _ (moved (drop 0 off) steps) (counted m _ refl refl refl h)
    ]

    From-sending : (m : Shared) (j : J) (ans : Option V) → From m (sending j ans)
    From-sending m j ans steps h =
        From-selecting _ (moved (send h.unclosed h.read) steps) (counted m _ refl refl refl h)

    From-pushing :
        (m : Shared) (j : J) (ans : Option V) (next : List J) → From m (pushing j ans next)
    From-pushing m j ans (k ∷ next) steps h = From-pushing m j ans next (moved push_one steps) h
    From-pushing m j ans [] steps h = elim (Bool-cases (use_in_results j)) [
      | inl used ↦ From-sending m j ans (moved (pushed_all used) steps) h
      | inr not_used ↦
          From-selecting _ (moved (unused not_used) steps) (counted m _ refl refl refl h)
    ]

    From-finishing :
        (m : Shared) (j : J) (ans : Option V) (next : List J) → From m (finishing j ans next)
    From-finishing m j ans next steps h =
        From-pushing _ j ans next (moved (count 0) steps) (counted m _ refl refl refl h)

    -- DoJob gives something for each job.
    stops : ((j : J) → (p : Processed J V) × does j p) → (m : Shared) (p : Pc J V) → From m p
    stops does_total m selecting steps h = From-selecting m steps h
    stops does_total m pausing steps h = From-selecting m (moved resume steps) h
    stops does_total m stopped steps h = record { last = m; steps = steps; ending = h }
    stops does_total m (working j) steps h =
        let (p, did) = does_total j in
        elim (Option-cases p.err) [
          | inl fine ↦ From-finishing m j p.result p.next (moved (succeeds did fine) steps) h
          | inr (x, bad) ↦ From-failing m j (moved (fails did bad) steps) h
        ]
    stops does_total m (finishing j ans next) steps h = From-finishing m j ans next steps h
    stops does_total m (pushing j ans next) steps h = From-pushing m j ans next steps h
    stops does_total m (sending j ans) steps h = From-sending m j ans steps h
    stops does_total m (failing j) steps h = From-failing m j steps h
    stops does_total m (offering j) steps h = From-selecting m (moved offered steps) h

  AllStopped-snoc : (ws : List (Pc J V)) → AllStopped ws → AllStopped (ws ++ (stopped ∷ []))
  AllStopped-snoc [] all = (refl, tt)
  AllStopped-snoc (w ∷ ws) (h, all) = (h, AllStopped-snoc ws all)

  -- All workers are at their end.
  record AllStop (e : Error) (r : ℕ) (s : System J V) (ticking : Bool) : Type 0 where
    last : Shared
    workers : List (Pc J V)
    all : AllStopped workers
    steps :
        Turns mate use_in_results does s
          (record { shared = last; workers = workers; ticking = ticking; main = waiting })
    ending : IsEnding e r last

  stop_all :
      (does_total : (j : J) → (p : Processed J V) × does j p) (e : Error) (r : ℕ) (s : System J V)
      (ticking : Bool) (before after : List (Pc J V)) (m : Shared)
      → AllStopped before
      → Turns mate use_in_results does s
          (record { shared = m; workers = before ++ after; ticking = ticking; main = waiting })
      → IsEnding e r m
      → AllStop e r s ticking
  stop_all does_total e r s ticking before [] m all steps h = record {
    last = m;
    workers = before ++ [];
    all = subst AllStopped (sym (append-nil before)) all;
    steps = steps;
    ending = h;
  }
  stop_all does_total e r s ticking before (p ∷ after) m all steps h =
      let one = stops e r s before after ticking does_total m p steps h in
      stop_all does_total e r s ticking (before ++ (stopped ∷ [])) after one.last
        (AllStopped-snoc before all)
        (subst
          (λ ws.
            Turns mate use_in_results does s
              (record { shared = one.last; workers = ws; ticking = ticking; main = waiting }))
          (sym (append_assoc before (stopped ∷ []) after)) one.steps)
        one.ending

  -- A state with Start returned, and the steps to it.
  pub record HasReturned (e : Error) (r : ℕ) (s : System J V) : Type 0 where
    pub last : System J V
    pub turns : Turns mate use_in_results does s last
    pub result : last.main ≡ returned (report (some e))
    pub gone : last.shared.cause ≡ some e
    pub closed : last.shared.closed ≡ true
    pub read : last.shared.readers ≡ suc r

  -- After the last worker and the ticker, Start returns.
  return_quiet : (e : Error) (r : ℕ) (s : System J V) → AllStop e r s false → HasReturned e r s
  return_quiet e r s a =
      let quiet : System J V = record {
        shared = a.last;
        workers = a.workers;
        ticking = false;
        main = waiting;
      } in
      let done : System J V = record quiet { main = draining } in
      record {
        last = _;
        turns =
            and_turn (and_turn a.steps (wait quiet refl a.all refl))
              (return done e refl a.ending.gone);
        result = refl;
        gone = a.ending.gone;
        closed = refl;
        read = a.ending.read;
      }

  return_after :
      (e : Error) (r : ℕ) (s : System J V) (ticking : Bool)
      → AllStop e r s ticking
      → HasReturned e r s
  return_after e r s false a = return_quiet e r s a
  return_after e r s true a =
      let on : System J V = record {
        shared = a.last;
        workers = a.workers;
        ticking = true;
        main = waiting;
      } in
      return_quiet e r s (record {
        last = a.last;
        workers = a.workers;
        all = a.all;
        steps = and_turn a.steps (stop_ticking on e refl a.ending.gone);
        ending = a.ending;
      })

  -- If DoJob gives something for each job, then from every state in which Start waits for its goroutines and
  -- the context is done, wherever its workers stand, there are steps of these goroutines alone after which
  -- Start has returned, with what Err makes of the cause, as long as somebody reads the results.
  pub Turns-HasReturned :
      ((j : J) → (p : Processed J V) × does j p)
      → (s : System J V) (e : Error) (r : ℕ) → s.main ≡ waiting
      → IsEnding e r s.shared
      → HasReturned e r s
  Turns-HasReturned does_total s e r at h = return_after e r s s.ticking (
      stop_all does_total e r s s.ticking [] s.workers s.shared tt
        (subst (λ main. Turns mate use_in_results does s (record s { main = main })) at no_turn) h)
