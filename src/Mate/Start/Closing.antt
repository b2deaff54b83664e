-- ===== src/Mate/Start/Closing.antt =====
-- When the channel of the results is closed, and what Start returns.
use scrapemate.Prelude.{
  ℕ, Bool, true, false, Option, some, List, [], ◌∷◌, ◌++◌, ◌≡◌, ◌≢◌, refl, sym, ap, ◌∙◌, subst,
  arith,
}
use scrapemate.Errors.{Error}
use scrapemate.Mate.Env.{ScrapeMate, Processed}
use scrapemate.Mate.Exec.{first_cause}
use scrapemate.Mate.Monitor.{report}
use scrapemate.Mate.Start.{
  Pc, stopped, Shared, Main, starting, waiting, draining, returned, System, fresh, AllStopped, Move,
  stop, Step, turn, work, tick, stop_ticking, signal, cancel, leave, init_fails, init_ends, wait,
  return, Steps, stay, go_on,
}
use scrapemate.Mate.Start.Sums.{AllStopped-at}

-- What Start returns: Err, after the end of the context; or the error of processInitJob, before
-- any worker was started.
pub data IsReported {J V : Type 0} (cause : Option Error) (workers : List (Pc J V))
    (r : Option Error) : Type 0 where
  after_end : (e : Error) → cause ≡ some e → r ≡ report (some e) → IsReported cause workers r
  in_init : (e : Error) → workers ≡ [] → r ≡ some e → IsReported cause workers r

module _ {J V : Type 0} where
  -- For each place of Start: the workers, the ticker and the channel.
  abbrev pub SoundAt : Option Error → List (Pc J V) → Bool → Bool → Main → Type 0
  SoundAt cause workers ticking closed starting =
      (workers ≡ []) × (ticking ≡ false) × (closed ≡ false)
  SoundAt cause workers ticking closed waiting = closed ≡ false
  SoundAt cause workers ticking closed draining =
      AllStopped workers × (ticking ≡ false) × (closed ≡ false)
  SoundAt cause workers ticking closed (returned r) =
      AllStopped workers × (ticking ≡ false) × (closed ≡ true) × IsReported cause workers r

  abbrev pub Sound : System J V → Type 0
  Sound s = SoundAt s.shared.cause s.workers s.ticking s.shared.closed s.main

  -- A cause stays.
  IsReported-later :
      (cause : Option Error) (e : Error) (workers : List (Pc J V)) (r : Option Error)
      → IsReported cause workers r
      → IsReported (first_cause cause e) workers r
  IsReported-later cause e workers r (after_end x h k) = after_end x (ap (λ c. first_cause c e) h) k
  IsReported-later cause e workers r (in_init x h k) = in_init x h k

  Sound-cancel :
      (cause : Option Error) (e : Error) (workers : List (Pc J V)) (ticking closed : Bool)
      (main : Main)
      → SoundAt cause workers ticking closed main
      → SoundAt (first_cause cause e) workers ticking closed main
  Sound-cancel cause e workers ticking closed starting h = h
  Sound-cancel cause e workers ticking closed waiting h = h
  Sound-cancel cause e workers ticking closed draining h = h
  Sound-cancel cause e workers ticking closed (returned r) (a, t, c, i) =
      (a, t, c, IsReported-later cause e workers r i)

  Sound-silent :
      (cause : Option Error) (workers : List (Pc J V)) (ticking closed : Bool) (main : Main)
      → SoundAt cause workers ticking closed main
      → SoundAt cause workers false closed main
  Sound-silent cause workers ticking closed starting h = ground arith
  Sound-silent cause workers ticking closed waiting h = h
  Sound-silent cause workers ticking closed draining h = ground arith
  Sound-silent cause workers ticking closed (returned r) (a, t, c, i) = (a, refl, c, i)

  not_in_nil : (before after : List (Pc J V)) (p : Pc J V) → [] ≢ before ++ (p ∷ after)
  not_in_nil [] after p h = ground arith
  not_in_nil (b ∷ before) after p h = ground arith

  SoundAt-channel :
      (main : Main) (cause : Option Error) (workers : List (Pc J V)) (ticking closed : Bool)
      (before after : List (Pc J V)) (p : Pc J V)
      → SoundAt cause workers ticking closed main
      → workers ≡ before ++ (p ∷ after)
      → p ≢ stopped
      → closed ≡ false
  SoundAt-channel starting cause workers ticking closed before after p (_, _, c) at live = c
  SoundAt-channel waiting cause workers ticking closed before after p c at live = c
  SoundAt-channel draining cause workers ticking closed before after p (_, _, c) at live = c
  SoundAt-channel (returned r) cause workers ticking closed before after p (all, _, _, _) at live =
      absurd (live (AllStopped-at before after p (subst AllStopped at all)))

  SoundAt-ticker :
      (main : Main) (cause : Option Error) (workers : List (Pc J V)) (ticking closed : Bool)
      → SoundAt cause workers ticking closed main
      → ticking ≡ true
      → closed ≡ false
  SoundAt-ticker starting cause workers ticking closed (_, _, c) on = c
  SoundAt-ticker waiting cause workers ticking closed c on = c
  SoundAt-ticker draining cause workers ticking closed (_, _, c) on = c
  SoundAt-ticker (returned r) cause workers ticking closed (_, quiet, _, _) on =
      absurd (ground arith)

module _ {W J V : Type 0} (mate : ScrapeMate W J V) (use_in_results : J → Bool)
    (does : J → Processed J V → Type 0) where
  Move-closed :
      {m m' : Shared} {p p' : Pc J V}
      → Move mate use_in_results does m p m' p'
      → (m'.closed ≡ m.closed) × (p ≢ stopped)
  Move-closed (stop gone) = ground arith
  Move-closed mv = ground arith

  -- A worker moves only while Start waits for it.
  Sound-work :
      (main : Main) (cause cause' : Option Error) (ticking closed closed' : Bool)
      (before after : List (Pc J V)) (p p' : Pc J V)
      → closed' ≡ closed
      → p ≢ stopped
      → SoundAt cause (before ++ (p ∷ after)) ticking closed main
      → SoundAt cause' (before ++ (p' ∷ after)) ticking closed' main
  Sound-work starting cause cause' ticking closed closed' before after p p' c live (h, _, _) =
      absurd (not_in_nil before after p (sym h))
  Sound-work waiting cause cause' ticking closed closed' before after p p' c live h = c ∙ h
  Sound-work draining cause cause' ticking closed closed' before after p p' c live (a, _, _) =
      absurd (live (AllStopped-at before after p a))
  Sound-work (returned r) cause cause' ticking closed closed' before after p p' c live
        (a, _, _, _) =
      absurd (live (AllStopped-at before after p a))

  Step-Sound : {s t : System J V} → Step mate use_in_results does s t → Sound s → Sound t
  Step-Sound {s} (turn (work _ before after {p} {p'} {m'} at mv)) h =
      let (closed, live) = Move-closed mv in
      Sound-work s.main s.shared.cause m'.cause s.ticking s.shared.closed m'.closed before after p
        p' closed live
        (subst (λ ws. SoundAt s.shared.cause ws s.ticking s.shared.closed s.main) at h)
  Step-Sound {s} (turn (tick _ now on idle)) h =
      Sound-silent _ s.workers s.ticking s.shared.closed s.main
        (Sound-cancel s.shared.cause _ s.workers s.ticking s.shared.closed s.main h)
  Step-Sound {s} (turn (stop_ticking _ e on gone)) h =
      Sound-silent s.shared.cause s.workers s.ticking s.shared.closed s.main h
  Step-Sound {s} (turn (signal _)) h =
      Sound-cancel s.shared.cause _ s.workers s.ticking s.shared.closed s.main h
  Step-Sound {s} (cancel _ e) h =
      Sound-cancel s.shared.cause e s.workers s.ticking s.shared.closed s.main h
  Step-Sound (leave _ r some_reader) h = h
  Step-Sound {s} (turn (init_fails _ e at)) h =
      let (none_yet, quiet, _) =
        subst (SoundAt s.shared.cause s.workers s.ticking s.shared.closed) at h in
      (subst AllStopped (sym none_yet) tt, quiet, refl, in_init e none_yet refl)
  Step-Sound {s} (turn (init_ends _ at)) h =
      let (_, _, closed) =
        subst (SoundAt s.shared.cause s.workers s.ticking s.shared.closed) at h in
      closed
  Step-Sound {s} (turn (wait _ at all quiet)) h =
      (all, quiet, subst (SoundAt s.shared.cause s.workers s.ticking s.shared.closed) at h)
  Step-Sound {s} (turn (return _ e at gone)) h =
      let (all, quiet, _) =
        subst (SoundAt s.shared.cause s.workers s.ticking s.shared.closed) at h in
      (all, quiet, refl, after_end e gone refl)

  pub Steps-Sound : {s t : System J V} → Steps mate use_in_results does s t → Sound s → Sound t
  Steps-Sound stay h = h
  Steps-Sound (go_on steps step) h = Step-Sound step (Steps-Sound steps h)

  -- What holds of a scraper at any time.
  pub record IsClosedLast (s : System J V) : Type 0 where
    pub channel :
        (before after : List (Pc J V)) (p : Pc J V)
        → s.workers ≡ before ++ (p ∷ after)
        → p ≢ stopped
        → s.shared.closed ≡ false
    pub ticker : s.ticking ≡ true → s.shared.closed ≡ false
    pub result :
        (r : Option Error)
        → s.main ≡ returned r
        → AllStopped s.workers × (s.shared.closed ≡ true) × IsReported s.shared.cause s.workers r

  Sound-IsClosedLast : (s : System J V) → Sound s → IsClosedLast s
  Sound-IsClosedLast s h = record {
    channel = λ before after p at live.
        SoundAt-channel s.main s.shared.cause s.workers s.ticking s.shared.closed before after p h
          at live;
    ticker = λ on. SoundAt-ticker s.main s.shared.cause s.workers s.ticking s.shared.closed h on;
    result = λ r at.
        let (all, _, closed, reported) =
          subst (SoundAt s.shared.cause s.workers s.ticking s.shared.closed) at h in
        (all, closed, reported);
  }

  -- However the goroutines of a scraper take their steps: as long as a worker or the ticker runs, the channel
  -- of the results is open, so that no worker sends on a closed channel; and when Start has returned,
  -- every worker has stopped, the channel is closed, and Start's result is what Err makes of the first
  -- cause of the context's end, or the error of the init job if no worker was started.
  pub Steps-IsClosedLast :
      {s : System J V} (readers : ℕ)
      → Steps mate use_in_results does (fresh readers) s
      → IsClosedLast s
  Steps-IsClosedLast {s} readers steps = Sound-IsClosedLast s (Steps-Sound steps (refl, refl, refl))
