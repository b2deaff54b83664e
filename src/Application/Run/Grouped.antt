-- ===== src/Application/Run/Grouped.antt =====
-- The steps of an application's goroutines, and what its errgroup knows of them.
use scrapemate.Prelude.{
  ℕ, zero, suc, Bool, true, false, Option, none, some, List, [], ◌∷◌, ◌++◌, replicate, ◌≡◌, ◌≢◌,
  refl, ap, subst, arith,
}
use scrapemate.Errors.{Error}
use scrapemate.Mate.Env.{ScrapeMate, Processed}
use scrapemate.Mate.Start.{
  System, Main, starting, waiting, draining, returned, AllStopped, Turn, work, tick, stop_ticking,
  signal, init_fails, init_ends,
}
use scrapemate.Mate.Start as Start
use scrapemate.Application.Run.{
  Writer, reading, failing, finished, Seeder, pushing, seeded, Run, started, cancel_all,
  AllFinished, Step, scrape, interrupt, writer_fails, writer_returns, writer_ends, seed, seed_fails,
  seed_ends, scraper_fails, scraper_ends, wait, Steps, stay, go_on,
}
use scrapemate.Application.Run.Group.{
  is_open, is_failed, sum, is_seeding, is_collected, seeder_failed, scraper_failed, sum-at, Has,
  Has-here, Has-move, Origin, a_writer, the_seeder, the_scraper, IsGroup, IsGroup-progress,
  IsGroup-error, IsGroup-main,
}

AllFinished-open : (ws : List Writer) → AllFinished ws → sum is_open ws ≡ 0
AllFinished-open [] all = refl
AllFinished-open (w ∷ ws) ((o, h), all) = omega (arith, ap is_open h, AllFinished-open ws all)

module _ {W J V : Type 0} (mate : ScrapeMate W J V) (use_in_results : J → Bool)
    (does : J → Processed J V → Type 0) where
  abbrev pub Grouped : Run J V → Type 0
  Grouped r = IsGroup r.writers r.seeder r.first r.collected r.result r.mate.main

  cancel_all-Grouped :
      (c : Option Error) (e : Error) (r : Run J V) → Grouped r → Grouped (cancel_all c e r)
  unfolding cancel_all
  cancel_all-Grouped none e r h = h
  cancel_all-Grouped (some c) e r h = h

  Turn-returned :
      {s t : System J V} (x : Option Error)
      → Turn mate use_in_results does s t
      → s.main ≡ returned x
      → t.main ≡ returned x
  Turn-returned x (init_fails s e at) h = absurd (ground arith)
  Turn-returned x (init_ends s at) h = absurd (ground arith)
  Turn-returned x (Start.wait s at all quiet) h = absurd (ground arith)
  Turn-returned x (Start.return s e at gone) h = absurd (ground arith)
  Turn-returned x (work s before after at mv) h = h
  Turn-returned x (tick s now on idle) h = h
  Turn-returned x (stop_ticking s e on gone) h = h
  Turn-returned x (signal s) h = h

  -- A writer goes from `w`, with which it runs, to `v`; `Origin` stays.
  writer-Origin :
      (e : Error) (r : Run J V) (before after : List Writer) (w v : Writer)
      → r.writers ≡ before ++ (w ∷ after)
      → w ≢ finished (some e)
      → Origin e r.writers r.seeder r.collected r.mate.main
      → Origin e (before ++ (v ∷ after)) r.seeder r.collected r.mate.main
  writer-Origin e r before after w v at other (a_writer h) =
      a_writer (Has-move e before after w v other (subst (Has e) at h))
  writer-Origin e r before after w v at other (the_seeder h) = the_seeder h
  writer-Origin e r before after w v at other (the_scraper c m) = the_scraper c m

  seeder-Origin :
      (e : Error) (r : Run J V) (js : List J) (seeder : Seeder J)
      → r.seeder ≡ pushing js
      → Origin e r.writers r.seeder r.collected r.mate.main
      → Origin e r.writers seeder r.collected r.mate.main
  seeder-Origin e r js seeder at (a_writer h) = a_writer h
  seeder-Origin e r js seeder at (the_seeder h) = absurd (ground arith)
  seeder-Origin e r js seeder at (the_scraper c m) = the_scraper c m

  scraper-Origin :
      (e : Error) (r : Run J V)
      → r.collected ≡ false
      → Origin e r.writers r.seeder r.collected r.mate.main
      → Origin e r.writers r.seeder true r.mate.main
  scraper-Origin e r not_yet (a_writer h) = a_writer h
  scraper-Origin e r not_yet (the_seeder h) = the_seeder h
  scraper-Origin e r not_yet (the_scraper c m) = absurd (ground arith)

  Step-Grouped : {r t : Run J V} → Step mate use_in_results does r t → Grouped r → Grouped t
  Step-Grouped (scrape r own) h = IsGroup-main (λ x at. Turn-returned x own at) h
  Step-Grouped (interrupt r e) h = cancel_all-Grouped r.cause e r h
  Step-Grouped (writer_fails r before after e n at some_reader) h =
      let live = sum-at is_open r.writers before after reading at in
      let bad = sum-at is_failed r.writers before after reading at in
      let bad' = sum-at is_failed _ before after (failing e) refl in
      cancel_all-Grouped r.cause e _ (
        IsGroup-progress (omega (arith, live)) h.returns
          (λ x o.
            writer-Origin x r before after reading (failing e) at (λ q. absurd (ground arith)) o)
          (λ q. omega (arith, bad, bad', q)) h)
  Step-Grouped (writer_returns r before after e at) h =
      let live = sum-at is_open r.writers before after (failing e) at in
      cancel_all-Grouped r.cause e _ (
        IsGroup-error e (omega (arith, live)) h.returns
          (λ x o.
            writer-Origin x r before after (failing e) (finished (some e)) at
              (λ q. absurd (ground arith)) o)
          (a_writer (Has-here e before after)) h)
  Step-Grouped (writer_ends r before after n at some_reader closed) h =
      let live = sum-at is_open r.writers before after reading at in
      let bad = sum-at is_failed r.writers before after reading at in
      let bad' = sum-at is_failed _ before after (finished none) refl in
      IsGroup-progress (omega (arith, live)) h.returns
        (λ x o.
          writer-Origin x r before after reading (finished none) at (λ q. absurd (ground arith)) o)
        (λ q. omega (arith, bad, bad', q)) h
  Step-Grouped (seed r j js at) h =
      let busy = ap is_seeding at in
      let fine = ap seeder_failed at in
      IsGroup-progress (omega (arith, busy)) h.returns
        (λ x o. seeder-Origin x r (j ∷ js) (pushing js) at o) (λ q. omega (arith, fine, q)) h
  Step-Grouped (seed_fails r j js e at) h =
      let busy = ap is_seeding at in
      cancel_all-Grouped r.cause e _ (
        IsGroup-error e (omega (arith, busy)) h.returns
          (λ x o. seeder-Origin x r (j ∷ js) (seeded (some e)) at o) (the_seeder refl) h)
  Step-Grouped (seed_ends r at) h =
      let busy = ap is_seeding at in
      let fine = ap seeder_failed at in
      IsGroup-progress (omega (arith, busy)) h.returns
        (λ x o. seeder-Origin x r [] (seeded none) at o) (λ q. omega (arith, fine, q)) h
  Step-Grouped (scraper_fails r e not_yet at) h =
      let busy = ap is_collected not_yet in
      cancel_all-Grouped r.cause e _ (
        IsGroup-error e (omega (arith, busy)) (λ q. (some e, at))
          (λ x o. scraper-Origin x r not_yet o) (the_scraper refl at) h)
  Step-Grouped (scraper_ends r not_yet at) h =
      let busy = ap is_collected not_yet in
      let fine = ap (scraper_failed true) at in
      IsGroup-progress (omega (arith, busy)) (λ q. (none, at)) (λ x o. scraper-Origin x r not_yet o)
        (λ q. omega (arith, fine, q)) h
  Step-Grouped (wait r o not_yet all at over) h =
      let shut = AllFinished-open r.writers all in
      let done = ap is_seeding at in
      let gone = ap is_collected over in
      cancel_all-Grouped r.cause _ _ (record {
        over = λ x q. (omega (arith, shut, done, gone), ground arith);
        returns = h.returns;
        origin = h.origin;
        clean = h.clean;
      })

  pub Steps-Grouped :
      (writers : ℕ) (seeds : List J) {t : Run J V}
      → Steps mate use_in_results does (started writers seeds) t
      → Grouped t
  Steps-Grouped writers seeds stay = record {
    over = λ o q. absurd (ground arith);
    returns = λ q. absurd (ground arith);
    origin = λ e q. absurd (ground arith);
    clean = λ q. omega (arith, fine writers);
  }
    where
      fine : (n : ℕ) → sum is_failed (replicate n reading) ≡ 0
      fine zero = refl
      fine (suc n) = omega (arith, fine n)
  Steps-Grouped writers seeds (go_on steps step) =
      Step-Grouped step (Steps-Grouped writers seeds steps)
