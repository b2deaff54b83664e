-- ===== src/Application/Run/Endings.antt =====
-- When Start of an application returns, and when it never does.
use scrapemate.Prelude.{
  ℕ, suc, ◌-◌, ◌<◌, Bool, true, false, Option, none, some, List, [], ◌∷◌, ◌++◌, append_assoc,
  append-nil, ◌≡◌, ◌≢◌, refl, sym, ap, ◌∙◌, subst, arith,
}
use scrapemate.Errors.{Error}
use scrapemate.Mate.Env.{ScrapeMate, Processed}
use scrapemate.Mate.Monitor.{report}
use scrapemate.Mate.Start.{System, waiting, returned, Turns, no_turn, and_turn}
use scrapemate.Mate.Start.Closing.{SoundAt, Steps-Sound}
use scrapemate.Mate.Start.Ending.{Turns-HasReturned}
use scrapemate.Mate.Start.Deadlock.{IsStuck, Steps-ne-returned}
use scrapemate.Application.Run.{
  Writer, reading, failing, finished, Seeder, pushing, seeded, Run, started, cancel_all,
  AllFinished, Step, scrape, writer_returns, writer_ends, seed, seed_ends, scraper_fails,
  scraper_ends, wait, Steps, stay, go_on,
}
use scrapemate.Application.Run.Projection.{
  count_reading, count_reading-append, AreReaders, Steps-Scrapes, Steps-AreReaders, started-Scrapes,
}
use scrapemate.Application.Run.Group.{collected-true, IsGroup-waiting}
use scrapemate.Application.Run.Grouped.{Steps-Grouped}

module _ {J V : Type 0} where
  -- What a cancel leaves as it is.
  record Same (r t : Run J V) : Type 0 where
    writers : t.writers ≡ r.writers
    seeder : t.seeder ≡ r.seeder
    collected : t.collected ≡ r.collected
    result : t.result ≡ r.result
    main : t.mate.main ≡ r.mate.main
    closed : t.mate.shared.closed ≡ r.mate.shared.closed
    readers : t.mate.shared.readers ≡ r.mate.shared.readers

  cancel_all-Same : (c : Option Error) (e : Error) (r : Run J V) → Same r (cancel_all c e r)
  unfolding cancel_all
  cancel_all-Same none e r = record {
    writers = refl;
    seeder = refl;
    collected = refl;
    result = refl;
    main = refl;
    closed = refl;
    readers = refl;
  }
  cancel_all-Same (some c) e r = record {
    writers = refl;
    seeder = refl;
    collected = refl;
    result = refl;
    main = refl;
    closed = refl;
    readers = refl;
  }

module _ {W J V : Type 0} (mate : ScrapeMate W J V) (use_in_results : J → Bool)
    (does : J → Processed J V → Type 0) where
  abbrev Runs : Run J V → Run J V → Type 0
  Runs = Steps mate use_in_results does

  Runs-append : {r s t : Run J V} → Runs r s → Runs s t → Runs r t
  Runs-append steps stay = steps
  Runs-append steps (go_on more step) = go_on (Runs-append steps more) step

  -- If all writers have left while a worker of the scraper has a result to send, Start of the application never returns,
  -- whatever its goroutines do and even if its context ends.
  pub started-ne-result :
      (writers : ℕ) (seeds : List J) {r t : Run J V} (o : Option Error)
      → Steps mate use_in_results does (started writers seeds) r
      → IsStuck r.mate
      → Steps mate use_in_results does r t
      → t.result ≢ some o
  started-ne-result writers seeds {r} {t} o before stuck steps h =
      let g = Steps-Grouped mate use_in_results does writers seeds (Runs-append before steps) in
      let (x, at) = g.returns (collected-true t.collected (omega (arith, (g.over o h).0))) in
      Steps-ne-returned mate use_in_results does x stuck
        (Steps-Scrapes mate use_in_results does steps) at

  -- The scraper's own steps, in the application.
  lift :
      (r : Run J V) {s : System J V}
      → Turns mate use_in_results does r.mate s
      → Runs r (record r { mate = s })
  lift r no_turn = stay
  lift r (and_turn turns own) = go_on (lift r turns) (scrape _ own)

  push_all :
      (r : Run J V) (js : List J)
      → r.seeder ≡ pushing js
      → Runs r (record r { seeder = seeded none })
  push_all r [] at = go_on stay (seed_ends r at)
  push_all r (j ∷ js) at =
      Runs-append (go_on stay (seed r j js at))
        (push_all (record r { seeder = pushing js }) js refl)

  seed_all :
      (r : Run J V) (s : Seeder J)
      → r.seeder ≡ s
      → (x : Option Error) × Runs r (record r { seeder = seeded x })
  seed_all r (pushing js) at = (none, push_all r js at)
  seed_all r (seeded x) at = (x, subst (λ z. Runs r (record r { seeder = z })) at stay)

  -- The scraper has returned and the seeding has ended; the writers are `ws`.
  record At (r₀ : Run J V) (ws : List Writer) (collected : Bool) : Type 0 where
    now : Run J V
    steps : Runs r₀ now
    writers : now.writers ≡ ws
    seeder : (x : Option Error) × (now.seeder ≡ seeded x)
    scraper : now.collected ≡ collected
    main : (x : Option Error) × (now.mate.main ≡ returned x)
    closed : now.mate.shared.closed ≡ true
    result : now.result ≡ none
    readers : AreReaders mate use_in_results does now

  -- A step to a state that is `s`, but for a cancel.
  At-cancel :
      {r₀ : Run J V} {collected : Bool} (ws : List Writer) (r s : Run J V) (e : Error)
      → Runs r₀ r
      → Step mate use_in_results does r (cancel_all s.cause e s)
      → s.writers ≡ ws
      → (x : Option Error) × (s.seeder ≡ seeded x)
      → s.collected ≡ collected
      → (x : Option Error) × (s.mate.main ≡ returned x)
      → s.mate.shared.closed ≡ true
      → s.result ≡ none
      → AreReaders mate use_in_results does r
      → At r₀ ws collected
  At-cancel ws r s e steps step at (x, seeder) over (y, main) closed result readers =
      let k = cancel_all-Same s.cause e s in
      record {
        now = cancel_all s.cause e s;
        steps = go_on steps step;
        writers = k.writers ∙ at;
        seeder = (x, k.seeder ∙ seeder);
        scraper = k.collected ∙ over;
        main = (y, k.main ∙ main);
        closed = k.closed ∙ closed;
        result = k.result ∙ result;
        readers = Steps-AreReaders mate use_in_results does (go_on stay step) readers;
      }

  collect : (r₀ : Run J V) (ws : List Writer) → At r₀ ws false → At r₀ ws true
  collect r₀ ws a = go a.main.0 a.main.1
    where
      go : (x : Option Error) → a.now.mate.main ≡ returned x → At r₀ ws true
      go none at = record {
        now = record a.now { collected = true };
        steps = go_on a.steps (scraper_ends a.now a.scraper at);
        writers = a.writers;
        seeder = a.seeder;
        scraper = refl;
        main = a.main;
        closed = a.closed;
        result = a.result;
        readers = a.readers;
      }
      go (some e) at =
          At-cancel ws a.now _ e a.steps (scraper_fails a.now e a.scraper at) a.writers a.seeder
            refl a.main a.closed a.result a.readers

  -- The first of the writers `after` ends.
  end_one :
      (r₀ : Run J V) (before : List Writer) (w : Writer) (after : List Writer)
      → At r₀ (before ++ (w ∷ after)) true
      → (o : Option Error) × At r₀ (before ++ (finished o ∷ after)) true
  end_one r₀ before (finished o) after a = (o, a)
  end_one r₀ before (failing e) after a = (
    some e,
    At-cancel (before ++ (finished (some e) ∷ after)) a.now _ e a.steps
        (writer_returns a.now before after e a.writers) refl a.seeder a.scraper a.main a.closed
        a.result a.readers,
  )
  end_one r₀ before reading after a =
      let n = a.now.mate.shared.readers - 1 in
      let read : a.now.mate.shared.readers ≡ suc n = omega (
        arith,
        a.readers,
        ap count_reading a.writers,
        count_reading-append before (reading ∷ after),
      ) in
      let step = writer_ends a.now before after n a.writers read a.closed in
      (
        none,
        record {
          now = _;
          steps = go_on a.steps step;
          writers = refl;
          seeder = a.seeder;
          scraper = a.scraper;
          main = a.main;
          closed = a.closed;
          result = a.result;
          readers = Steps-AreReaders mate use_in_results does (go_on stay step) a.readers;
        },
      )

  AllFinished-snoc :
      (ws : List Writer) (o : Option Error) → AllFinished ws → AllFinished (ws ++ (finished o ∷ []))
  AllFinished-snoc [] o all = ((o, refl), tt)
  AllFinished-snoc (w ∷ ws) o (h, all) = (h, AllFinished-snoc ws o all)

  end_all :
      (r₀ : Run J V) (before after : List Writer)
      → AllFinished before
      → At r₀ (before ++ after) true
      → (ws : List Writer) × AllFinished ws × At r₀ ws true
  end_all r₀ before [] all a = (before ++ [], subst AllFinished (sym (append-nil before)) all, a)
  end_all r₀ before (w ∷ after) all a =
      let (o, one) = end_one r₀ before w after a in
      end_all r₀ (before ++ (finished o ∷ [])) after (AllFinished-snoc before o all)
        (subst (λ ws. At r₀ ws true) (sym (append_assoc before (finished o ∷ []) after)) one)

  end_wait :
      (r₀ : Run J V) (ws : List Writer)
      → AllFinished ws
      → At r₀ ws true
      → (t : Run J V) × (o : Option Error) × Runs r₀ t × (t.result ≡ some o)
  end_wait r₀ ws all a =
      let (x, at) = a.seeder in
      let step = wait a.now x a.result (subst AllFinished (sym a.writers) all) at a.scraper in
      (
        _,
        a.now.first,
        go_on a.steps step,
        (cancel_all-Same _ _ (record a.now { result = some a.now.first })).result,
      )

  -- If DoJob gives something for each job, then from every state of an application in which its scraper waits for
  -- its goroutines, the scraper's context is done and a writer still reads, there are steps after which Start has returned.
  pub started-returns :
      ((j : J) → (p : Processed J V) × does j p)
      → (writers : ℕ) (seeds : List J) {r : Run J V} (e : Error)
      → Steps mate use_in_results does (started writers seeds) r
      → r.mate.main ≡ waiting
      → r.mate.shared.cause ≡ some e
      → 0 < count_reading r.writers
      → (t : Run J V) × (o : Option Error) × Steps mate use_in_results does r t
        × (t.result ≡ some o)
  started-returns does_total writers seeds {r} e steps at gone some_writer =
      let (scrapes, readers) = started-Scrapes mate use_in_results does writers seeds steps in
      let g = Steps-Grouped mate use_in_results does writers seeds steps in
      let early_on = IsGroup-waiting r.collected r.result at g in
      let n = r.mate.shared.readers - 1 in
      let read : r.mate.shared.readers ≡ suc n = omega (arith, readers, some_writer) in
      let sound = Steps-Sound mate use_in_results does scrapes (refl, refl, refl) in
      let unclosed =
        subst (SoundAt r.mate.shared.cause r.mate.workers r.mate.ticking r.mate.shared.closed) at
          sound in
      let end =
        Turns-HasReturned mate use_in_results does does_total r.mate e n at
          (record { gone = gone; unclosed = unclosed; read = read }) in
      let (x, seeds_end) = seed_all (record r { mate = end.last }) r.seeder refl in
      let early : At r r.writers false = record {
        now = record r { mate = end.last; seeder = seeded x };
        steps = Runs-append (lift r end.turns) seeds_end;
        writers = refl;
        seeder = (x, refl);
        scraper = early_on.0;
        main = (report (some e), end.result);
        closed = end.closed;
        result = early_on.1;
        readers = end.read ∙ sym read ∙ readers;
      } in
      let (ws, all, late) = end_all r [] r.writers tt (collect r r.writers early) in
      end_wait r ws all late
