-- ===== src/Application/Run/Projection.antt =====
-- The scraper of an application that runs, as a scraper of Mate.Start.
use scrapemate.Prelude.{
  ℕ, zero, suc, ◌+◌, Bool, Option, none, some, List, [], ◌∷◌, ◌++◌, replicate, ◌≡◌, refl, sym, ap,
  ◌∙◌, arith,
}
use scrapemate.Errors.{Error}
use scrapemate.Mate.Env.{ScrapeMate, Processed}
use scrapemate.Mate.Start.{Pc, Shared, System, fresh, Move, Turn, work, turn, leave}
use scrapemate.Mate.Start as Start
use scrapemate.Application.Run.{
  Writer, reading, failing, finished, Run, started, cancel_all, with_readers, Step, scrape,
  interrupt, writer_fails, writer_returns, writer_ends, seed, seed_fails, seed_ends, scraper_fails,
  scraper_ends, wait, Steps, stay, go_on,
}

abbrev pub is_reading : Writer → ℕ
is_reading reading = 1
is_reading _ = 0

-- The writers that still read.
abbrev pub count_reading : List Writer → ℕ
count_reading [] = 0
count_reading (w ∷ ws) = is_reading w + count_reading ws

pub count_reading-append :
    (ws vs : List Writer) → count_reading (ws ++ vs) ≡ count_reading ws + count_reading vs
count_reading-append [] vs = omega arith
count_reading-append (w ∷ ws) vs = omega (arith, count_reading-append ws vs)

-- One writer goes from `w` to `v`.
count_reading-move :
    (ws before after : List Writer) (w v : Writer)
    → ws ≡ before ++ (w ∷ after)
    → count_reading (before ++ (v ∷ after)) + is_reading w ≡ count_reading ws + is_reading v
count_reading-move ws before after w v h = omega (
  arith,
  ap count_reading h,
  count_reading-append before (w ∷ after),
  count_reading-append before (v ∷ after),
)

count_reading-replicate : (n : ℕ) → count_reading (replicate n reading) ≡ n
count_reading-replicate zero = refl
count_reading-replicate (suc n) = omega (arith, count_reading-replicate n)

module _ {W J V : Type 0} (mate : ScrapeMate W J V) (use_in_results : J → Bool)
    (does : J → Processed J V → Type 0) where
  abbrev Scrapes : System J V → System J V → Type 0
  Scrapes = Start.Steps mate use_in_results does

  Scrapes-append : {s t u : System J V} → Scrapes s t → Scrapes t u → Scrapes s u
  Scrapes-append steps Start.stay = steps
  Scrapes-append steps (Start.go_on more step) = Start.go_on (Scrapes-append steps more) step

  cancel_all-Scrapes :
      (c : Option Error) (e : Error) (r : Run J V) → Scrapes r.mate (cancel_all c e r).mate
  unfolding cancel_all
  cancel_all-Scrapes none e r = Start.go_on Start.stay (Start.cancel r.mate e)
  cancel_all-Scrapes (some c) e r = Start.stay

  pub Step-Scrapes : {r t : Run J V} → Step mate use_in_results does r t → Scrapes r.mate t.mate
  Step-Scrapes (scrape r own) = Start.go_on Start.stay (turn own)
  Step-Scrapes (interrupt r e) = cancel_all-Scrapes r.cause e r
  Step-Scrapes (writer_fails r before after e n at some_reader) =
      Scrapes-append (Start.go_on Start.stay (leave r.mate n some_reader)) (
        cancel_all-Scrapes r.cause e
          (record r { writers = before ++ (failing e ∷ after); mate = with_readers n r.mate }))
  Step-Scrapes (writer_returns r before after e at) = cancel_all-Scrapes r.cause e _
  Step-Scrapes (writer_ends r before after n at some_reader closed) =
      Start.go_on Start.stay (leave r.mate n some_reader)
  Step-Scrapes (seed r j js at) = Start.stay
  Step-Scrapes (seed_fails r j js e at) = cancel_all-Scrapes r.cause e _
  Step-Scrapes (seed_ends r at) = Start.stay
  Step-Scrapes (scraper_fails r e not_yet at) = cancel_all-Scrapes r.cause e _
  Step-Scrapes (scraper_ends r not_yet at) = Start.stay
  Step-Scrapes (wait r o not_yet all at over) = cancel_all-Scrapes r.cause _ _

  Move-readers :
      {m m' : Shared} {p p' : Pc J V}
      → Move mate use_in_results does m p m' p'
      → m'.readers ≡ m.readers
  Move-readers (Start.stop gone) = refl
  Move-readers mv = ground arith

  Turn-readers :
      {s t : System J V} → Turn mate use_in_results does s t → t.shared.readers ≡ s.shared.readers
  Turn-readers (work s before after at mv) = Move-readers mv
  Turn-readers own = ground arith

  cancel_all-readers :
      (c : Option Error) (e : Error) (r : Run J V)
      → ((cancel_all c e r).mate.shared.readers ≡ r.mate.shared.readers)
        × ((cancel_all c e r).writers ≡ r.writers)
  unfolding cancel_all
  cancel_all-readers none e r = (refl, refl)
  cancel_all-readers (some c) e r = (refl, refl)

  -- The scraper has a reader for each writer that reads.
  abbrev pub AreReaders : Run J V → Type 0
  AreReaders r = r.mate.shared.readers ≡ count_reading r.writers

  cancel_all-AreReaders :
      (c : Option Error) (e : Error) (r : Run J V) → AreReaders r → AreReaders (cancel_all c e r)
  cancel_all-AreReaders c e r h =
      let (same, ws) = cancel_all-readers c e r in omega (arith, same, ap count_reading ws, h)

  Step-AreReaders :
      {r t : Run J V} → Step mate use_in_results does r t → AreReaders r → AreReaders t
  Step-AreReaders (scrape r own) h = Turn-readers own ∙ h
  Step-AreReaders (interrupt r e) h = cancel_all-AreReaders r.cause e r h
  Step-AreReaders (writer_fails r before after e n at some_reader) h =
      let moved = count_reading-move r.writers before after reading (failing e) at in
      cancel_all-AreReaders r.cause e _ (omega (arith, moved, some_reader, h))
  Step-AreReaders (writer_returns r before after e at) h =
      let moved = count_reading-move r.writers before after (failing e) (finished (some e)) at in
      cancel_all-AreReaders r.cause e _ (omega (arith, moved, h))
  Step-AreReaders (writer_ends r before after n at some_reader closed) h =
      let moved = count_reading-move r.writers before after reading (finished none) at in
      omega (arith, moved, some_reader, h)
  Step-AreReaders (seed r j js at) h = h
  Step-AreReaders (seed_fails r j js e at) h = cancel_all-AreReaders r.cause e _ h
  Step-AreReaders (seed_ends r at) h = h
  Step-AreReaders (scraper_fails r e not_yet at) h = cancel_all-AreReaders r.cause e _ h
  Step-AreReaders (scraper_ends r not_yet at) h = h
  Step-AreReaders (wait r o not_yet all at over) h = cancel_all-AreReaders r.cause _ _ h

  pub Steps-Scrapes : {r t : Run J V} → Steps mate use_in_results does r t → Scrapes r.mate t.mate
  Steps-Scrapes stay = Start.stay
  Steps-Scrapes (go_on steps step) = Scrapes-append (Steps-Scrapes steps) (Step-Scrapes step)

  pub Steps-AreReaders :
      {r t : Run J V} → Steps mate use_in_results does r t → AreReaders r → AreReaders t
  Steps-AreReaders stay h = h
  Steps-AreReaders (go_on steps step) h = Step-AreReaders step (Steps-AreReaders steps h)

  -- Whatever the goroutines of an application do, its scraper runs as Start of scrapemate.go does, with as many readers
  -- of its results, at any time, as there are writers that still read.
  pub started-Scrapes :
      (writers : ℕ) (seeds : List J) {t : Run J V}
      → Steps mate use_in_results does (started writers seeds) t
      → Start.Steps mate use_in_results does (fresh writers) t.mate
        × (t.mate.shared.readers ≡ count_reading t.writers)
  started-Scrapes writers seeds steps =
      (Steps-Scrapes steps, Steps-AreReaders steps (sym (count_reading-replicate writers)))
