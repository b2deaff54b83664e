-- ===== src/Application/Run/Results.antt =====
-- What Start of an application returns.
use scrapemate.Prelude.{
  ℕ, Bool, true, false, Option, none, some, List, [], ◌∷◌, ◌≡◌, ◌⊎◌, inl, inr, refl, ap, ◌∙◌, arith,
}
use scrapemate.Errors.{Error}
use scrapemate.Mate.Env.{ScrapeMate, Processed}
use scrapemate.Mate.Start.{Main, returned, AllStopped}
use scrapemate.Mate.Start.Closing.{Steps-IsClosedLast}
use scrapemate.Application.Run.{
  Writer, reading, failing, finished, Seeder, pushing, seeded, Run, started, AllFinished, Steps,
}
use scrapemate.Application.Run.Projection.{Steps-Scrapes}
use scrapemate.Application.Run.Grouped.{Steps-Grouped}
use scrapemate.Application.Run.Group.{
  is_open, is_failed, sum, is_seeding, seeder_failed, scraper_failed, Has, Origin, a_writer,
  the_seeder, the_scraper, collected-true,
}

open-AllFinished : (ws : List Writer) → sum is_open ws ≡ 0 → AllFinished ws
open-AllFinished [] h = tt
open-AllFinished (reading ∷ ws) h = absurd (omega (arith, h))
open-AllFinished (failing e ∷ ws) h = absurd (omega (arith, h))
open-AllFinished (finished o ∷ ws) h = ((o, refl), open-AllFinished ws (omega (arith, h)))

-- Each writer ended without an error.
abbrev pub AllFine : List Writer → Type 0
AllFine [] = Unit
AllFine (w ∷ ws) = (w ≡ finished none) × AllFine ws

fails-AllFine : (ws : List Writer) → AllFinished ws → sum is_failed ws ≡ 0 → AllFine ws
fails-AllFine [] all h = tt
fails-AllFine (w ∷ ws) ((none, at), all) h = (at, fails-AllFine ws all (omega (arith, h)))
fails-AllFine (w ∷ ws) ((some e, at), all) h = absurd (omega (arith, h, ap is_failed at))

seeder-ended : {J : Type 0} (s : Seeder J) → is_seeding s ≡ 0 → (x : Option Error) × (s ≡ seeded x)
seeder-ended (pushing js) h = absurd (omega (arith, h))
seeder-ended (seeded x) h = (x, refl)

seeder-well : {J : Type 0} (s : Seeder J) → is_seeding s ≡ 0 → seeder_failed s ≡ 0 → s ≡ seeded none
seeder-well (pushing js) h k = absurd (omega (arith, h))
seeder-well (seeded none) h k = refl
seeder-well (seeded (some e)) h k = absurd (omega (arith, k))

main-well :
    (c : Bool) (main : Main) (x : Option Error)
    → c ≡ true
    → main ≡ returned x
    → scraper_failed c main ≡ 0
    → main ≡ returned none
main-well c main none q at h = at
main-well true main (some e) q at h = absurd (omega (arith, ap (scraper_failed true) at, h))
main-well false main (some e) q at h = absurd (ground arith)

module _ {J V : Type 0} where
  -- What holds when Start has returned `o`.
  pub record IsResult (t : Run J V) (o : Option Error) : Type 0 where
    pub scraper : (x : Option Error) × (t.mate.main ≡ returned x)
    pub workers : AllStopped t.mate.workers
    pub closed : t.mate.shared.closed ≡ true
    pub writers : AllFinished t.writers
    pub seeder : (x : Option Error) × (t.seeder ≡ seeded x)
    pub blamed :
        (e : Error)
        → o ≡ some e
        → Has e t.writers ⊎ ((t.seeder ≡ seeded (some e)) ⊎ (t.mate.main ≡ returned (some e)))
    pub all_well :
        o ≡ none → AllFine t.writers × (t.seeder ≡ seeded none) × (t.mate.main ≡ returned none)

  Origin-blamed :
      (e : Error) (t : Run J V)
      → Origin e t.writers t.seeder t.collected t.mate.main
      → Has e t.writers ⊎ ((t.seeder ≡ seeded (some e)) ⊎ (t.mate.main ≡ returned (some e)))
  Origin-blamed e t (a_writer h) = inl h
  Origin-blamed e t (the_seeder h) = inr (inl h)
  Origin-blamed e t (the_scraper c m) = inr (inr m)

module _ {W J V : Type 0} (mate : ScrapeMate W J V) (use_in_results : J → Bool)
    (does : J → Processed J V → Type 0) where
  -- When Start of an application has returned, however its goroutines interleaved: the scraper has returned, its
  -- workers have stopped and its results are closed, each writer and the seeding have ended. An error
  -- that Start returns is one that a writer, the seeding or the scraper ended with, and if it returns none all
  -- of them ended without an error.
  pub started-IsResult :
      (writers : ℕ) (seeds : List J) {t : Run J V} (o : Option Error)
      → Steps mate use_in_results does (started writers seeds) t
      → t.result ≡ some o
      → IsResult t o
  started-IsResult writers seeds {t} o steps h =
      let g = Steps-Grouped mate use_in_results does writers seeds steps in
      let (idle, first) = g.over o h in
      let over : t.collected ≡ true = collected-true t.collected (omega (arith, idle)) in
      let (x, at) = g.returns over in
      let (stopped, closed, _) =
        (Steps-IsClosedLast mate use_in_results does writers
            (Steps-Scrapes mate use_in_results does steps)).result
          x at in
      let all = open-AllFinished t.writers (omega (arith, idle)) in
      record {
        scraper = (x, at);
        workers = stopped;
        closed = closed;
        writers = all;
        seeder = seeder-ended t.seeder (omega (arith, idle));
        blamed = λ e q. Origin-blamed e t (g.origin e (first ∙ q));
        all_well = λ q.
            let clean = g.clean (first ∙ q) in
            (
              fails-AllFine t.writers all (omega (arith, clean)),
              seeder-well t.seeder (omega (arith, idle)) (omega (arith, clean)),
              main-well t.collected t.mate.main x over at (omega (arith, clean)),
            );
      }
