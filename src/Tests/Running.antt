-- ===== src/Tests/Running.antt =====
-- The theorems about Start of scrapemateapp.go at an application with one writer, over the sample scraper.
use scrapemate.Prelude.{ℕ, ◌≡◌, ◌≢◌, refl, true, false, Option, none, some, [], ◌∷◌, arith}
use scrapemate.Errors.{Error, canceled, is_inactivity}
use scrapemate.Mate.Worker.{inc_jobs_completed}
use scrapemate.Mate.Start.{
  Pc, selecting, stopped, working, finishing, sending, Shared, System, draining, returned, fresh,
  stop, take, succeeds, count, pushed_all, work, stop_ticking, init_ends,
}
use scrapemate.Mate.Start as Start
use scrapemate.Mate.Start.Deadlock.{IsStuck}
use scrapemate.Application.Run.{
  Writer, reading, failing, finished, pushing, seeded, Run, started, cancel_all, Step, scrape,
  interrupt, writer_fails, writer_ends, seed_ends, scraper_fails, wait, Steps, stay, go_on,
}
use scrapemate.Application.Run as Run
use scrapemate.Application.Run.Results.{IsResult, started-IsResult}
use scrapemate.Application.Run.Endings.{started-ne-result, started-returns}
use scrapemate.Tests.Sample.{mate}
use scrapemate.Tests.Starting.{used, answer, Does, at, m0, m1, m2}

abbrev begin : Run.Run ℕ ℕ
begin = started {J = ℕ} {V = ℕ} 1 []

-- The application while its one worker stands at `p`.
abbrev with_worker : Shared → Pc ℕ ℕ → Run.Run ℕ ℕ
with_worker m p = record begin { mate = at m p }

working_app : Steps mate used Does begin (with_worker m0 selecting)
working_app = go_on stay (scrape begin (init_ends (fresh 1) refl))

abbrev m_done : Shared
m_done = record m0 { cause = some canceled }

abbrev done_app : Run.Run ℕ ℕ
done_app = record (with_worker m_done selecting) { cause = some canceled }

interrupted : Steps mate used Does begin done_app
unfolding cancel_all
interrupted = go_on working_app (interrupt (with_worker m0 selecting) canceled)

abbrev quiet : System ℕ ℕ
quiet = record (at m_done stopped) { ticking = false }

abbrev done : System ℕ ℕ
done = record quiet { main = draining }

abbrev closed_mate : System ℕ ℕ
closed_mate = record done {
  main = returned (some canceled);
  shared = record m_done { closed = true };
}

abbrev closed_app : Run.Run ℕ ℕ
closed_app = record done_app { mate = closed_mate }

scraped : Steps mate used Does begin closed_app
unfolding is_inactivity
scraped =
    go_on
      (go_on
        (go_on
          (go_on interrupted (scrape done_app (work (at m_done selecting) [] [] refl (stop refl))))
          (scrape (record done_app { mate = at m_done stopped })
            (stop_ticking (at m_done stopped) canceled refl refl)))
        (scrape (record done_app { mate = quiet }) (Start.wait quiet refl (refl, tt) refl)))
      (scrape (record done_app { mate = done }) (Start.return done canceled refl refl))

abbrev collected_app : Run.Run ℕ ℕ
collected_app = record closed_app { collected = true; first = some canceled }

abbrev no_reader : System ℕ ℕ
no_reader = record closed_mate { shared = record m_done { closed = true; readers = 0 } }

abbrev written_app : Run.Run ℕ ℕ
written_app = record collected_app { writers = finished none ∷ []; mate = no_reader }

abbrev ended_app : Run.Run ℕ ℕ
ended_app = record written_app { seeder = seeded none; result = some (some canceled) }

ended : Steps mate used Does begin ended_app
unfolding cancel_all
ended =
    go_on
      (go_on
        (go_on (go_on scraped (scraper_fails closed_app canceled refl refl))
          (writer_ends collected_app [] [] 0 refl refl refl))
        (seed_ends written_app refl))
      (wait (record written_app { seeder = seeded none }) none refl ((none, refl), tt) refl refl)

started-IsResult_example : IsResult ended_app (some canceled)
started-IsResult_example = started-IsResult mate used Does 1 [] (some canceled) ended refl

started-returns_example :
    (t : Run.Run ℕ ℕ) × (o : Option Error) × Steps mate used Does done_app t × (t.result ≡ some o)
started-returns_example =
    started-returns mate used Does (λ j. (answer j, refl)) 1 [] canceled interrupted refl refl
      (omega arith)

-- The writer fails while the worker has a result to send.
sending_app : Steps mate used Does begin (with_worker m2 (sending 5 (some 5)))
unfolding inc_jobs_completed
sending_app =
    go_on
      (go_on
        (go_on
          (go_on working_app
            (scrape (with_worker m0 selecting) (work (at m0 selecting) [] [] refl take)))
          (scrape (with_worker m1 (working 5))
            (work (at m1 (working 5)) [] [] refl (succeeds {p = answer 5} refl refl))))
        (scrape (with_worker m1 (finishing 5 (some 5) []))
          (work (at m1 (finishing 5 (some 5) [])) [] [] refl (count 7))))
      (scrape (with_worker m2 (Start.pushing 5 (some 5) []))
        (work (at m2 (Start.pushing 5 (some 5) [])) [] [] refl (pushed_all refl)))

abbrev unread : Run.Run ℕ ℕ
unread =
    record (with_worker (record m2 { readers = 0; cause = some canceled }) (sending 5 (some 5))) {
      writers = failing canceled ∷ [];
      cause = some canceled;
    }

failed : Steps mate used Does begin unread
unfolding cancel_all
failed =
    go_on sending_app
      (writer_fails (with_worker m2 (sending 5 (some 5))) [] [] canceled 0 refl refl)

unread-IsStuck : IsStuck unread.mate
unread-IsStuck = record { waits = refl; unread = refl; blocked = omega arith }

started-ne-result_example : unread.result ≢ some (some canceled)
started-ne-result_example =
    started-ne-result mate used Does 1 [] (some canceled) failed unread-IsStuck stay
