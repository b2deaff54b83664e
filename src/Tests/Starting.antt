-- ===== src/Tests/Starting.antt =====
-- The theorems about Start of scrapemate.go at runs of the sample scraper, where DoJob gives each job's number.
use scrapemate.Prelude.{ℕ, ◌+◌, ◌≡◌, refl, Bool, true, false, none, some, [], ◌∷◌}
use scrapemate.Errors.{canceled, is_inactivity}
use scrapemate.Mate.Env.{Processed}
use scrapemate.Mate.Worker.{inc_jobs_completed}
use scrapemate.Mate.Start.{
  Pc, selecting, stopped, working, finishing, pushing, sending, Shared, waiting, draining, returned,
  System, fresh, stop, take, succeeds, count, pushed_all, send, turn, work, stop_ticking, cancel,
  init_ends, wait, return, Steps, stay, go_on,
}
use scrapemate.Mate.Start.Closing.{IsClosedLast, Steps-IsClosedLast}
use scrapemate.Mate.Start.Totals.{Steps-counters}
use scrapemate.Tests.Sample.{mate}

abbrev pub used : ℕ → Bool
used j = true

abbrev pub answer : ℕ → Processed ℕ ℕ
answer j = record { result = some j; next = []; err = none }

abbrev pub Does : ℕ → Processed ℕ ℕ → Type 0
Does j p = p ≡ answer j

abbrev Run : System ℕ ℕ → System ℕ ℕ → Type 0
Run = Steps mate used Does

abbrev pub at : Shared → Pc ℕ ℕ → System ℕ ℕ
at m p = record { shared = m; workers = p ∷ []; ticking = true; main = waiting }

abbrev pub m0 : Shared
m0 = (fresh {J = ℕ} {V = ℕ} 1).shared

abbrev pub m1 : Shared
m1 = record m0 { taken = 1 }

abbrev pub m2 : Shared
m2 = record m1 {
  stats = record { num_of_jobs_completed = 1; num_of_jobs_failed = 0; last_activity_at = 7 };
}

abbrev m3 : Shared
m3 = record m2 { handled = 1 }

abbrev m4 : Shared
m4 = record m3 { cause = some canceled }

abbrev quiet : System ℕ ℕ
quiet = record (at m4 stopped) { ticking = false }

abbrev done : System ℕ ℕ
done = record quiet { main = draining }

abbrev ended : System ℕ ℕ
ended = record done { main = returned (some canceled); shared = record m4 { closed = true } }

-- One job is taken, its result is received, and then the context is cancelled.
to_sending : Run (fresh 1) (at m2 (sending 5 (some 5)))
unfolding inc_jobs_completed
to_sending =
    go_on
      (go_on
        (go_on
          (go_on (go_on stay (turn (init_ends (fresh 1) refl)))
            (turn (work (at m0 selecting) [] [] refl take)))
          (turn (work (at m1 (working 5)) [] [] refl (succeeds {p = answer 5} refl refl))))
        (turn (work (at m1 (finishing 5 (some 5) [])) [] [] refl (count 7))))
      (turn (work (at m2 (pushing 5 (some 5) [])) [] [] refl (pushed_all refl)))

to_end : Run (fresh 1) ended
unfolding is_inactivity
to_end =
    go_on
      (go_on
        (go_on
          (go_on
            (go_on
              (go_on to_sending
                (turn (work (at m2 (sending 5 (some 5))) [] [] refl (send refl refl))))
              (cancel (at m3 selecting) canceled))
            (turn (work (at m4 selecting) [] [] refl (stop refl))))
          (turn (stop_ticking (at m4 stopped) canceled refl refl)))
        (turn (wait quiet refl (refl, tt) refl)))
      (turn (return done canceled refl refl))

Steps-IsClosedLast_example : IsClosedLast mate used Does ended
Steps-IsClosedLast_example = Steps-IsClosedLast mate used Does 1 to_end

Steps-counters_example : (1 ≡ 1 + 0) × (1 ≡ 1 + 0)
Steps-counters_example = Steps-counters mate used Does 1 (some canceled) to_end refl
