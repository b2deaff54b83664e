-- ===== src/Tests/Scraper.antt =====
-- The theorems about scrapemate.go at the sample scraper.
use scrapemate.Prelude.{
  ℕ, suc, ◌+◌, ◌/◌, ◌≡◌, refl, pos, pos_part, false, ◌&&◌, none, some, List, [], ◌∷◌, arith,
}
use scrapemate.Errors.{wrapped, inactivity_timeout, ok}
use scrapemate.Mate.Env.{ScrapeMate, throws}
use scrapemate.Mate.Exec.{State, returns}
use scrapemate.Mate.Triple.{Triple}
use scrapemate.Mate.Fetch.{get_max_retries, do_fetch}
use scrapemate.Mate.Fetch.Retries.{
  Fetched, AtMost, Within, Answered, do_fetch-fetches, do_fetch-Answered,
}
use scrapemate.Mate.Fetch.Pauses.{pauses, Rejecting, Paused, do_fetch-schedule}
use scrapemate.Mate.DoJob.{do_job}
use scrapemate.Mate.DoJob.Caching.{Good, do_job-CachesGood}
use scrapemate.Mate.Worker.Accounts.{Account}
use scrapemate.Mate.InitJob.{process_init_job}
use scrapemate.Mate.InitJob.Termination.{Shrinks, process_init_job-ends}
use scrapemate.Mate.Monitor.{tick, ticker_dur, monitor_step}
use scrapemate.Mate.Monitor.Inactivity.{first_tick_ends}
use scrapemate.Mate.Options.{Setting, concurrent, provider, fetcher, apply, apply_all, finish, new}
use scrapemate.Mate.Options.Ready.{
  is_ok, accepts, sets_provider, sets_fetcher, all_of, any_of, new-is_ok,
}
use scrapemate.Tests.Sample.{ijob, mate, cached_mate, runtime, server_error, fresh}

rejecting : Rejecting ijob mate 3
rejecting = record {
  policy = refl;
  fetch_replies = λ w. (server_error, w + 1, refl);
  check_rejects = λ ans w. (ans, w, refl);
}

do_fetch-Answered_example :
    Triple
      (λ (s : State ℕ ℕ ℕ). s.cause ≡ none)
      (do_fetch ijob mate 3)
      (Answered ijob mate 3 none)
      (λ s. s.cause ≡ none)
do_fetch-Answered_example = do_fetch-Answered ijob mate 3 none

do_fetch-fetches_example :
    Triple
      (Fetched 0)
      (do_fetch ijob mate 3)
      (λ _. Within 0 (0 + pos_part (get_max_retries ijob mate 3) + 1))
      (AtMost (0 + pos_part (get_max_retries ijob mate 3) + 1))
do_fetch-fetches_example = do_fetch-fetches ijob mate 3 0

do_fetch-schedule_example :
    Triple
      (λ s. pauses s.trace ≡ [])
      (do_fetch ijob mate 3)
      (λ _. Paused ijob mate 3 [] (pos_part (get_max_retries ijob mate 3)))
      (λ s. ⊥)
do_fetch-schedule_example = do_fetch-schedule ijob mate 3 [] rejecting

do_job-CachesGood_example :
    Triple
      (Good ijob cached_mate 3)
      (do_job ijob cached_mate 3)
      (λ _. Good ijob cached_mate 3)
      (λ s. Good ijob cached_mate 3 s × (ijob.get_id 3 ≡ throws))
do_job-CachesGood_example = do_job-CachesGood ijob cached_mate 3

shrinks : Shrinks ijob suc
shrinks = record {
  named = λ j. ("id", refl);
  positive = λ j. omega arith;
  smaller = λ j resp w w' p e. ground (arith, e);
}

process_init_job-ends_example :
    Triple (Account 0 0 0) (process_init_job ijob mate 3) (λ _. Account 0 0 0) (λ _. ⊥)
process_init_job-ends_example =
    process_init_job-ends ijob mate suc shrinks 0 0 0 3 (λ j e. ground arith)

first_tick_ends_example :
    ((monitor_step mate runtime tick fresh).0 ≡ returns false)
    × ((monitor_step mate runtime tick fresh).1.cause
        ≡ some (wrapped inactivity_timeout "last activity"))
    × (ticker_dur mate runtime ≡ pos (10000000000 / 2))
first_tick_ends_example =
    first_tick_ends mate runtime fresh 10000000000 refl refl (omega arith) refl (omega arith)

abbrev two_workers : List (Setting ℕ ℕ ℕ)
two_workers =
    provider (some mate.job_provider) ∷ fetcher (some mate.http_fetcher) ∷ concurrent (pos 2) ∷ []

new-is_ok_example : is_ok (new two_workers) ≡ (
    all_of accepts two_workers
    && (any_of sets_provider two_workers && any_of sets_fetcher two_workers))
new-is_ok_example = new-is_ok two_workers

abbrev two_worker_mate : ScrapeMate ℕ ℕ ℕ
two_worker_mate = record mate {
  concurrency = pos 2;
  init_job = none;
  exit_on_inactivity = false;
  exit_on_inactivity_duration = pos 0;
}

two_workers-new : new two_workers ≡ ok two_worker_mate
unfolding new apply_all apply finish
two_workers-new = refl
