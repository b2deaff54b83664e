-- ===== src/Mate/Fetch.antt =====
-- doFetch and getMaxRetries of scrapemate.go, with the constants of constants.go. Durations are
-- in nanoseconds.
pub mod Rule
pub mod Frame
pub mod Retries
pub mod Pauses
use scrapemate.Prelude.{
  ℕ, zero, suc, ◌*◌, ℤ, pos, ◌+ℤ◌, ◌*ℤ◌, ltb_ℤ, leb_ℤ, eqb_ℤ, Bool, true, false, Option, none, some,
  if◌then◌else◌, List, ◌&&◌, not,
}
use scrapemate.Errors.{Error, status_code, stopped_by_policy}
use scrapemate.Response.{Response}
use scrapemate.Mate.Env.{IJob, HttpFetcher, ScrapeMate}
use scrapemate.Mate.Exec.{
  Event, fetched, checked, slept, State, Outcome, returns, out_of_fuel, Exec, diverge, ◌>>=◌, ◌>>◌,
  pure, record_event, call, cancel,
}

abbrev pub retry_job : ℤ
retry_job = pos 0

abbrev pub discard_job : ℤ
discard_job = pos 1

abbrev pub refresh_ip : ℤ
refresh_ip = pos 2

abbrev pub stop_scraping : ℤ
stop_scraping = pos 3

abbrev pub millisecond : ℕ
millisecond = 1000000

abbrev pub max_retries_default : ℤ
max_retries_default = pos 5

-- What the loop does after a check.
pub data Decision : Type 0 where
  accept discard stop exhausted again : Decision

-- Six rounds: a first one, and one for each of at most five retries.
abbrev pub fetch_fuel : ℕ
fetch_fuel = 6

module _ {W J V : Type 0} (ijob : IJob W J V) (mate : ScrapeMate W J V) where
  unfoldable pub get_max_retries : J → ℤ
  get_max_retries job =
      if ltb_ℤ max_retries_default (ijob.get_max_retries job)
      then max_retries_default
      else ijob.get_max_retries job

  -- s.httpFetcher.Fetch
  pub fetch : J → Exec (State W J V) (Response V)
  fetch job = do resp ← call (mate.http_fetcher.fetch job); record_event (fetched job); pure resp

  -- job.DoCheckResponse(&ans)
  pub check_response : J → Response V → Exec (State W J V) (Bool × Response V)
  check_response job resp = do
    verdict ← call (ijob.do_check_response job resp)
    record_event (checked job verdict.0 verdict.1)
    pure verdict

  -- The switch at the end of the loop: the pause, and the next delay. Only RetryJob pauses.
  pub back_off : J → ℤ → Exec (State W J V) ℤ
  back_off job delay =
      if eqb_ℤ (ijob.get_retry_policy job) retry_job
      then (do
        record_event (slept delay)
        pure (
            if ltb_ℤ (ijob.get_max_retry_delay job) delay
            then ijob.get_max_retry_delay job
            else delay *ℤ pos 2))
      else pure delay

  -- The tests of the loop in their order, on the verdict `ok` about an answer.
  pub decide : J → ℤ → Bool → Decision
  unfolding get_max_retries
  decide job retry ok =
      if ok
      then accept
      else if eqb_ℤ (ijob.get_retry_policy job) discard_job
      then discard
      else if eqb_ℤ (ijob.get_retry_policy job) stop_scraping
      then stop
      else if leb_ℤ (get_max_retries job) retry
      then exhausted
      else again

  -- What follows each decision: the loop returns `ok` with the answer, or goes round with a
  -- new delay.
  pub settle :
      (ℤ → Exec (State W J V) (Bool × Response V))
      → J
      → ℤ
      → Response V
      → Decision
      → Exec (State W J V) (Bool × Response V)
  settle loop job delay ans accept = pure (true, ans)
  settle loop job delay ans discard = pure (false, ans)
  settle loop job delay ans stop = do cancel stopped_by_policy; pure (false, ans)
  settle loop job delay ans exhausted = pure (false, ans)
  settle loop job delay ans again = do delay' ← back_off job delay; loop delay'

  pub fetch_loop : ℕ → J → ℤ → ℤ → Exec (State W J V) (Bool × Response V)
  fetch_loop zero job delay retry = diverge
  fetch_loop (suc fuel) job delay retry = do
    resp ← fetch job
    verdict ← check_response job resp
    settle (λ delay'. fetch_loop fuel job delay' (retry +ℤ pos 1)) job delay verdict.1
        (decide job retry verdict.0)

  -- The deferred function: a rejected answer carries an error.
  pub with_error : Bool × Response V → Response V
  with_error (true, ans) = ans
  with_error (false, ans) = elim ans.error [
    | none ↦ record ans { error = some (status_code ans.status_code) }
    | some e ↦ ans
  ]

  pub do_fetch : J → Exec (State W J V) (Response V)
  do_fetch job = do
    answer ← fetch_loop fetch_fuel job (pos (100 * millisecond)) (pos 0)
    pure (with_error answer)
