-- ===== src/Mate/Monitor/Inactivity.antt =====
-- When the ticker ends the scraping, and what `Start` then returns.
use scrapemate.Prelude.{
  ℕ, ◌/◌, ◌+◌, ◌^◌, ◌≤◌, ◌<◌, ◌≡◌, ◌↔◌, ap, pos, ◌<ℤ◌, div_ℤ, true, false, none, some, arith,
}
use scrapemate.Errors.{wrapped, inactivity_timeout, exit_signal, is_inactivity}
use scrapemate.Mate.Env.{ScrapeMate, Runtime}
use scrapemate.Mate.Exec.{State, returns, first_cause}
use scrapemate.Mate.Monitor.{
  is_idle_at, minute, max_duration, time_sub, tick, ticker_dur, is_idle, monitor_step,
  receive_signal, err,
}

time_sub-add : (u d : ℕ) → d < 2 ^ 63 → time_sub (u + d) u ≡ pos d
unfolding time_sub
time_sub-add u d h = ground arith

time_sub-zero : (t : ℕ) → 2 ^ 63 ≤ t → time_sub t 0 ≡ max_duration
unfolding time_sub
time_sub-zero t h = ground arith

module _ {W J V : Type 0} (mate : ScrapeMate W J V) (runtime : Runtime W J) where
  -- With a last activity at `t` and a clock at `t + d`, where `d` fits a duration, a tick of a
  -- running scraper ends it exactly if `d` is longer than the configured duration. Err is nil
  -- afterwards, whether the tick ends it or not.
  monitor_step-tick :
      (s : State W J V) (d : ℕ)
      → s.cause ≡ none
      → mate.exit_on_inactivity ≡ true
      → runtime.now s.world ≡ s.stats.last_activity_at + d
      → d < 2 ^ 63
      → ((monitor_step mate runtime tick s).0 ≡ returns false
          ↔ (mate.exit_on_inactivity_duration <ℤ pos d))
        × (err (monitor_step mate runtime tick s).1 ≡ none)
  unfolding monitor_step is_idle is_idle_at err is_inactivity
  monitor_step-tick s d running on clock fits = ground (
    arith,
    ap (λ (t : ℕ). time_sub t s.stats.last_activity_at) clock,
    time_sub-add s.stats.last_activity_at d fits,
  )

  -- A scraper that exits on inactivity, after a duration of less than a minute, and has not finished or failed a job
  -- yet, so that its last activity is Go's zero time, is ended by a tick, if the clock is at least 2^63 nanoseconds past
  -- that time: the context is cancelled with the inactivity timeout, unless it was before, and the ticker's
  -- goroutine ends. The first tick comes after half the configured duration.
  pub first_tick_ends :
      (s : State W J V) (t : ℕ)
      → mate.exit_on_inactivity ≡ true
      → mate.exit_on_inactivity_duration ≡ pos t
      → t < minute
      → s.stats.last_activity_at ≡ 0
      → 2 ^ 63 ≤ runtime.now s.world
      → ((monitor_step mate runtime tick s).0 ≡ returns false)
        × ((monitor_step mate runtime tick s).1.cause
            ≡ first_cause s.cause (wrapped inactivity_timeout "last activity"))
        × (ticker_dur mate runtime ≡ pos (t / 2))
  unfolding monitor_step is_idle is_idle_at ticker_dur div_ℤ
  first_tick_ends s t on dur short fresh late =
      ground
        (arith, ap (time_sub (runtime.now s.world)) fresh, time_sub-zero (runtime.now s.world) late)

-- A signal that comes first is what Err reports, also after a tick that finds no activity.
err-signal :
    {W J V : Type 0} (mate : ScrapeMate W J V) (runtime : Runtime W J) (s : State W J V)
    → s.cause ≡ none
    → err (monitor_step mate runtime tick (receive_signal s).1).1 ≡ some exit_signal
unfolding monitor_step err is_inactivity receive_signal
err-signal mate runtime s running = ground arith
