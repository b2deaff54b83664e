-- ===== src/Mate/Monitor.antt =====
-- The ticker of `Start`, waitForSignal and `Err` in scrapemate.go. Times are in nanoseconds from
-- Go's zero time; the statistics that a tick logs are left out.
pub mod Inactivity
use scrapemate.Prelude.{
  ℕ, suc, ◌*◌, ◌-◌, ◌^◌, ℤ, pos, sub_ℕ, div_ℤ, ltb_ℤ, Bool, true, false, ◌&&◌, Option, none, some,
  if◌then◌else◌,
}
use scrapemate.Errors.{Error, wrapped, inactivity_timeout, exit_signal, is_inactivity}
use scrapemate.Mate.Env.{ScrapeMate, Runtime}
use scrapemate.Mate.Exec.{Stats, State, Exec, ◌>>=◌, ◌>>◌, pure, cancel}

-- time.Minute
abbrev pub minute : ℕ
minute = 60 * 1000000000

abbrev pub max_duration : ℤ
max_duration = pos (2 ^ 63 - 1)

-- t.Sub(u), which stops at the largest and the smallest duration.
pub time_sub : ℕ → ℕ → ℤ
time_sub t u =
    if ltb_ℤ max_duration (sub_ℕ t u)
    then max_duration
    else if ltb_ℤ (sub_ℕ t u) (sub_ℕ 0 (2 ^ 63))
    then sub_ℕ 0 (2 ^ 63)
    else sub_ℕ t u

-- What the goroutine's select takes.
pub data Wake : Type 0 where
  done tick : Wake

-- The test of a tick at the time `now`.
unfoldable pub is_idle_at : {W J V : Type 0} → ScrapeMate W J V → ℕ → Stats → Bool
is_idle_at mate now stats =
    mate.exit_on_inactivity
    && ltb_ℤ mate.exit_on_inactivity_duration (time_sub now stats.last_activity_at)

module _ {W J V : Type 0} (mate : ScrapeMate W J V) (runtime : Runtime W J) where
  -- The ticker's period.
  pub ticker_dur : ℤ
  ticker_dur =
      if mate.exit_on_inactivity && ltb_ℤ mate.exit_on_inactivity_duration (pos minute)
      then div_ℤ mate.exit_on_inactivity_duration 2
      else pos minute

  -- The test of a tick.
  pub is_idle : State W J V → Bool
  is_idle s = is_idle_at mate (runtime.now s.world) s.stats

  -- One round of the loop; `true` goes on.
  pub monitor_step : Wake → Exec (State W J V) Bool
  monitor_step done = pure false
  monitor_step tick = λ s.
      if is_idle s
      then (do cancel (wrapped inactivity_timeout "last activity"); pure false) s
      else pure true s

-- The goroutine of waitForSignal, when the signal comes.
pub receive_signal : {W J V : Type 0} → Exec (State W J V) (Unit {0})
receive_signal = cancel exit_signal

-- What Err makes of the context's cause: an end because of inactivity is no error.
abbrev pub report : Option Error → Option Error
report none = none
report (some e) = if is_inactivity e then none else some e

pub err : {W J V : Type 0} → State W J V → Option Error
err s = report s.cause
