-- ===== src/Errors.antt =====
-- errors.go, and the errors that the code builds in place. An error of a collaborator, which is
-- not written in the repository, is `foreign` with its text.
use scrapemate.Prelude.{String, Bool, true, false, ℤ, Option, none, some}

pub data Error : Type 0 where
  no_job_provider exit_signal no_logger no_context bad_concurrency no_html_fetcher : Error
  no_html_parser no_cacher not_csv_capable inactivity_timeout : Error
  nil_provider stopped_by_policy panicked closing_app canceled deadline_exceeded : Error
  status_code : ℤ → Error
  foreign : String → Error
  -- fmt.Errorf("%w: ...", err)
  wrapped : Error → String → Error

-- errors.Is(err, ErrInactivityTimeout): looks through `%w`.
unfoldable pub is_inactivity : Error → Bool
is_inactivity inactivity_timeout = true
is_inactivity (wrapped e s) = is_inactivity e
is_inactivity _ = false

-- A pair of a value and an error of which the code uses one: the error is nil exactly for `ok`.
pub data Result (A : Type 0) : Type 0 where
  ok : A → Result A
  err : Error → Result A

infixl 5 ◌>>=◌
abbrev pub ◌>>=◌ : {A B : Type 0} → Result A → (A → Result B) → Result B
ok a >>= f = f a
err e >>= f = err e

-- `if err != nil { return … }`
abbrev pub unless : Option Error → Result (Unit {0})
unless none = ok tt
unless (some e) = err e

-- fmt.Errorf("…: %w", err)
abbrev pub wrapping : {A : Type 0} → (Error → Error) → Result A → Result A
wrapping f (ok a) = ok a
wrapping f (err e) = err (f e)
