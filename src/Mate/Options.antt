-- ===== src/Mate/Options.antt =====
-- `New` of scrapemate.go and its options.
pub mod Ready
use scrapemate.Prelude.{
  ℕ, ℤ, pos, ltb_ℤ, eqb_ℤ, Bool, true, false, Option, none, some, List, [], ◌∷◌, if◌then◌else◌,
  is_none,
}
use scrapemate.Errors.{
  Error, no_job_provider, no_logger, no_context, bad_concurrency, no_html_fetcher, no_html_parser,
  no_cacher, nil_provider, Result, ok, err, ◌>>=◌,
}
use scrapemate.Mate.Env.{ScrapeMate, JobProvider, HttpFetcher, HtmlParser, Cacher}

-- The struct while the options fill it in, from the zero value. The logger, the context and its
-- cancel function are known by whether they are set.
pub record Builder (W J V : Type 0) : Type 0 where
  pub log : Bool
  pub ctx : Bool
  pub cancel_fn : Bool
  pub job_provider : Option (JobProvider W J)
  pub concurrency : ℤ
  pub http_fetcher : Option (HttpFetcher W J V)
  pub html_parser : Option (HtmlParser W V)
  pub cache : Option (Cacher W V)
  pub failed_jobs : Bool
  pub init_job : Option J
  pub exit_on_inactivity : Bool
  pub exit_on_inactivity_duration : ℤ

-- A call of one of the With functions, with its arguments; nil is `none` or `false`.
pub data Setting (W J V : Type 0) : Type 0 where
  exit_because_of_inactivity : ℤ → Setting W J V
  failed : Setting W J V
  context : (ctx cancel_fn : Bool) → Setting W J V
  logger : Bool → Setting W J V
  provider : Option (JobProvider W J) → Setting W J V
  concurrent : ℤ → Setting W J V
  fetcher : Option (HttpFetcher W J V) → Setting W J V
  parser : Option (HtmlParser W V) → Setting W J V
  cacher : Option (Cacher W V) → Setting W J V
  init : Option J → Setting W J V

module _ {W J V : Type 0} where
  abbrev pub zero_builder : Builder W J V
  zero_builder = record {
    log = false;
    ctx = false;
    cancel_fn = false;
    job_provider = none;
    concurrency = pos 0;
    http_fetcher = none;
    html_parser = none;
    cache = none;
    failed_jobs = false;
    init_job = none;
    exit_on_inactivity = false;
    exit_on_inactivity_duration = pos 0;
  }

  -- The function that a With function returns.
  unfoldable pub apply : Setting W J V → Builder W J V → Result (Builder W J V)
  apply (exit_because_of_inactivity d) b =
      ok (record b { exit_on_inactivity = ltb_ℤ (pos 0) d; exit_on_inactivity_duration = d })
  apply failed b = ok (record b { failed_jobs = true })
  apply (context ctx cancel_fn) b =
      if ctx then ok (record b { ctx = true; cancel_fn = cancel_fn }) else err no_context
  apply (logger log) b = if log then ok (record b { log = true }) else err no_logger
  apply (provider none) b = err nil_provider
  apply (provider (some p)) b = ok (record b { job_provider = some p })
  apply (concurrent n) b =
      if ltb_ℤ n (pos 1) then err bad_concurrency else ok (record b { concurrency = n })
  apply (fetcher none) b = err no_html_fetcher
  apply (fetcher (some f)) b = ok (record b { http_fetcher = some f })
  apply (parser none) b = err no_html_parser
  apply (parser (some p)) b = ok (record b { html_parser = some p })
  apply (cacher none) b = err no_cacher
  apply (cacher (some c)) b = ok (record b { cache = some c })
  apply (init j) b = ok (record b { init_job = j })

  unfoldable pub apply_all : List (Setting W J V) → Builder W J V → Result (Builder W J V)
  apply_all [] b = ok b
  apply_all (o ∷ os) b = do b' ← apply o b; apply_all os b'

  -- From the checks for nil on. The context, its cancel function and the logger get defaults.
  unfoldable pub finish : Builder W J V → Result (ScrapeMate W J V)
  finish b = elim b.job_provider [
    | none ↦ err no_job_provider
    | some p ↦ elim b.http_fetcher [
      | none ↦ err no_html_fetcher
      | some f ↦ ok (record {
        job_provider = p;
        http_fetcher = f;
        html_parser = b.html_parser;
        cache = b.cache;
        concurrency = if eqb_ℤ b.concurrency (pos 0) then pos 1 else b.concurrency;
        failed_jobs = b.failed_jobs;
        init_job = b.init_job;
        exit_on_inactivity = b.exit_on_inactivity;
        exit_on_inactivity_duration = b.exit_on_inactivity_duration;
      })
    ]
  ]

  unfoldable pub new : List (Setting W J V) → Result (ScrapeMate W J V)
  new os = do b ← apply_all os zero_builder; finish b
