-- ===== src/Mate/Env.antt =====
-- The interfaces that scrapemate.go calls: `IJob` of job.go and those of services.go. `W` is
-- everything outside the program, `J` the jobs, `V` the values of Go's `any`.
use scrapemate.Prelude.{ℕ, ℤ, String, Bool, Option, List}
use scrapemate.Errors.{Error}
use scrapemate.Response.{Response}

-- A call of foreign code returns, or panics.
pub data Reply (A : Type 0) : Type 0 where
  replies : A → Reply A
  throws : Reply A

-- The three results of `Process` and of `DoJob`.
pub record Processed (J V : Type 0) : Type 0 where
  pub result : Option V
  pub next : List J
  pub err : Option Error

pub record IJob (W J V : Type 0) : Type 0 where
  -- GetID panics on a nil job.
  pub get_id : J → Reply String
  pub get_cache_key : J → String
  pub get_priority : J → ℤ
  pub get_timeout : J → ℤ
  pub get_retry_policy : J → ℤ
  pub get_max_retries : J → ℤ
  pub get_max_retry_delay : J → ℤ
  pub use_in_results : J → Bool
  pub process_on_fetch_error : J → Bool
  -- DoCheckResponse has a pointer to the response, and may write to it.
  pub do_check_response : J → Response V → W → Reply (Bool × Response V) × W
  pub process : J → Response V → W → Reply (Processed J V) × W

pub record HttpFetcher (W J V : Type 0) : Type 0 where
  pub fetch : J → W → Reply (Response V) × W

pub record HtmlParser (W V : Type 0) : Type 0 where
  pub parse : List ℕ → W → Reply (Option V × Option Error) × W

pub record Cacher (W V : Type 0) : Type 0 where
  pub get : String → W → Reply (Response V × Option Error) × W
  pub set : String → Response V → W → Reply (Option Error) × W

pub record JobProvider (W J : Type 0) : Type 0 where
  pub push : J → W → Reply (Option Error) × W

-- The clock, and whether a reader takes a failed job before its timeout.
pub record Runtime (W J : Type 0) : Type 0 where
  pub now : W → ℕ
  pub take_failed : J → W → Bool × W

-- The fields of `ScrapeMate` that no method writes after `New`. A nil field is `none`;
-- `failed_jobs` says whether that channel was made.
pub record ScrapeMate (W J V : Type 0) : Type 0 where
  pub job_provider : JobProvider W J
  pub http_fetcher : HttpFetcher W J V
  pub html_parser : Option (HtmlParser W V)
  pub cache : Option (Cacher W V)
  pub concurrency : ℤ
  pub failed_jobs : Bool
  pub init_job : Option J
  pub exit_on_inactivity : Bool
  pub exit_on_inactivity_duration : ℤ
