-- ===== src/Tests/Sample.antt =====
-- A small scraper: jobs and values are numbers, the world is one too. Every fetch is answered
-- with the status 500 and rejected; job `n` leads to the job `n - 1`.
use scrapemate.Prelude.{ℕ, zero, suc, ◌+◌, ◌^◌, pos, true, false, none, some, List, [], ◌∷◌}
use scrapemate.Response.{Response, zero_response}
use scrapemate.Mate.Env.{replies, IJob, Cacher, Runtime, ScrapeMate}
use scrapemate.Mate.Exec.{State}

abbrev pub before : ℕ → List ℕ
before zero = []
before (suc n) = n ∷ []

abbrev pub ijob : IJob ℕ ℕ ℕ
ijob = record {
  get_id = λ j. replies "id";
  get_cache_key = λ j. "key";
  get_priority = λ j. pos 0;
  get_timeout = λ j. pos 0;
  get_retry_policy = λ j. pos 0;
  get_max_retries = λ j. pos 5;
  get_max_retry_delay = λ j. pos 300000000;
  use_in_results = λ j. true;
  process_on_fetch_error = λ j. true;
  do_check_response = λ j resp w. (replies (false, resp), w);
  process = λ j resp w. (replies (record { result = some j; next = before j; err = none }), w);
}

abbrev pub server_error : Response ℕ
server_error = record (zero_response {V = ℕ}) { status_code = pos 500 }

abbrev pub mate : ScrapeMate ℕ ℕ ℕ
mate = record {
  job_provider = record { push = λ j w. (replies none, w + 1) };
  http_fetcher = record { fetch = λ j w. (replies server_error, w + 1) };
  html_parser = none;
  cache = none;
  concurrency = pos 1;
  failed_jobs = false;
  init_job = some 2;
  exit_on_inactivity = true;
  exit_on_inactivity_duration = pos 10000000000;
}

abbrev pub cache : Cacher ℕ ℕ
cache = record {
  get = λ key w. (replies (server_error, none), w);
  set = λ key resp w. (replies none, w);
}

abbrev pub cached_mate : ScrapeMate ℕ ℕ ℕ
cached_mate = record mate { cache = some cache }

abbrev pub runtime : Runtime ℕ ℕ
runtime = record { now = λ w. 2 ^ 63 + w; take_failed = λ j w. (false, w) }

abbrev pub fresh : State ℕ ℕ ℕ
fresh = record {
  world = 0;
  cause = none;
  stats = record { num_of_jobs_completed = 0; num_of_jobs_failed = 0; last_activity_at = 0 };
  trace = [];
}
