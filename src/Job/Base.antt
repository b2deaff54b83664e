-- ===== src/Job/Base.antt =====
-- The base job of job.go as a job of the scraper: its methods as they are when no type that embeds it overrides them.
use scrapemate.Prelude.{ℕ, ℤ, String, Bool, true, false, none, List, [], ◌≡◌, refl, arith}
use scrapemate.Response.{Response}
use scrapemate.Mate.Env.{IJob, ScrapeMate, Processed, Reply, replies}
use scrapemate.Mate.Triple.{Triple}
use scrapemate.Mate.DoJob.{do_job}
use scrapemate.Mate.DoJob.Results.{attempt-result}
use scrapemate.Mate.DoJob.Named.{do_job-Triple_named}
use scrapemate.Mate.InitJob.Termination.{Shrinks}
use scrapemate.Job.{Job, Text, do_check_response, get_max_retry_delay, get_cache_key, get_full_url}
use scrapemate.NetHttp.{Target}

module _ {V : Type 0} where
  unfoldable pub process_on_fetch_error : Job V → Bool
  process_on_fetch_error j = false

  unfoldable pub use_in_results : Job V → Bool
  use_in_results j = true

  unfoldable pub process : Job V → Response V → Processed (Job V) V
  process j resp = record { result = none; next = []; err = none }

  unfoldable pub get_retry_policy : Job V → ℤ
  get_retry_policy j = j.retry_policy

  unfoldable pub get_max_retries : Job V → ℤ
  get_max_retries j = j.max_retries

  unfoldable pub get_method : Job V → String
  get_method j = j.method

  unfoldable pub get_body : Job V → List ℕ
  get_body j = j.body

  unfoldable pub get_headers : Job V → List (String × String)
  get_headers j = j.headers

  unfoldable pub get_timeout : Job V → ℤ
  get_timeout j = j.timeout

  unfoldable pub get_priority : Job V → ℤ
  get_priority j = j.priority

  -- What the HTTP fetchers read of a base job.
  abbrev pub target_of : Text → Job V → Target
  target_of text j = record {
    full_url = get_full_url text j;
    method = get_method j;
    body = get_body j;
    headers = get_headers j;
  }

module _ {W V : Type 0} (text : Text) where
  unfoldable pub base_ijob : IJob W (Job V) V
  base_ijob = record {
    get_id = λ j. replies j.id;
    get_cache_key = get_cache_key text;
    get_priority = get_priority;
    get_timeout = get_timeout;
    get_retry_policy = get_retry_policy;
    get_max_retries = get_max_retries;
    get_max_retry_delay = get_max_retry_delay;
    use_in_results = use_in_results;
    process_on_fetch_error = process_on_fetch_error;
    do_check_response = λ j resp w. (replies (do_check_response j resp, resp), w);
    process = λ j resp w. (replies (process j resp), w);
  }

  -- A type that embeds a base job and has a Process of its own.
  unfoldable pub embedding :
      {J : Type 0} → (J → Job V) → (J → Response V → W → Reply (Processed J V) × W) → IJob W J V
  embedding job own = record {
    get_id = λ j. replies (job j).id;
    get_cache_key = λ j. get_cache_key text (job j);
    get_priority = λ j. get_priority (job j);
    get_timeout = λ j. get_timeout (job j);
    get_retry_policy = λ j. get_retry_policy (job j);
    get_max_retries = λ j. get_max_retries (job j);
    get_max_retry_delay = λ j. get_max_retry_delay (job j);
    use_in_results = λ j. use_in_results (job j);
    process_on_fetch_error = λ j. process_on_fetch_error (job j);
    do_check_response = λ j resp w. (replies (do_check_response (job j) resp, resp), w);
    process = own;
  }

  -- DoJob of a base job returns, with no value and no next jobs, whether it fails or not.
  do_job-base :
      (mate : ScrapeMate W (Job V) V) (j : Job V)
      → Triple
          (λ s. Unit {0})
          (do_job base_ijob mate j)
          (λ p _. (p.result ≡ none) × (p.next ≡ []))
          (λ _. ⊥)
  unfolding base_ijob process
  do_job-base mate j =
      do_job-Triple_named base_ijob mate j
        (attempt-result base_ijob mate j (λ p. (p.result ≡ none) × (p.next ≡ []))
          (λ e. (refl, refl)) (λ resp w w' p e. (ground arith, ground arith)))
        j.id refl

  -- An init job that is a base job is the only one.
  base_ijob-Shrinks : Shrinks base_ijob (λ j. 1)
  unfolding base_ijob process
  base_ijob-Shrinks = record {
    named = λ j. (j.id, refl);
    positive = λ j. omega arith;
    smaller =
        λ j resp w w' p e. let nothing : p.next ≡ [] = ground arith in rw nothing (omega arith);
  }
