-- ===== src/Tests/Logins.antt =====
-- The login of the example at a site whose every page has a form with a token.
use scrapemate.Prelude.{ℕ, ◌+◌, pos, ◌<>◌, false, none, some, [], ◌∷◌, refl, true}
use scrapemate.Errors.{ok}
use scrapemate.Response.{zero_response}
use scrapemate.Mate.Env.{replies, ScrapeMate}
use scrapemate.Mate.Triple.{Triple}
use scrapemate.Mate.Worker.Accounts.{Account}
use scrapemate.Mate.InitJob.{process_init_job}
use scrapemate.Job.{Text}
use scrapemate.Html.{Goquery, new}
use scrapemate.Examples.Login.{LoginFlow, login_ijob, new_login_crsf_token, login_flow-ends}

abbrev text : Text
text = record {
  sort_strings = λ xs. xs;
  encode = λ kvs. "";
  append_string = λ s t. s <> t;
  bytes = λ s. [];
  md5_hex = λ bs. "";
}

abbrev goquery : Goquery ℕ ℕ
goquery = record {
  new_document = λ body. ok 7;
  find = λ doc sel. doc;
  find_in = λ s sel. s;
  text = λ s. "Logout";
  attr = λ s name. some "token";
  items = λ s. s ∷ [];
}

abbrev mate : ScrapeMate ℕ (LoginFlow ℕ) ℕ
mate = record {
  job_provider = record { push = λ j w. (replies none, w + 1) };
  http_fetcher = record {
    fetch = λ j w. (replies (record (zero_response {V = ℕ}) { status_code = pos 200 }), w + 1);
  };
  html_parser = some (new goquery (λ doc. doc));
  cache = none;
  concurrency = pos 1;
  failed_jobs = false;
  init_job = some new_login_crsf_token;
  exit_on_inactivity = true;
  exit_on_inactivity_duration = pos 10000000000;
}

login_flow-ends_example :
    Triple
      (Account 0 0 0)
      (process_init_job (login_ijob goquery (λ doc. some doc) (λ kvs. []) text) mate 2)
      (λ _. Account 0 0 0)
      (λ _. ⊥)
login_flow-ends_example = login_flow-ends goquery (λ doc. some doc) (λ kvs. []) text mate 0 0 0 refl
