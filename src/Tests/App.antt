-- ===== src/Tests/App.antt =====
-- The theorems about config.go and job.go at small inputs.
use scrapemate.Prelude.{
  ℕ, ◌+◌, find, insert, String, str_eq, false, ◌≡◌, refl, pos, ltb_ℤ, ◌≤ℤ◌, true, ◌&&◌, Option,
  none, some, List, [], ◌∷◌, if◌then◌else◌, arith,
}
use scrapemate.Errors.{Error, foreign}
use scrapemate.Errors.{ok}
use scrapemate.Config.{
  Config, Setting, with_concurrency, with_max_pages_per_browser, zero_config, checked, apply,
  apply_all, new_config,
}
use scrapemate.Mate.Env.{replies}
use scrapemate.Job.{Job, Text, on_goto, on_answer, take, browser_actions}
use scrapemate.Response.{Response, zero_response}
use scrapemate.PlaywrightPage.{
  PlaywrightResponse, PlaywrightPage, as_page, goto, after_goto, page_response, answered_with,
  screenshot, add_headers,
}
use scrapemate.NetHttp.{add}
use scrapemate.PlaywrightPage.Actions.{IsCarried, browser_actions-IsCarried}

abbrev AppConfig : Type 0
AppConfig = Config ℕ ℕ ℕ

-- The validator, on two of the tags.
abbrev validate : AppConfig → Option Error
validate o =
    if ltb_ℤ (pos 0) o.concurrency && ltb_ℤ (pos 0) o.max_pages_per_browser
    then none
    else some (foreign "invalid")

abbrev options : List (Setting ℕ ℕ)
options = with_concurrency (pos 7) ∷ with_max_pages_per_browser (pos 3) ∷ []

abbrev seven_workers : AppConfig
seven_workers = record (zero_config {Pr = ℕ} {Wr = ℕ} {J = ℕ}) {
  writers = 1 ∷ [];
  concurrency = pos 7;
  max_pages_per_browser = pos 3;
}

tags :
    (a : AppConfig)
    → validate a ≡ none
    → (pos 1 ≤ℤ a.concurrency) × (pos 1 ≤ℤ a.max_pages_per_browser)
tags a h = ground arith

seven_workers-new : new_config validate (1 ∷ []) options ≡ ok seven_workers
unfolding new_config apply_all apply checked
seven_workers-new = refl

abbrev text : Text
text = record {
  sort_strings = λ ks. ks;
  encode = λ kvs. "query";
  append_string = λ a b. b;
  bytes = λ s. [];
  md5_hex = λ bs. "hash";
}

abbrev get_job : Job ℕ
get_job = record {
  id = "1";
  parent_id = "";
  method = "GET";
  body = [];
  url = "http://example.com";
  headers = [];
  url_params = [];
  timeout = pos 0;
  priority = pos 0;
  max_retries = pos 3;
  check_response = none;
  retry_policy = pos 0;
  max_retry_delay = pos 0;
  take_screenshot = true;
}

abbrev text_html : String → String
text_html name = if str_eq name "content-type" then "Content-Type" else name

abbrev home : PlaywrightResponse ℕ
home = record {
  url = "http://example.com";
  status = pos 200;
  headers = ("content-type", "text/html") ∷ [];
  body = λ w. (ok (60 ∷ []), w + 1);
}

-- A page that loads, and cannot take a screenshot.
abbrev page : PlaywrightPage ℕ ℕ ℕ
page = record {
  goto = λ u wait w. (ok (some home), w + 1);
  url = λ w. "http://example.com";
  content = λ w. (ok "", w);
  reload = λ wait w. (ok (some home), w + 1);
  screenshot = λ full w. (([], some (foreign "no screenshot")), w + 1);
  evaluate = λ js args w. (ok 0, w);
  wait_for_url = λ u timeout w. (none, w);
  wait_for_selector = λ selector timeout w. (ok 0, w);
  wait_for_timeout = λ timeout w. w;
  locator = λ selector. 0;
  close = λ w. (none, w);
  click = λ l timeout w. (none, w);
  count = λ l w. (ok (pos 1), w);
  first = λ l. l;
}

abbrev plain_job : Job ℕ
plain_job = record get_job { take_screenshot = false }

abbrev home_answer : Response ℕ
home_answer = record zero_response {
  url = "http://example.com";
  status_code = pos 200;
  headers = ("Content-Type", "text/html" ∷ []) ∷ [];
  body = 60 ∷ [];
}

plain_job-answer :
    (browser_actions text (as_page text_html page) plain_job 0).0 ≡ replies home_answer
unfolding browser_actions on_goto on_answer take goto after_goto page_response answered_with
    screenshot add_headers add find insert
plain_job-answer = refl

browser_actions-IsCarried_example :
    IsCarried text text_html page plain_job (ok (some home)) 1 home_answer
browser_actions-IsCarried_example =
    browser_actions-IsCarried text text_html page plain_job 0 home_answer plain_job-answer refl
