-- ===== src/Tests/Applications.antt =====
-- The theorems about an application and its JavaScript fetcher at small configurations.
use scrapemate.Prelude.{
  ℕ, suc, ◌≤◌, ◌≤ℤ◌, ◌≡◌, refl, pos, true, false, Option, none, some, List, [], ◌∷◌, arith,
  if◌then◌else◌, leb_ℤ, find, div_ℤ, wrap64, ◌-ℤ◌, ◌+ℤ◌,
}
use scrapemate.Errors.{Error, foreign, canceled, Result, ok, err}
use scrapemate.Response.{Response, zero_response}
use scrapemate.Mate.Env.{replies, JobProvider, HttpFetcher}
use scrapemate.Config.{
  Config, Setting, with_concurrency, zero_config, new_config, derived_browser_pool_size, apply_all,
  apply, checked,
}
use scrapemate.Proxy.{Net}
use scrapemate.PageSlots.{Pool, new_page_slot_pool, sent}
use scrapemate.JsFetcher.Create.{
  JsFetch, Playwright, new_js_fetcher, start_proxies, make_fetcher, add_all_slots, add_slots,
}
use scrapemate.JsFetcher.Create.Places.{places}
use scrapemate.JsFetcher.PageFetch.{fetch_with_page_slot}
use scrapemate.JsFetcher.PageFetch.Served.{IsServed, fetch_with_page_slot-IsServed}
use scrapemate.NetHttp.{Target, Reception, Unzip, Client, http_fetch}
use scrapemate.NetHttp.Bodies.{http_fetch-Carries}
use scrapemate.Application.{js_fetcher_options, get_rotator, get_js_fetcher, get_fetcher_js, Parts}
use scrapemate.Application.Workers.{get_fetcher_js-places}

abbrev net : Net
net = record { parse = λ s. err (foreign "parse"); text = λ u. ""; to_lower = λ s. s }

abbrev listen : ℕ → Result ℕ × ℕ
listen w = (ok w, suc w)

abbrev playwright : Playwright
playwright = record { install = none; run = none; new_slot = λ i. none }

abbrev three_workers : Config ℕ ℕ ℕ
three_workers = record (zero_config {Pr = ℕ} {Wr = ℕ} {J = ℕ}) {
  concurrency = pos 3;
  max_pages_per_browser = pos 2;
  use_js = true;
}

abbrev two_browsers : JsFetch
two_browsers = record {
  options = js_fetcher_options three_workers none;
  proxy_pool = none;
  max_pages_per_browser = 2;
  page_slots = some (new_page_slot_pool 2 2 (λ i. none)).0;
  slots = none;
}

get_fetcher_js-places_example : 3 ≤ places two_browsers
unfolding get_fetcher_js get_rotator get_js_fetcher new_js_fetcher start_proxies make_fetcher
    add_all_slots derived_browser_pool_size div_ℤ wrap64 ◌-ℤ◌ ◌+ℤ◌ add_slots new_page_slot_pool
get_fetcher_js-places_example =
    get_fetcher_js-places net (λ s. s) listen playwright three_workers 0 two_browsers 3 2 refl refl
      refl (omega arith) (omega arith) refl

abbrev pool : Pool
pool = (new_page_slot_pool 1 2 (λ i. none)).0

abbrev answer : Response ℕ
answer = record zero_response { status_code = pos 200 }

fetch_with_page_slot-IsServed_example :
    IsServed
      (λ i. none)
      (λ i. answer)
      0
      (record { active = pos 0; closed = false; browser_usage = pos 0 })
      (0 ∷ [])
      pool
      (fetch_with_page_slot (λ i. none) (λ i. answer) sent canceled pool)
unfolding new_page_slot_pool
fetch_with_page_slot-IsServed_example =
    fetch_with_page_slot-IsServed (λ i. none) (λ i. answer) 0 (0 ∷ []) pool
      (record { active = pos 0; closed = false; browser_usage = pos 0 }) canceled refl refl refl

abbrev memory : JobProvider ℕ ℕ
memory = record { push = λ j w. (replies none, suc w) }

abbrev plain : HttpFetcher ℕ ℕ ℕ
plain = record { fetch = λ j w. (replies answer, suc w) }

abbrev parts : Parts ℕ ℕ ℕ
parts = record {
  memory = memory;
  goquery = record { parse = λ body w. (replies (none, none), w) };
  file_cache = λ path w. (err (foreign "no cache"), w);
  level_db_cache = λ path w. (err (foreign "no cache"), w);
  js_fetcher = λ rotator w. (replies (err (foreign "no browser")), w);
  stealth_fetcher = λ browser rotator. plain;
  cookie_jar = none;
  http_fetcher = λ rotator. plain;
}

abbrev validate : Config (JobProvider ℕ ℕ) ℕ ℕ → Option Error
validate o = if leb_ℤ (pos 1) o.concurrency then none else some (foreign "concurrency")

abbrev four_workers : Config (JobProvider ℕ ℕ) ℕ ℕ
four_workers = record (zero_config {Pr = JobProvider ℕ ℕ} {Wr = ℕ} {J = ℕ}) {
  concurrency = pos 4;
  writers = 1 ∷ [];
}

abbrev options : List (Setting (JobProvider ℕ ℕ) ℕ)
options = with_concurrency (pos 4) ∷ []

four_workers-new : new_config validate (1 ∷ []) options ≡ ok four_workers
unfolding new_config apply_all apply checked
four_workers-new = refl

tags : (a : Config (JobProvider ℕ ℕ) ℕ ℕ) → validate a ≡ none → pos 1 ≤ℤ a.concurrency
tags a h = ground arith

-- The server sends the byte 5, zipped.
abbrev zip : List ℕ → List ℕ
zip content = 31 ∷ content

abbrev unzip : Unzip
unzip = record { new_reader_error = λ bytes e. e; read_all = λ bytes e. (5 ∷ [], e) }

abbrev reception : Reception
reception = record {
  status_code = pos 200;
  header = ("Content-Encoding", "gzip" ∷ []) ∷ [];
  body = 31 ∷ 5 ∷ [];
  body_error = none;
  url = "http://b/";
}

abbrev client : Client
client = record { new_request_error = λ method url. none; do_request = λ r. ok reception }

abbrev target : Target
target = record {
  full_url = "http://b/";
  method = "GET";
  body = [];
  headers = ("Accept", "*/*") ∷ [];
}

http_fetch-Carries_example : http_fetch {V = ℕ} unzip client target ≡ record zero_response {
  status_code = pos 200;
  headers = ("Content-Encoding", "gzip" ∷ []) ∷ [];
  body = 5 ∷ [];
  url = "http://b/";
}
unfolding find
http_fetch-Carries_example =
    http_fetch-Carries unzip client zip (5 ∷ []) target reception refl (λ request h. refl)
      (record { whole = refl; opens = refl; inverse = refl; body = refl })
