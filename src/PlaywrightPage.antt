-- ===== src/PlaywrightPage.antt =====
-- The page adapter of adapters/browsers/playwright/page.go. Playwright's page is foreign: its calls are
-- functions of the world `W`, its locators have the type `L`, what JavaScript gives the type `A`. The listeners
-- of OnRequest and OnResponse are in JsFetcher.Hooks.
pub mod Headers
pub mod Actions
use scrapemate.Prelude.{
  ℕ, ℤ, div_ℤ, String, Bool, Option, none, some, List, [], ◌∷◌, if◌then◌else◌, str_eq,
}
use scrapemate.Errors.{Error, Result, ok, err}
use scrapemate.Mate.Env.{Reply, replies, throws}
use scrapemate.NetHttp.{add}
use scrapemate.Job.{
  PageResponse, BrowserPage, wait_until_load, wait_until_dom_content_loaded,
  wait_until_network_idle,
}

-- playwright.WaitUntilState, as far as the adapter uses it.
pub data WaitUntil : Type 0 where
  load domcontentloaded networkidle : WaitUntil

-- Reading the body may fail; the headers are a map.
pub record PlaywrightResponse (W : Type 0) : Type 0 where
  pub url : String
  pub status : ℤ
  pub headers : List (String × String)
  pub body : W → Result (List ℕ) × W

-- A Goto without an error may give no response.
pub record PlaywrightPage (W L A : Type 0) : Type 0 where
  pub goto : String → WaitUntil → W → Result (Option (PlaywrightResponse W)) × W
  pub url : W → String
  pub content : W → Result String × W
  pub reload : WaitUntil → W → Result (Option (PlaywrightResponse W)) × W
  pub screenshot : Bool → W → (List ℕ × Option Error) × W
  pub evaluate : String → List A → W → Result A × W
  pub wait_for_url : String → ℤ → W → Option Error × W
  pub wait_for_selector : String → ℤ → W → Result L × W
  pub wait_for_timeout : ℤ → W → W
  pub locator : String → L
  pub close : W → Option Error × W
  pub click : L → ℤ → W → Option Error × W
  pub count : L → W → Result ℤ × W
  pub first : L → L

unfoldable pub to_playwright_wait_until : String → WaitUntil
to_playwright_wait_until state =
    if str_eq state wait_until_load
    then load
    else if str_eq state wait_until_dom_content_loaded
    then domcontentloaded
    else if str_eq state wait_until_network_idle
    then networkidle
    else load

-- Milliseconds of time.Duration, which a float64 holds exactly.
unfoldable pub milliseconds : ℤ → ℤ
milliseconds d = div_ℤ d 1000000

-- `headers.Add` for each header of Playwright's map, in the order in which Go's range gives them here; `canonical` is http.CanonicalHeaderKey.
unfoldable pub add_headers :
    (String → String)
    → List (String × String)
    → List (String × List String)
    → List (String × List String)
add_headers canonical [] headers = headers
add_headers canonical ((k, v) ∷ kvs) headers =
    add_headers canonical kvs (add (canonical k) v headers)

-- Goto after the body is read, and from where it is read on.
unfoldable pub answered_with :
    {W : Type 0}
    → (String → String)
    → PlaywrightResponse W
    → Result (List ℕ)
    → Reply (Option PageResponse × Option Error)
answered_with canonical resp (err e) = replies (none, some e)
answered_with canonical resp (ok body) = replies (
  some (record {
    url = resp.url;
    status_code = resp.status;
    headers = add_headers canonical resp.headers [];
    body = body;
  }),
  none,
)

unfoldable pub page_response :
    {W : Type 0}
    → (String → String)
    → PlaywrightResponse W
    → W
    → Reply (Option PageResponse × Option Error) × W
page_response canonical resp w = let (r, w') = resp.body w in (answered_with canonical resp r, w')

-- Goto after the call of Playwright; a nil response panics.
unfoldable pub after_goto :
    {W : Type 0}
    → (String → String)
    → Result (Option (PlaywrightResponse W))
    → W
    → Reply (Option PageResponse × Option Error) × W
after_goto canonical (err e) w = (replies (none, some e), w)
after_goto canonical (ok none) w = (throws, w)
after_goto canonical (ok (some resp)) w = page_response canonical resp w

-- The error alone of a call, as in `_, err :=`.
abbrev pub error_of : {X : Type 0} → Result X → Option Error
error_of (err e) = some e
error_of (ok x) = none

module _ {W L A : Type 0} (canonical : String → String) (page : PlaywrightPage W L A) where
  unfoldable pub goto :
      (url wait_until : String) → W → Reply (Option PageResponse × Option Error) × W
  goto url wait_until w =
      let (r, w') = page.goto url (to_playwright_wait_until wait_until) w in
      after_goto canonical r w'

  unfoldable pub url : W → String
  url w = page.url w

  unfoldable pub content : W → Result String × W
  content w = page.content w

  unfoldable pub reload : String → W → Option Error × W
  reload wait_until w =
      let (r, w') = page.reload (to_playwright_wait_until wait_until) w in (error_of r, w')

  unfoldable pub screenshot : Bool → W → (List ℕ × Option Error) × W
  screenshot full_page w = page.screenshot full_page w

  unfoldable pub eval : String → List A → W → Result A × W
  eval js args w = page.evaluate js args w

  unfoldable pub wait_for_url : String → ℤ → W → Option Error × W
  wait_for_url url timeout w = page.wait_for_url url (milliseconds timeout) w

  unfoldable pub wait_for_selector : String → ℤ → W → Option Error × W
  wait_for_selector selector timeout w =
      let (r, w') = page.wait_for_selector selector (milliseconds timeout) w in (error_of r, w')

  unfoldable pub wait_for_timeout : ℤ → W → W
  wait_for_timeout timeout w = page.wait_for_timeout (milliseconds timeout) w

  unfoldable pub locator : String → L
  locator selector = page.locator selector

  unfoldable pub close : W → Option Error × W
  close w = page.close w

  unfoldable pub click : L → ℤ → W → Option Error × W
  click l timeout w = page.click l (milliseconds timeout) w

  unfoldable pub count : L → W → Result ℤ × W
  count l w = page.count l w

  unfoldable pub first : L → L
  first l = page.first l

  -- The adapter as the page that the base job gets.
  abbrev pub as_page : BrowserPage W
  as_page = record { goto = goto; screenshot = screenshot }
