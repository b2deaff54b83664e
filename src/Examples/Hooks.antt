-- ===== src/Examples/Hooks.antt =====
-- The job of examples/quotes-to-scrape-hooks/main.go, on a page with hooks. The events that Playwright gives while
-- the page loads are lists, and the page's calls those of PlaywrightPage.
use scrapemate.Prelude.{
  ℕ, pos, ℤ, String, str_eq, Bool, Option, none, some, List, [], ◌∷◌, ◌++◌, length, if◌then◌else◌,
  find, insert,
}
use scrapemate.Errors.{Error, foreign, ok, err}
use scrapemate.Response.{Response, zero_response}
use scrapemate.Mate.Env.{Processed, Reply, replies, throws}
use scrapemate.Proxy.{contains}
use scrapemate.Job.{Job, Text, PageResponse, get_full_url, wait_until_network_idle}
use scrapemate.Html.{Goquery}
use scrapemate.Examples.{default_user_agent, get_job}
use scrapemate.PlaywrightPage.{
  PlaywrightPage, goto, wait_for_selector, eval, wait_for_timeout, content,
}

record RequestEvent : Type 0 where
  pub url : String
  pub headers : List (String × String)

record ResponseEvent : Type 0 where
  pub url : String
  pub status_code : ℤ
  pub headers : List (String × String)

record HookResult : Type 0 where
  pub page_url : String
  pub status_code : ℤ
  pub visible_quotes : ℕ
  pub requests : List RequestEvent
  pub responses : List ResponseEvent

unfoldable is_quotes_api : String → Bool
is_quotes_api raw_url = contains raw_url "/api/quotes"

-- `headers[name]`, which is "" for a name that is not there.
abbrev header : List (String × String) → String → String
header headers name = elim (find name headers) [ none ↦ "" | some v ↦ v ]

-- The loop of pickHeaders.
unfoldable pick :
    List (String × String) → List String → List (String × String) → List (String × String)
pick headers [] picked = picked
pick headers (name ∷ names) picked =
    pick headers names
      (if str_eq (header headers name) "" then picked else insert name (header headers name) picked)

abbrev pick_headers : List (String × String) → List String → List (String × String)
pick_headers headers names = pick headers names []

-- What the job keeps; its mutex makes each handler one step.
record Kept : Type 0 where
  pub requests : List RequestEvent
  pub responses : List ResponseEvent

unfoldable hooks_on_request : String → List (String × String) → Kept → Kept
hooks_on_request url headers k =
    if is_quotes_api url
    then record k {
      requests =
          k.requests
          ++ (record { url = url; headers = pick_headers headers ("accept" ∷ "user-agent" ∷ []) }
              ∷ []);
    }
    else k

unfoldable hooks_on_response : String → ℤ → List (String × String) → Kept → Kept
hooks_on_response url status_code headers k =
    if is_quotes_api url
    then record k {
      responses =
          k.responses
          ++ (record {
            url = url;
            status_code = status_code;
            headers = pick_headers headers ("content-type" ∷ "server" ∷ []);
          }
              ∷ []);
    }
    else k

abbrev new_quote_hooks_job : {V : Type 0} → Job V
new_quote_hooks_job = record get_job {
  id = "quotes-to-scrape-hooks";
  url = "https://quotes.toscrape.com/scroll";
  headers = ("User-Agent", default_user_agent) ∷ [];
  timeout = pos 20000000000;
  max_retries = pos 1;
}

module _ {V W L A : Type 0} (text : Text) (bytes : String → List ℕ) (canonical : String → String)
    (page : PlaywrightPage W L A) where
  abbrev hooks_failed : Error → Response V
  hooks_failed e = record zero_response { error = some e }

  -- The last return; a nil response panics.
  unfoldable quotes_answer : Option PageResponse → String → Reply (Response V)
  quotes_answer none body = throws
  quotes_answer (some response) body = replies (record zero_response {
    url = response.url;
    status_code = response.status_code;
    headers = response.headers;
    body = bytes body;
  })

  -- From Content on.
  unfoldable read_content : Option PageResponse → W → Reply (Response V) × W
  read_content response w =
      let (r, w') = content canonical page w in
      elim r [
        | err e ↦ (replies (hooks_failed e), w')
        | ok body ↦ (quotes_answer response body, w')
      ]

  -- From Eval on, which scrolls to the end of the page.
  unfoldable scroll : Option PageResponse → W → Reply (Response V) × W
  scroll response w =
      let (r, w') = eval canonical page "window.scrollTo(0, document.body.scrollHeight)" [] w in
      elim r [
        | err e ↦ (replies (hooks_failed e), w')
        | ok value ↦ read_content response (wait_for_timeout canonical page (pos 1000000000) w')
      ]

  unfoldable wait_for_quotes : Option PageResponse → W → Reply (Response V) × W
  wait_for_quotes response w =
      let (e, w') = wait_for_selector canonical page ".quote" (pos 10000000000) w in
      elim e [ some e ↦ (replies (hooks_failed e), w') | none ↦ scroll response w' ]

  unfoldable hooks_on_goto : Reply (Option PageResponse × Option Error) → W → Reply (Response V) × W
  hooks_on_goto throws w = (throws, w)
  hooks_on_goto (replies (answer, some e)) w = (replies (hooks_failed e), w)
  hooks_on_goto (replies (answer, none)) w = wait_for_quotes answer w

  -- BrowserActions, after the two hooks are registered.
  unfoldable hooks_browser_actions : Job V → W → Reply (Response V) × W
  hooks_browser_actions j w =
      let (r, w') = goto canonical page (get_full_url text j) wait_until_network_idle w in
      hooks_on_goto r w'

module _ {D S V : Type 0} (goquery : Goquery D S) (as_document : V → Option D)
    (of_result : HookResult → V) where
  unfoldable process_hooks : Kept → Response V → Processed (Job V) V
  process_hooks k resp =
      elim (elim resp.document as (λ _. Option D) [ none ↦ none | some v ↦ as_document v ]) [
        | none ↦ record { result = none; next = []; err = some (foreign "invalid document type") }
        | some doc ↦ record {
          result = some (
              of_result (record {
                page_url = resp.url;
                status_code = resp.status_code;
                visible_quotes = length (goquery.items (goquery.find doc ".quote"));
                requests = k.requests;
                responses = k.responses;
              }));
          next = [];
          err = none;
        }
      ]
