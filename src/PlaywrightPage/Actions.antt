-- ===== src/PlaywrightPage/Actions.antt =====
-- The base job's BrowserActions on a page of Playwright, through the adapter.
use scrapemate.Prelude.{
  ℕ, ℤ, pos, ◌≤ℤ◌, ◌<ℤ◌, String, true, Option, none, some, List, [], find, ◌≡◌, ◌↔◌, refl, sym, ap,
  ◌∙◌, arith, Bool-cases, Option-cases, inl, inr, subst,
}
use scrapemate.Errors.{Result, ok, err}
use scrapemate.Mate.Env.{replies}
use scrapemate.Response.{Response}
use scrapemate.Job.{Job, Text, get_full_url, browser_actions, on_goto, on_answer, take}
use scrapemate.Job.Checks.{IsAnswered, IsGood, browser_actions-IsGood}
use scrapemate.PlaywrightPage.Headers.{values, sent_values, values-add_headers}
use scrapemate.PlaywrightPage.{
  PlaywrightPage, PlaywrightResponse, networkidle, answered_with, page_response, after_goto,
  as_page, goto, screenshot, to_playwright_wait_until,
}

module _ {V W L A : Type 0} (text : Text) (canonical : String → String)
    (page : PlaywrightPage W L A) where
  -- The body was read, the status is from 200 to 299, and the screenshot was taken if the job wants one.
  pub record IsRead (j : Job V) (status : ℤ) (r : Result (List ℕ)) (w : W) : Type 0 where
    pub body : List ℕ
    pub read : r ≡ ok body
    pub low : pos 200 ≤ℤ status
    pub high : status <ℤ pos 300
    pub shot : j.take_screenshot ≡ true → (page.screenshot true w).0.1 ≡ none

  -- Playwright answered with a response.
  pub record IsServedBy (j : Job V) (r : Result (Option (PlaywrightResponse W))) (w : W)
      : Type 0 where
    pub response : PlaywrightResponse W
    pub loaded : r ≡ ok (some response)
    pub rest : IsRead j response.status (response.body w).0 (response.body w).1

  answered_with-IsAnswered :
      (j : Job V) (resp : PlaywrightResponse W) (r : Result (List ℕ)) (w : W)
      → IsAnswered text (as_page canonical page) j (answered_with canonical resp r) w
        ↔ IsRead j resp.status r w
  unfolding answered_with screenshot
  answered_with-IsAnswered j resp (err e) w = (
    λ q. absurd (let n = q.no_error in ground arith),
    λ q. absurd (let n = q.read in ground arith),
  )
  answered_with-IsAnswered j resp (ok body) w = (
    λ q.
        let n = q.loaded in
        let l = q.low in
        let h = q.high in
        record { body = body; read = refl; low = ground arith; high = ground arith; shot = q.shot },
    λ q. record {
      no_error = refl;
      response = _;
      loaded = refl;
      low = q.low;
      high = q.high;
      shot = q.shot;
    },
  )

  after_goto-IsAnswered :
      (j : Job V) (r : Result (Option (PlaywrightResponse W))) (w : W)
      → let (a, w') = after_goto canonical r w in
        IsAnswered text (as_page canonical page) j a w' ↔ IsServedBy j r w
  unfolding after_goto page_response
  after_goto-IsAnswered j (err e) w = (
    λ q. absurd (let n = q.no_error in ground arith),
    λ q. absurd (let n = q.loaded in ground arith),
  )
  after_goto-IsAnswered j (ok none) w =
      (λ q. absurd q, λ q. absurd (let n = q.loaded in ground arith))
  after_goto-IsAnswered j (ok (some resp)) w =
      let (r, w') = resp.body w in
      let (to, from) = answered_with-IsAnswered j resp r w' in
      (
        λ q. record { response = resp; loaded = refl; rest = to q },
        λ q.
            let same : q.response ≡ resp = (let n = q.loaded in ground arith) in
            from (subst (λ x. IsRead j x.status (x.body w).0 (x.body w).1) same q.rest),
      )

  -- For a job without a check of its own: its browser actions on a page of Playwright end with a response
  -- that has no error and passes the check exactly if Playwright, asked for the job's full URL and to wait
  -- for the network to be idle, answers with a response, not nil, with a status from 200 to 299, whose body can be read,
  -- and also the screenshot can be taken where the job asks for one.
  browser_actions-IsServedBy :
      (j : Job V) (w : W)
      → j.check_response ≡ none
      → let (r, w') = page.goto (get_full_url text j) networkidle w in
        IsGood text (as_page canonical page) j (browser_actions text (as_page canonical page) j w).0
        ↔ IsServedBy j r w'
  unfolding goto to_playwright_wait_until
  browser_actions-IsServedBy j w h =
      let (r, w') = page.goto (get_full_url text j) networkidle w in
      let (to, from) = browser_actions-IsGood text (as_page canonical page) j w h in
      let (there, back) = after_goto-IsAnswered j r w' in (λ q. there (to q), λ q. from (back q))

  -- What a response has of the one it was made from.
  record Keeps (j : Job V) (before after : Response V) (w : W) : Type 0 where
    url : after.url ≡ before.url
    status_code : after.status_code ≡ before.status_code
    headers : after.headers ≡ before.headers
    body : after.body ≡ before.body
    shot : j.take_screenshot ≡ true → (page.screenshot true w).0 ≡ (after.screenshot, none)

  take-Keeps :
      (j : Job V) (before after : Response V) (w : W)
      → (take text (as_page canonical page) j before w).0 ≡ replies after
      → after.error ≡ none
      → Keeps j before after w
  unfolding take screenshot
  take-Keeps j before after w h fine = elim (Bool-cases j.take_screenshot) [
    | inl wanted ↦ elim (Option-cases (page.screenshot true w).0.1) [
      | inl none_yet ↦ record {
        url = ground arith;
        status_code = ground arith;
        headers = ground arith;
        body = ground arith;
        shot = λ on. ground arith;
      }
      | inr (e, failed) ↦ absurd (ground arith)
    ]
    | inr unwanted ↦ record {
      url = ground arith;
      status_code = ground arith;
      headers = ground arith;
      body = ground arith;
      shot = λ on. absurd (ground arith);
    }
  ]

  -- A response is the one that Playwright gave, with its body as it was read and, of the headers, the values
  -- of each canonical name in their order.
  pub record IsCarried (j : Job V) (r : Result (Option (PlaywrightResponse W))) (w : W)
      (resp : Response V) : Type 0 where
    pub response : PlaywrightResponse W
    pub loaded : r ≡ ok (some response)
    pub url : resp.url ≡ response.url
    pub status_code : resp.status_code ≡ response.status
    pub headers : (c : String) → values c resp.headers ≡ sent_values canonical c response.headers
    pub body : (response.body w).0 ≡ ok resp.body
    pub shot :
        j.take_screenshot ≡ true
        → (page.screenshot true (response.body w).1).0 ≡ (resp.screenshot, none)

  answered_with-IsCarried :
      (j : Job V) (resp : PlaywrightResponse W) (w : W) (r : Result (List ℕ)) (w' : W)
      (after : Response V)
      → resp.body w ≡ (r, w')
      → (on_goto text (as_page canonical page) j (answered_with canonical resp r) w').0
        ≡ replies after
      → after.error ≡ none
      → IsCarried j (ok (some resp)) w after
  unfolding answered_with on_goto on_answer find
  answered_with-IsCarried j resp w (err e) w' after at h fine = absurd (ground arith)
  answered_with-IsCarried j resp w (ok body) w' after at h fine =
      let k = take-Keeps j _ after w' h fine in
      record {
        response = resp;
        loaded = refl;
        url = k.url;
        status_code = k.status_code;
        headers = λ c. ap (values c) k.headers ∙ values-add_headers canonical c resp.headers [];
        body = ap (λ x. x.0) at ∙ ap ok (sym k.body);
        shot = λ on. ap (λ x. (page.screenshot true x.1).0) at ∙ k.shot on;
      }

  after_goto-IsCarried :
      (j : Job V) (r : Result (Option (PlaywrightResponse W))) (w : W) (after : Response V)
      → (let (a, w') = after_goto canonical r w in on_goto text (as_page canonical page) j a w').0
        ≡ replies after
      → after.error ≡ none
      → IsCarried j r w after
  unfolding after_goto page_response on_goto on_answer
  after_goto-IsCarried j (err e) w after h fine = absurd (ground arith)
  after_goto-IsCarried j (ok none) w after h fine = absurd (ground arith)
  after_goto-IsCarried j (ok (some resp)) w after h fine =
      answered_with-IsCarried j resp w (resp.body w).0 (resp.body w).1 after refl h fine

  -- A response without an error of a job's browser actions on a page of Playwright is Playwright's own answer for
  -- the job's full URL: its URL, its status, its body as it was read, of its headers all values of each
  -- canonical name in order, and the screenshot if the job asks for one.
  pub browser_actions-IsCarried :
      (j : Job V) (w : W) (resp : Response V)
      → (browser_actions text (as_page canonical page) j w).0 ≡ replies resp
      → resp.error ≡ none
      → let (r, w') = page.goto (get_full_url text j) networkidle w in IsCarried j r w' resp
  unfolding browser_actions goto to_playwright_wait_until
  browser_actions-IsCarried j w resp h fine =
      let (r, w') = page.goto (get_full_url text j) networkidle w in
      after_goto-IsCarried j r w' resp h fine
