-- ===== src/Job/Checks.antt =====
-- What the base job's responses and cache keys tell.
use scrapemate.Prelude.{
  ℕ, pos, ◌≤ℤ◌, ◌<ℤ◌, String, Bool, true, Option, none, some, List, ◌≡◌, ◌↔◌, refl, arith, str_eq,
  subst, Bool-cases, Option-cases, inl, inr, ◌++◌, if◌then◌else◌,
}
use scrapemate.Errors.{Error}
use scrapemate.Mate.Env.{Reply, replies, throws}
use scrapemate.Response.{Response}
use scrapemate.Job.{
  Job, PageResponse, BrowserPage, Text, do_check_response, get_full_url, get_cache_key, on_answer,
  take, on_goto, browser_actions, wait_until_network_idle,
}

same_hash :
    (base : List ℕ) (f : List ℕ → String) (post : Bool) (a b : List ℕ)
    → (post ≡ true → a ≡ b)
    → f (if post then base ++ a else base) ≡ f (if post then base ++ b else base)
same_hash base f post a b h = ground arith

module _ {V : Type 0} (text : Text) where
  -- Two jobs with the same method, URL and parameters have the same cache key, if also their
  -- bodies are the same or the method is not POST. Nothing else of a job counts: not its headers.
  get_cache_key-same :
      (j k : Job V)
      → j.method ≡ k.method
      → j.url ≡ k.url
      → j.url_params ≡ k.url_params
      → (str_eq j.method "POST" ≡ true → j.body ≡ k.body)
      → get_cache_key text j ≡ get_cache_key text k
  unfolding get_cache_key get_full_url
  get_cache_key-same j k m u p b =
      rw (m, u, p)
        (same_hash
          (text.bytes (text.append_string (text.append_string k.method ":") (get_full_url text k)))
          text.md5_hex (str_eq k.method "POST") j.body k.body
          (subst (λ x. str_eq x "POST" ≡ true → j.body ≡ k.body) m b))

  module _ {W : Type 0} (page : BrowserPage W) where
    -- The page was loaded with a status from 200 to 299, and the screenshot was taken if the job
    -- wants one.
    pub record IsLoaded (j : Job V) (answer : Option PageResponse) (err : Option Error) (w : W)
        : Type 0 where
      pub no_error : err ≡ none
      pub response : PageResponse
      pub loaded : answer ≡ some response
      pub low : pos 200 ≤ℤ response.status_code
      pub high : response.status_code <ℤ pos 300
      pub shot : j.take_screenshot ≡ true → (page.screenshot true w).0.1 ≡ none

    abbrev pub IsAnswered : Job V → Reply (Option PageResponse × Option Error) → W → Type 0
    IsAnswered j throws w = ⊥
    IsAnswered j (replies (answer, err)) w = IsLoaded j answer err w

    -- The response has no error and passes the job's check.
    abbrev pub IsGood : Job V → Reply (Response V) → Type 0
    IsGood j throws = ⊥
    IsGood j (replies resp) = (resp.error ≡ none) × (do_check_response j resp ≡ true)

    take-IsGood :
        (j : Job V) (resp : Response V) (w : W)
        → resp.error ≡ none
        → j.check_response ≡ none
        → IsGood j (take text page j resp w).0 ↔ (
            (pos 200 ≤ℤ resp.status_code)
            × (resp.status_code <ℤ pos 300)
            × (j.take_screenshot ≡ true → (page.screenshot true w).0.1 ≡ none))
    unfolding take do_check_response
    take-IsGood j resp w e h = elim (Bool-cases j.take_screenshot) [
      | inl b ↦ elim (Option-cases (page.screenshot true w).0.1) [
        | inl n ↦ rw (b, n, h) (λ q. ground arith, λ q. ground arith)
        | inr (x, n) ↦ rw (b, n, h) (λ q. ground arith, λ q. ground arith)
      ]
      | inr b ↦ rw (b, h) (λ q. ground arith, λ q. ground arith)
    ]

    on_answer-IsGood :
        (j : Job V) (answer : Option PageResponse) (err : Option Error) (w : W)
        → j.check_response ≡ none
        → IsGood j (on_answer text page j answer err w).0 ↔ IsLoaded j answer err w
    unfolding on_answer
    on_answer-IsGood j answer (some e) w h =
        (λ q. ground arith, λ q. absurd (let n = q.no_error in ground arith))
    on_answer-IsGood j none none w h =
        (λ q. absurd q, λ q. absurd (let n = q.loaded in ground arith))
    on_answer-IsGood j (some r) none w h =
        let (to, from) = take-IsGood j _ w refl h in
        (
          λ q.
              let (l, u, s) = to q in
              record { no_error = refl; response = r; loaded = refl; low = l; high = u; shot = s },
          λ q.
              let n = q.loaded in
              let l = q.low in let u = q.high in from (ground arith, ground arith, q.shot),
        )

    on_goto-IsGood :
        (j : Job V) (r : Reply (Option PageResponse × Option Error)) (w : W)
        → j.check_response ≡ none
        → IsGood j (on_goto text page j r w).0 ↔ IsAnswered j r w
    unfolding on_goto
    on_goto-IsGood j throws w h = (λ q. absurd q, λ q. absurd q)
    on_goto-IsGood j (replies (answer, err)) w h = on_answer-IsGood j answer err w h

    -- For a job without a check of its own: its browser actions end with a response that has no
    -- error and passes the check exactly if the page was loaded with a status from 200 to 299, and
    -- also the screenshot was taken where the job asks for one.
    pub browser_actions-IsGood :
        (j : Job V) (w : W)
        → j.check_response ≡ none
        → let (r, w') = page.goto (get_full_url text j) wait_until_network_idle w in
          IsGood j (browser_actions text page j w).0 ↔ IsAnswered j r w'
    unfolding browser_actions
    browser_actions-IsGood j w h =
        let (r, w') = page.goto (get_full_url text j) wait_until_network_idle w in
        on_goto-IsGood j r w' h
