-- ===== src/Job.antt =====
-- The base job of job.go. net/url's encoding of the parameters, sort.Strings and the hash are
-- foreign: `encode`, `sort_strings` and `md5_hex`. A page of a browser is foreign too, its calls
-- are functions of the world `W`. A string is its bytes where it is hashed.
pub mod Checks
pub mod Base
use scrapemate.Prelude.{
  ℕ, ℤ, pos, leb_ℤ, ltb_ℤ, eqb_ℤ, String, Bool, true, false, ◌&&◌, Option, none, some, List, [],
  ◌∷◌, ◌++◌, map, if◌then◌else◌, str_eq,
}
use scrapemate.Errors.{Error}
use scrapemate.Mate.Env.{Reply, replies, throws}
use scrapemate.Response.{Response, zero_response}

pub record Job (V : Type 0) : Type 0 where
  pub id : String
  pub parent_id : String
  pub method : String
  pub body : List ℕ
  pub url : String
  pub headers : List (String × String)
  pub url_params : List (String × String)
  pub timeout : ℤ
  pub priority : ℤ
  pub max_retries : ℤ
  pub check_response : Option (Response V → Bool)
  pub retry_policy : ℤ
  pub max_retry_delay : ℤ
  pub take_screenshot : Bool

-- DefaultMaxRetryDelay of constants.go, in nanoseconds.
abbrev pub default_max_retry_delay : ℤ
default_max_retry_delay = pos 2000000000

-- PageResponse of browser.go.
pub record PageResponse : Type 0 where
  pub url : String
  pub status_code : ℤ
  pub headers : List (String × List String)
  pub body : List ℕ

-- WaitUntilState of browser.go.
abbrev pub wait_until_load : String
wait_until_load = "load"

abbrev pub wait_until_dom_content_loaded : String
wait_until_dom_content_loaded = "domcontentloaded"

abbrev pub wait_until_network_idle : String
wait_until_network_idle = "networkidle"

-- The calls of BrowserPage that the base job makes.
pub record BrowserPage (W : Type 0) : Type 0 where
  pub goto : (url wait_until : String) → W → Reply (Option PageResponse × Option Error) × W
  pub screenshot : Bool → W → (List ℕ × Option Error) × W

-- The standard library's part of a URL and of a cache key.
pub record Text : Type 0 where
  pub sort_strings : List String → List String
  pub encode : List (String × List String) → String
  pub append_string : String → String → String
  pub bytes : String → List ℕ
  pub md5_hex : List ℕ → String

-- The value of a key of a map; Go gives "" for a missing key.
abbrev pub lookup : String → List (String × String) → String
lookup k [] = ""
lookup k ((k', v) ∷ kvs) = if str_eq k k' then v else lookup k kvs

module _ {V : Type 0} where
  unfoldable pub do_check_response : Job V → Response V → Bool
  do_check_response j resp = elim j.check_response [
    | none ↦ leb_ℤ (pos 200) resp.status_code && ltb_ℤ resp.status_code (pos 300)
    | some check ↦ check resp
  ]

  unfoldable pub get_max_retry_delay : Job V → ℤ
  get_max_retry_delay j =
      if eqb_ℤ j.max_retry_delay (pos 0) then default_max_retry_delay else j.max_retry_delay

  module _ (text : Text) where
    -- The keys in order, each with its one value; then `u?query` unless there are none.
    unfoldable pub get_full_url : Job V → String
    get_full_url j =
        let keys = text.sort_strings (map (λ kv. kv.0) j.url_params) in
        let urlvals = map (λ k. (k, lookup k j.url_params ∷ [])) keys in
        elim urlvals [
          | [] ↦ j.url
          | v ∷ vs ↦ text.append_string (text.append_string j.url "?") (text.encode (v ∷ vs))
        ]

    -- The hash of "method:url", and of the body after it if the method is POST.
    unfoldable pub get_cache_key : Job V → String
    get_cache_key j =
        let u = get_full_url j in
        let to_hash = text.bytes (text.append_string (text.append_string j.method ":") u) in
        text.md5_hex (if str_eq j.method "POST" then to_hash ++ j.body else to_hash)

    module _ {W : Type 0} (page : BrowserPage W) where
      unfoldable pub take : Job V → Response V → W → Reply (Response V) × W
      take j resp w =
          let ((screenshot, err), w') = page.screenshot true w in
          if j.take_screenshot
          then (elim err [
            | some e ↦ (replies (record resp { error = some e }), w')
            | none ↦ (replies (record resp { screenshot = screenshot }), w')
          ])
          else (replies resp, w)

      -- The answer of Goto: an error; or a response, and a nil one panics where it is read.
      unfoldable pub on_answer :
          Job V → Option PageResponse → Option Error → W → Reply (Response V) × W
      on_answer j answer (some e) w = (replies (record zero_response { error = some e }), w)
      on_answer j none none w = (throws, w)
      on_answer j (some r) none w =
          take j
            (record zero_response {
              url = r.url;
              status_code = r.status_code;
              headers = r.headers;
              body = r.body;
            })
            w

      unfoldable pub on_goto :
          Job V → Reply (Option PageResponse × Option Error) → W → Reply (Response V) × W
      on_goto j throws w = (throws, w)
      on_goto j (replies (answer, err)) w = on_answer j answer err w

      unfoldable pub browser_actions : Job V → W → Reply (Response V) × W
      browser_actions j w =
          let (r, w') = page.goto (get_full_url j) wait_until_network_idle w in on_goto j r w'
