-- ===== src/NetHttp.antt =====
-- adapters/fetchers/nethttp/nethttp.go and Fetch of adapters/fetchers/stealth/stealth.go. The HTTP
-- client, gzip and azuretls are foreign. The pool of buffers, the contexts and the closing of the bodies
-- are left out.
pub mod Bodies
pub mod Browsers
use scrapemate.Prelude.{
  ℕ, ℤ, pos, String, str_eq, Bool, true, false, Option, none, some, List, [], ◌∷◌, ◌++◌, find,
  insert, if◌then◌else◌,
}
use scrapemate.Errors.{Error, Result, ok, err, ◌>>=◌}
use scrapemate.Response.{Response, zero_response}
use scrapemate.NetHttp.Browsers.{Settings}

-- What Fetch reads of a job: GetFullURL, GetMethod, GetBody and GetHeaders.
pub record Target : Type 0 where
  pub full_url : String
  pub method : String
  pub body : List ℕ
  pub headers : List (String × String)

pub record Request : Type 0 where
  pub method : String
  pub url : String
  pub body : List ℕ
  pub header : List (String × List String)

-- `url` is that of the last request, after redirects; reading the body gives its bytes or, with those
-- that came, an error.
pub record Reception : Type 0 where
  pub status_code : ℤ
  pub header : List (String × List String)
  pub body : List ℕ
  pub body_error : Option Error
  pub url : String

-- gzip.NewReader, and io.ReadAll of it, on a body and its error.
pub record Unzip : Type 0 where
  pub new_reader_error : List ℕ → Option Error → Option Error
  pub read_all : List ℕ → Option Error → List ℕ × Option Error

pub record Client : Type 0 where
  pub new_request_error : String → String → Option Error
  pub do_request : Request → Result Reception

-- http.Header's Add and Get, for keys in canonical form.
unfoldable pub add : String → String → List (String × List String) → List (String × List String)
add k v header = elim (find k header) [
  | none ↦ insert k (v ∷ []) header
  | some vs ↦ insert k (vs ++ (v ∷ [])) header
]

abbrev pub first_value : Option (List String) → String
first_value none = ""
first_value (some []) = ""
first_value (some (v ∷ vs)) = v

unfoldable pub add_all :
    List (String × String) → List (String × List String) → List (String × List String)
add_all [] header = header
add_all ((k, v) ∷ kvs) header = add_all kvs (add k v header)

-- http.NewRequestWithContext, and the loop over the headers.
abbrev pub request_of : Target → Request
request_of job = record {
  method = job.method;
  url = job.full_url;
  body = job.body;
  header = add_all job.headers [];
}

module _ {V : Type 0} where
  -- `ans` after the loop over the headers.
  unfoldable pub received : Reception → Response V
  received resp = record zero_response { status_code = resp.status_code; headers = resp.header }

  -- The end of Fetch: the body and its error, and the URL.
  unfoldable pub with_body : Reception → List ℕ × Option Error → Response V
  with_body resp (body, e) = record (received resp) { body = body; error = e; url = resp.url }

module _ {V : Type 0} (unzip : Unzip) (client : Client) where
  -- From the switch on Content-Encoding on.
  unfoldable pub read_body : Reception → Response V
  read_body resp =
      if str_eq (first_value (find "Content-Encoding" resp.header)) "gzip"
      then (elim (unzip.new_reader_error resp.body resp.body_error) [
        | some e ↦ record (received resp) { error = some e }
        | none ↦ with_body resp (unzip.read_all resp.body resp.body_error)
      ])
      else with_body resp (resp.body, resp.body_error)

  unfoldable pub http_fetch : Target → Response V
  http_fetch job = elim (client.new_request_error job.method job.full_url) [
    | some e ↦ record zero_response { error = some e }
    | none ↦ elim (client.do_request (request_of job)) [
      | err e ↦ record zero_response { error = some e }
      | ok resp ↦ read_body resp
    ]
  ]

-- An azuretls session: SetProxy, and Do, under a browser's settings, of a request with a method and a URL.
pub record Session : Type 0 where
  pub set_proxy : String → Option Error
  pub do_request : Settings → (method url : String) → Result Reception

module _ {V : Type 0} (session : Session) (settings : Settings) where
  -- From `session.Browser` on; the job's body and headers are not used.
  unfoldable pub stealth_request : Target → Response V
  stealth_request job = elim (session.do_request settings job.method job.full_url) [
    | err e ↦ record zero_response { error = some e }
    | ok resp ↦ record zero_response {
      status_code = resp.status_code;
      headers = resp.header;
      body = resp.body;
      url = job.full_url;
    }
  ]

  -- `proxy` is the full URL of the rotator's next proxy, if there is a rotator.
  unfoldable pub stealth_fetch : Option String → Target → Response V
  stealth_fetch none job = stealth_request job
  stealth_fetch (some proxy) job = elim (session.set_proxy proxy) [
    | some e ↦ record zero_response { error = some e }
    | none ↦ stealth_request job
  ]
