-- ===== src/NetHttp/Bodies.antt =====
-- What the two HTTP fetchers give of what a server sends.
use scrapemate.Prelude.{
  ℕ, String, str_eq, none, List, [], ◌∷◌, find, if◌then◌else◌, ◌≡◌, refl, ap, ◌∙◌, arith,
  Bool-cases, inl, inr,
}
use scrapemate.Errors.{ok}
use scrapemate.Response.{zero_response}
use scrapemate.PlaywrightPage.{add_headers}
use scrapemate.PlaywrightPage.Headers.{values, sent_values, values-add_headers}
use scrapemate.NetHttp.{
  Target, Request, add, add_all, Reception, Unzip, Client, first_value, received, with_body,
  read_body, request_of, http_fetch,
}

-- A server sends `content` as the body of the answer, zipped if it says so.
pub record Carries (unzip : Unzip) (zip : List ℕ → List ℕ) (content : List ℕ) (resp : Reception)
    : Type 0 where
  pub whole : resp.body_error ≡ none
  pub opens : unzip.new_reader_error (zip content) none ≡ none
  pub inverse : unzip.read_all (zip content) none ≡ (content, none)
  pub body : resp.body ≡ (
      if str_eq (first_value (find "Content-Encoding" resp.header)) "gzip"
      then zip content
      else content)

-- A request for a job: its method, URL and body, and under each name the values that the job's headers have for it, in
-- their order.
pub record IsRequestFor (job : Target) (request : Request) : Type 0 where
  pub method : request.method ≡ job.method
  pub url : request.url ≡ job.full_url
  pub body : request.body ≡ job.body
  pub header :
      (k : String) → values k request.header ≡ sent_values (λ (name : String). name) k job.headers

add_all-add_headers :
    (kvs : List (String × String)) (h : List (String × List String))
    → add_all kvs h ≡ add_headers (λ name. name) kvs h
unfolding add_all add_headers
add_all-add_headers [] h = refl
add_all-add_headers ((k, v) ∷ kvs) h = add_all-add_headers kvs (add k v h)

request_of-IsRequestFor : (job : Target) → IsRequestFor job (request_of job)
unfolding find
request_of-IsRequestFor job = record {
  method = refl;
  url = refl;
  body = refl;
  header = λ k.
      ap (values k) (add_all-add_headers job.headers [])
      ∙ values-add_headers (λ name. name) k job.headers [];
}

module _ {V : Type 0} (unzip : Unzip) (client : Client) where
  -- If a server answers every request with the job's method, URL and body and the values of its headers, then Fetch of
  -- the HTTP fetcher gives the content that the server sent, whether it was zipped or not, with the server's
  -- status, headers and URL and no error.
  pub http_fetch-Carries :
      (zip : List ℕ → List ℕ) (content : List ℕ) (job : Target) (resp : Reception)
      → client.new_request_error job.method job.full_url ≡ none
      → ((request : Request) → IsRequestFor job request → client.do_request request ≡ ok resp)
      → Carries unzip zip content resp
      → http_fetch {V = V} unzip client job ≡ record zero_response {
        status_code = resp.status_code;
        headers = resp.header;
        body = content;
        url = resp.url;
      }
  unfolding http_fetch read_body with_body received
  http_fetch-Carries zip content job resp made answers c =
      let sent : client.do_request (request_of job) ≡ ok resp =
        answers (request_of job) (request_of-IsRequestFor job) in
      elim (Bool-cases (str_eq (first_value (find "Content-Encoding" resp.header)) "gzip")) [
        | inl zipped ↦
            let b : resp.body ≡ zip content = ground (arith, c.body) in
            let opened : unzip.new_reader_error resp.body resp.body_error ≡ none =
              rw (b, c.whole) c.opens in
            let read : unzip.read_all resp.body resp.body_error ≡ (content, none) =
              rw (b, c.whole) c.inverse in
            rw (http_fetch, made, sent, read_body, zipped, opened, read, with_body) refl
        | inr plain ↦
            let b : resp.body ≡ content = ground (arith, c.body) in
            rw (http_fetch, made, sent, read_body, plain, b, c.whole) refl
      ]
