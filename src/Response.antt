-- ===== src/Response.antt =====
-- response.go. `V` stands for the values of Go's `any`; `none` is nil.
use scrapemate.Prelude.{ℕ, ℤ, pos, String, Option, none, List, []}
use scrapemate.Errors.{Error}

pub record Response (V : Type 0) : Type 0 where
  pub url : String
  pub status_code : ℤ
  pub headers : List (String × List String)
  pub duration : ℤ
  pub body : List ℕ
  pub error : Option Error
  pub meta : List (String × V)
  pub screenshot : List ℕ
  pub document : Option V

-- The zero value `Response{}`.
abbrev pub zero_response : {V : Type 0} → Response V
zero_response = record {
  url = "";
  status_code = pos 0;
  headers = [];
  duration = pos 0;
  body = [];
  error = none;
  meta = [];
  screenshot = [];
  document = none;
}
