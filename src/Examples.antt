-- ===== src/Examples.antt =====
-- The jobs of the programs under examples.
pub mod Quotes
pub mod Login
pub mod Books
pub mod Products
pub mod Hooks
use scrapemate.Prelude.{ℤ, pos, String, List, [], none, false}
use scrapemate.Job.{Job}

-- DefaultUserAgent of constants.go.
abbrev pub default_user_agent : String
default_user_agent =
    "Mozilla/5.0 (X11; Linux x86_64) AppleWebKit/537.36 (KHTML, like Gecko) Chrome/104.0.5112.79 Safari/537.36"

-- The zero value of the base job, with GET as its method.
abbrev pub get_job : {V : Type 0} → Job V
get_job = record {
  id = "";
  parent_id = "";
  method = "GET";
  body = [];
  url = "";
  headers = [];
  url_params = [];
  timeout = pos 0;
  priority = pos 0;
  max_retries = pos 0;
  check_response = none;
  retry_policy = pos 0;
  max_retry_delay = pos 0;
  take_screenshot = false;
}
