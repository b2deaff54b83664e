-- ===== src/AuthProxy.antt =====
-- adapters/fetchers/jshttp/local_proxy.go: StartAuthProxy, the two ways to handle a request, and
-- Close. Clients has its HTTP clients; timeouts, buffers and logs are left out.
pub mod Start
pub mod Clients
pub mod Http
pub mod Connect
pub mod Shutdown
use scrapemate.Prelude.{
  ℕ, String, ◌<>◌, str_eq, Bool, true, false, ◌||◌, Option, none, some, if◌then◌else◌,
}
use scrapemate.Errors.{Error, foreign, Result, ok, err, wrapping, ◌>>=◌}
use scrapemate.Proxy.{User, Url, Net}

pub data ProxyType : Type 0 where
  http socks5 : ProxyType

pub record AuthProxy : Type 0 where
  pub port : ℕ
  pub upstream : Url
  pub auth : String
  pub proxy_type : ProxyType
  pub socks5_auth : Option User

-- The switch on the scheme.
unfoldable pub proxy_type_of : String → Result ProxyType
proxy_type_of scheme =
    if str_eq scheme "http" || str_eq scheme "https"
    then ok http
    else if str_eq scheme "socks5" || str_eq scheme "socks5h"
    then ok socks5
    else err (foreign ("unsupported proxy scheme: " <> scheme))

abbrev pub proxy_type_string : ProxyType → String
proxy_type_string http = "HTTP"
proxy_type_string socks5 = "SOCKS5"

-- What net.Listen gives: a port, or an error. `base64` is base64.StdEncoding.
module _ (net : Net) (base64 : String → String) where
  abbrev pub credentials : String → String → String
  credentials username password = base64 (username <> (":" <> password))

  -- The fields of the proxy, but for its port.
  unfoldable pub configure : String → String → Url → ProxyType → ℕ → AuthProxy
  configure username password url http port = record {
    port = port;
    upstream = record url { user = some (record { username = username; password = password }) };
    auth = credentials username password;
    proxy_type = http;
    socks5_auth = none;
  }
  configure username password url socks5 port = record {
    port = port;
    upstream = url;
    auth = credentials username password;
    proxy_type = socks5;
    socks5_auth = some (record { username = username; password = password });
  }

  -- From the start to net.Listen: what is refused without a listener.
  unfoldable pub check : String → String → String → Result (ℕ → AuthProxy)
  check proxy_url username password =
      if str_eq proxy_url ""
      then err (foreign "proxy URL cannot be empty")
      else if str_eq username "" || str_eq password ""
      then err (foreign "username and password are required")
      else (do
        url ← wrapping (λ e. foreign "invalid proxy URL") (net.parse proxy_url)
        kind ← proxy_type_of url.scheme
        ok (configure username password url kind))

  module _ {W : Type 0} (listen : W → Result ℕ × W) where
    unfoldable pub start_auth_proxy : String → String → String → W → Result AuthProxy × W
    start_auth_proxy proxy_url username password w =
        let (port, w') = listen w in
        elim (check proxy_url username password) [
          | err e ↦ (err e, w)
          | ok make ↦ elim port [
            | err e ↦ (err (foreign "failed to find free port"), w')
            | ok n ↦ (ok (make n), w')
          ]
        ]
