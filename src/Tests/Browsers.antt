-- ===== src/Tests/Browsers.antt =====
-- The theorems about the browsers and the clients of adapters/fetchers/jshttp at small inputs.
use scrapemate.Prelude.{
  ℕ, ◌+◌, String, Bool, true, false, Option, none, some, [], ◌∷◌, ◌≡◌, refl, arith,
}
use scrapemate.Errors.{Result, ok, err, foreign}
use scrapemate.Proxy.{User, Url, Net}
use scrapemate.AuthProxy.{AuthProxy, socks5, start_auth_proxy, check, configure, proxy_type_of}
use scrapemate.AuthProxy.Clients.{
  address, decimal_on, client_of, IsAuthenticated, start_auth_proxy-IsAuthenticated,
}
use scrapemate.Rotator.{Pool}
use scrapemate.JsFetcher.Browser.{Chromium, asked_by}
use scrapemate.JsFetcher.Browser.Turns.{IsInTurn, asked_by-IsInTurn}

abbrev socks_url : Url
socks_url = record { scheme = "socks5"; user = none; host = "example.com:1080"; rest = "" }

abbrev net : Net
net = record { parse = λ s. ok socks_url; text = λ u. u.host; to_lower = λ s. s }

abbrev base64 : String → String
base64 s = s

abbrev listen : ℕ → Result ℕ × ℕ
listen w = (ok (9000 + w), w + 1)

abbrev local : ℕ → AuthProxy
local port = record {
  port = port;
  upstream = socks_url;
  auth = "ann:secret";
  proxy_type = socks5;
  socks5_auth = some (record { username = "ann"; password = "secret" });
}

-- A dialer is known by the host that it dials through.
abbrev dialer : String → Option User → Result String
dialer host auth = ok host

local-started :
    (start_auth_proxy net base64 listen "socks5://example.com:1080" "ann" "secret" 7).0
    ≡ ok (local 9007)
unfolding start_auth_proxy check configure proxy_type_of
local-started = refl

start_auth_proxy-IsAuthenticated_example :
    IsAuthenticated dialer "ann" "secret" (client_of dialer (local 9007)).route
start_auth_proxy-IsAuthenticated_example =
    start_auth_proxy-IsAuthenticated dialer net base64 listen "socks5://example.com:1080" "ann"
      "secret" 7 (local 9007) (λ host auth. (host, refl)) local-started

local-address : address (local 9007) ≡ "localhost:9007"
unfolding address decimal_on
local-address = refl

abbrev two_proxies : Pool AuthProxy
two_proxies = record { proxies = local 9000 ∷ local 9001 ∷ []; current = 1 }

-- Every other browser does not launch.
abbrev chromium : Chromium Bool ℕ ℕ
chromium = record {
  launch =
      λ options w. elim w [ true ↦ (ok 0, false) | false ↦ (err (foreign "no browser"), true) ];
  new_context = λ b options w. (ok 1, w);
}

asked_by-IsInTurn_example :
    let (asked, last) = asked_by chromium 5 true false (some two_proxies) "" true in
    IsInTurn "" two_proxies asked last
asked_by-IsInTurn_example =
    asked_by-IsInTurn chromium 5 true false two_proxies "" true (omega arith)
