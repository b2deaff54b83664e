-- ===== src/Tests/Proxies.antt =====
-- The theorems about proxies at an HTTP proxy.
use scrapemate.Prelude.{
  ℕ, suc, ◌≤◌, String, ◌<>◌, str_eq, true, false, ◌≡◌, refl, none, some, List, [], ◌∷◌, pos,
  if◌then◌else◌, find,
}
use scrapemate.Errors.{foreign, Result, ok, err}
use scrapemate.Proxy.{Url, Net, Proxy, contains, with_user, full_url, new_proxy, transport}
use scrapemate.Proxy.Urls.{IsPlain, new_proxy-full_url}
use scrapemate.Proxy.Transports.{transport_shared}
use scrapemate.AuthProxy.{AuthProxy, http}
use scrapemate.AuthProxy.Http.{Request, Client, IsSent, handle_http, handle_http-IsSent}
use scrapemate.AuthProxy.Connect.{Ip, Outside, handle_connect}
use scrapemate.AuthProxy.Connect.Private.{
  count_opened, count_closed, count_answers, handle_connect-closes,
}
use scrapemate.ProxyPool.{start_proxy, new_proxy_pool}
use scrapemate.ProxyPool.Credentials.{AreFor, new_proxy_pool-Outcome}

abbrev bare_url : Url
bare_url = record { scheme = "http"; user = none; host = "a:80"; rest = "" }

abbrev with_login : String → String → Url
with_login username password = record bare_url {
  user = some (record { username = username; password = password });
}

-- It knows the URLs of one host, with the user joe, with empty credentials, and without.
abbrev parse : String → Result Url
parse s =
    if str_eq s "http://a:80"
    then ok bare_url
    else if str_eq s "http://joe:pw@a:80"
    then ok (with_login "joe" "pw")
    else if str_eq s "http://:@a:80"
    then ok (with_login "" "")
    else err (foreign "parse")

abbrev text : Url → String
text u = elim u.user [
  | none ↦ "http://a:80"
  | some w ↦ if str_eq w.username "" then "http://:@a:80" else "http://joe:pw@a:80"
]

abbrev net : Net
net = record { parse = parse; text = text; to_lower = λ s. s }

abbrev joe : Proxy
joe = record { url = "http://a:80"; username = "joe"; password = "pw" }

joe-IsPlain : IsPlain net joe bare_url
unfolding contains
joe-IsPlain = record {
  marked = refl;
  parsed = refl;
  no_user = refl;
  assembled = refl;
  marked_full = refl;
  read_back = refl;
  known = refl;
}

new_proxy-full_url_example : new_proxy net (full_url net joe) ≡ ok joe
new_proxy-full_url_example = new_proxy-full_url net joe bare_url joe-IsPlain

-- ann's requests go out as joe's.
abbrev ann : Proxy
ann = record { url = "http://a:80"; username = "ann"; password = "secret" }

transport_shared_example :
    (transport net ann (transport net joe []).1).0 ≡ ok (with_user joe bare_url)
unfolding find
transport_shared_example = transport_shared net joe ann [] bare_url refl refl refl refl

abbrev base64 : String → String
base64 s = "base64 " <> s

abbrev listen : ℕ → Result ℕ × ℕ
listen w = (ok w, suc w)

abbrev joes : AuthProxy
joes = record {
  port = 4000;
  upstream = with_login "joe" "pw";
  auth = "base64 joe:pw";
  proxy_type = http;
  socks5_auth = none;
}

abbrev client : Client
client = record {
  new_request_error = λ r. none;
  send = λ r. ok (record { status = pos 200; header = [] });
}

abbrev request : Request
request = record {
  method = "GET";
  scheme = "http";
  url_host = "b";
  host = "b";
  tls = false;
  header = ("Proxy-Authorization", "mine" ∷ []) ∷ ("Accept", "text/html" ∷ []) ∷ [];
}

handle_http-IsSent_example :
    IsSent joes request "Proxy-Authorization" (handle_http joes client request)
handle_http-IsSent_example = handle_http-IsSent joes client request "Proxy-Authorization"

abbrev local : Ip
local = record { is_loopback = true; is_private = false }

abbrev outside : Outside
outside = record {
  split_host_port = λ s. ok "localhost";
  lookup_ip = λ host. ok (local ∷ []);
  dial = λ host. none;
  socks5_dialer = none;
  socks5_dial = λ host. none;
  write = λ s. none;
  read_response = ok (pos 200);
  is_hijacker = true;
  hijack = none;
  client_first = true;
}

-- The host is a public one.
abbrev public : Outside
public = record outside { lookup_ip = λ host. ok [] }

handle_connect-closes_example :
    (count_opened (handle_connect public joes "b:443")
      ≡ count_closed (handle_connect public joes "b:443"))
    × (count_opened (handle_connect public joes "b:443") ≤ 1)
    × (count_answers (handle_connect public joes "b:443") ≤ 1)
    × (public.hijack ≡ none → count_answers (handle_connect public joes "b:443") ≡ 1)
handle_connect-closes_example = handle_connect-closes public joes "b:443"

abbrev urls : List String
urls = "http://a:80" ∷ []

new_proxy_pool-Outcome_example :
    ((pool : List AuthProxy)
      → (new_proxy_pool net base64 listen ("http://joe:pw@a:80" ∷ urls) 4000).0 ≡ ok pool
      → ((new_proxy_pool net base64 listen ("http://joe:pw@a:80" ∷ urls) 4000).1 ≡ pool)
        × AreFor net base64 listen ("http://joe:pw@a:80" ∷ urls) pool)
    × ((a : AuthProxy) (w : ℕ)
        → start_proxy net base64 listen "http://joe:pw@a:80" 4000 ≡ (ok a, w)
        → (later : List AuthProxy) × ((new_proxy_pool net base64 listen
              ("http://joe:pw@a:80" ∷ urls)
              4000).1
            ≡ a ∷ later))
new_proxy_pool-Outcome_example =
    new_proxy_pool-Outcome net base64 listen "http://joe:pw@a:80" urls 4000
