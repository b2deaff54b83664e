-- ===== src/AuthProxy/Clients.antt =====
-- The HTTP clients of adapters/fetchers/jshttp/local_proxy.go: the one that StartAuthProxy makes for the upstream, and
-- HTTPClient, with Port and Address. `socks5` is proxy.SOCKS5 over TCP and a direct connection, which gives a dialer
-- of the type `D`; idle connections and the like are left out.
use scrapemate.Prelude.{
  ℕ, zero, suc, ◌/◌, ◌%◌, ltb, String, ◌<>◌, Bool, true, ◌||◌, Option, none, some, List, [], ◌∷◌,
  get_elem?, if◌then◌else◌, ◌≡◌, ap,
}
use scrapemate.Errors.{Error, Result, ok, err}
use scrapemate.Proxy.{User, Url, Net, contains}
use scrapemate.AuthProxy.{AuthProxy, ProxyType, http, socks5, start_auth_proxy}
use scrapemate.AuthProxy.Start.{start_auth_proxy-IsFor}

-- How a client reaches a host.
pub data Route (D : Type 0) : Type 0 where
  direct : Route D
  through_proxy : Url → Route D
  through_dialer : D → Route D

-- The timeout in seconds.
pub record HttpClient (D : Type 0) : Type 0 where
  pub route : Route D
  pub timeout : ℕ

abbrev pub digits : List String
digits = "0" ∷ "1" ∷ "2" ∷ "3" ∷ "4" ∷ "5" ∷ "6" ∷ "7" ∷ "8" ∷ "9" ∷ []

abbrev pub digit : ℕ → String
digit n = elim (get_elem? digits n) [ none ↦ "" | some d ↦ d ]

-- `%d`, on fuel; a number has fewer digits than its value.
unfoldable pub decimal_on : ℕ → ℕ → String
decimal_on zero n = ""
decimal_on (suc f) n =
    let more = decimal_on f (n / 10) in if ltb n 10 then digit n else more <> digit (n % 10)

abbrev pub decimal : ℕ → String
decimal n = decimal_on (suc n) n

unfoldable pub port : AuthProxy → ℕ
port p = p.port

unfoldable pub address : AuthProxy → String
address p = "localhost:" <> decimal p.port

-- http.ProxyURL of a nil URL is no proxy: the error of url.Parse is dropped.
unfoldable pub http_client : {D : Type 0} → Net → AuthProxy → HttpClient D
http_client net p = elim (net.parse ("http://localhost:" <> decimal p.port)) [
  | err e ↦ record { route = direct; timeout = 120 }
  | ok url ↦ record { route = through_proxy url; timeout = 120 }
]

unfoldable pub create_http_proxy_client : {D : Type 0} → Url → HttpClient D
create_http_proxy_client upstream = record { route = through_proxy upstream; timeout = 120 }

module _ {D : Type 0} (socks5_dialer : String → Option User → Result D) where
  unfoldable pub create_socks5_proxy_client : Url → Option User → HttpClient D
  create_socks5_proxy_client upstream auth = elim (socks5_dialer upstream.host auth) [
    | err e ↦ record { route = direct; timeout = 120 }
    | ok dialer ↦ record { route = through_dialer dialer; timeout = 120 }
  ]

  -- The `client` that StartAuthProxy gives a proxy.
  unfoldable pub client_for : ProxyType → Url → Option User → HttpClient D
  client_for http upstream auth = create_http_proxy_client upstream
  client_for socks5 upstream auth = create_socks5_proxy_client upstream auth

  abbrev pub client_of : AuthProxy → HttpClient D
  client_of p = client_for p.proxy_type p.upstream p.socks5_auth

  -- A route on which the upstream is given the user's name and password.
  pub data IsAuthenticated (username password : String) : Route D → Type 0 where
    by_url :
        (u : Url)
        → u.user ≡ some (record { username = username; password = password })
        → IsAuthenticated username password (through_proxy u)
    by_dialer :
        (host : String) (d : D)
        → socks5_dialer host (some (record { username = username; password = password })) ≡ ok d
        → IsAuthenticated username password (through_dialer d)

  socks5-IsAuthenticated :
      (username password : String) (upstream : Url)
      → ((host : String) (auth : Option User) → (d : D) × (socks5_dialer host auth ≡ ok d))
      → IsAuthenticated username password
          (create_socks5_proxy_client upstream
            (some (record { username = username; password = password }))).route
  unfolding create_socks5_proxy_client
  socks5-IsAuthenticated username password upstream dials =
      let user : User = record { username = username; password = password } in
      let (d, made) = dials upstream.host (some user) in
      rw (create_socks5_proxy_client, made) (by_dialer upstream.host d made)

  kind-IsAuthenticated :
      (username password : String) (kind : ProxyType) (url upstream : Url) (auth : Option User)
      → ((host : String) (auth : Option User) → (d : D) × (socks5_dialer host auth ≡ ok d))
      → let user : User = record { username = username; password = password } in
        upstream ≡ (elim kind [ http ↦ record url { user = some user } | socks5 ↦ url ])
        → auth ≡ (elim kind [ http ↦ none | socks5 ↦ some user ])
        → IsAuthenticated username password (client_for kind upstream auth).route
  unfolding client_for create_http_proxy_client
  kind-IsAuthenticated username password http url upstream auth dials up login =
      by_url upstream (ap (λ (u : Url). u.user) up)
  kind-IsAuthenticated username password socks5 url upstream auth dials up login =
      rw login (socks5-IsAuthenticated username password upstream dials)

  -- If SOCKS5 always makes a dialer, the client of a proxy that StartAuthProxy returns never reaches a host
  -- directly: it goes through an upstream that is given the user name and the password, in the URL or by the dialer.
  pub start_auth_proxy-IsAuthenticated :
      (net : Net) (base64 : String → String) {W : Type 0} (listen : W → Result ℕ × W)
      (proxy_url username password : String) (w : W) (p : AuthProxy)
      → ((host : String) (auth : Option User) → (d : D) × (socks5_dialer host auth ≡ ok d))
      → (start_auth_proxy net base64 listen proxy_url username password w).0 ≡ ok p
      → IsAuthenticated username password (client_of p).route
  start_auth_proxy-IsAuthenticated net base64 listen proxy_url username password w p dials h =
      let f = start_auth_proxy-IsFor net base64 listen proxy_url username password w p h in
      kind-IsAuthenticated username password p.proxy_type f.url p.upstream p.socks5_auth dials
        f.upstream f.socks5_auth

-- isExpectedNetworkError; io.EOF is told from an error with its text by `is_eof`.
unfoldable pub is_expected_network_error : (Error → Bool) → (Error → String) → Option Error → Bool
is_expected_network_error is_eof text none = true
is_expected_network_error is_eof text (some e) =
    is_eof e
    || (contains (text e) "use of closed network connection"
        || (contains (text e) "connection reset by peer" || contains (text e) "broken pipe"))
