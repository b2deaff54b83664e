-- ===== src/AuthProxy/Http.antt =====
-- handleHTTP of local_proxy.go. The client that sends to the upstream proxy is foreign. The body is
-- passed on as it is, both ways, and left out.
use scrapemate.Prelude.{
  ℕ, ℤ, pos, String, ◌<>◌, str_eq, Bool, false, ◌&&◌, ◌||◌, Option, none, some, List, [], ◌∷◌,
  if◌then◌else◌, find, insert, erase, find-insert, find-erase, Option-cases, inl, inr, ◌≡◌, refl,
  ap, ◌∙◌, arith,
}
use scrapemate.Errors.{Error, Result, ok, err}
use scrapemate.AuthProxy.{AuthProxy, http, socks5}

abbrev pub Header : Type 0
Header = List (String × List String)

-- The request: the scheme and the host of its URL, the Host header, and whether it came by TLS.
pub record Request : Type 0 where
  pub method : String
  pub scheme : String
  pub url_host : String
  pub host : String
  pub tls : Bool
  pub header : Header

pub record Answer : Type 0 where
  pub status : ℤ
  pub header : Header

pub record Client : Type 0 where
  pub new_request_error : Request → Option Error
  pub send : Request → Result Answer

-- The first `if` of handleHTTP.
unfoldable pub complete_url : Request → Request
complete_url r =
    if str_eq r.url_host "" && str_eq r.scheme ""
    then record r { scheme = if r.tls then "https" else "http"; url_host = r.host }
    else r

abbrev pub hop_by_hop : List String
hop_by_hop =
    "Connection" ∷ "Keep-Alive" ∷ "Proxy-Authenticate" ∷ "Proxy-Authorization" ∷ "Te" ∷ "Trailers"
    ∷ "Transfer-Encoding" ∷ "Upgrade" ∷ []

unfoldable pub erase_all : List String → Header → Header
erase_all [] hs = hs
erase_all (k ∷ ks) hs = erase_all ks (erase k hs)

unfoldable pub forwarded_header : AuthProxy → Header → Header
forwarded_header p hs =
    let clean = erase_all hop_by_hop hs in
    elim p.proxy_type [
      | http ↦ insert "Proxy-Authorization" (("Basic " <> p.auth) ∷ []) clean
      | socks5 ↦ clean
    ]

-- http.Error
abbrev pub http_error : ℕ → Answer
http_error status = record { status = pos status; header = [] }

-- http.NewRequestWithContext takes the Host header from the URL; then come the headers.
unfoldable pub outgoing : AuthProxy → Request → Request
outgoing p full = record full {
  host = full.url_host;
  tls = false;
  header = forwarded_header p full.header;
}

-- The request that is sent upstream, if any, and the answer to the one that came.
unfoldable pub handle_http : AuthProxy → Client → Request → Option Request × Answer
handle_http p client r =
    let full = complete_url r in
    let out = outgoing p full in
    elim (client.new_request_error full) [
      | some e ↦ (none, http_error 400)
      | none ↦ elim (client.send out) [ err e ↦ (some out, http_error 502) | ok a ↦ (some out, a) ]
    ]

abbrev pub listed : String → List String → Bool
listed k [] = false
listed k (j ∷ js) = str_eq j k || listed k js

find-erase_all :
    (ks : List String) (k : String) (hs : Header)
    → find k (erase_all ks hs) ≡ (if listed k ks then none else find k hs)
unfolding erase_all
find-erase_all [] k hs = refl
find-erase_all (j ∷ ks) k hs = ground (arith, find-erase_all ks k (erase j hs), find-erase j k hs)

-- The eight headers that go no further than the proxy.
abbrev pub one_hop : List String
one_hop =
    "Connection" ∷ "Keep-Alive" ∷ "Proxy-Authenticate" ∷ "Proxy-Authorization" ∷ "Te" ∷ "Trailers"
    ∷ "Transfer-Encoding" ∷ "Upgrade" ∷ []

-- The value that the upstream gets under the name `k`.
abbrev pub value_sent : AuthProxy → String → Header → Option (List String)
value_sent p k hs =
    if str_eq "Proxy-Authorization" k
    then (elim p.proxy_type [ http ↦ some (("Basic " <> p.auth) ∷ []) | socks5 ↦ none ])
    else if listed k one_hop
    then none
    else find k hs

find-forwarded_header :
    (p : AuthProxy) (k : String) (hs : Header) → find k (forwarded_header p hs) ≡ value_sent p k hs
unfolding forwarded_header
find-forwarded_header p k hs = ground (
  arith,
  find-erase_all hop_by_hop k hs,
  find-insert "Proxy-Authorization" k (("Basic " <> p.auth) ∷ []) (erase_all hop_by_hop hs),
)

-- Of a request that comes with `r`: its method, its host unless it had none, and its headers.
abbrev pub IsSent : AuthProxy → Request → String → Option Request × Answer → Type 0
IsSent p r k (none, a) = a ≡ http_error 400
IsSent p r k (some out, a) =
    (out.method ≡ r.method)
    × (out.host ≡ out.url_host)
    × (str_eq r.url_host "" ≡ false → out.url_host ≡ r.url_host)
    × (find k out.header ≡ value_sent p k r.header)

complete_url-keeps :
    (r : Request)
    → ((complete_url r).method ≡ r.method)
      × (str_eq r.url_host "" ≡ false → (complete_url r).url_host ≡ r.url_host)
      × ((complete_url r).header ≡ r.header)
unfolding complete_url
complete_url-keeps r = ground arith

-- What goes to the upstream proxy: the method is as it came, and the URL's host is not changed
-- unless it was empty; the Host header is that host. Of the headers, Connection, Keep-Alive,
-- Proxy-Authenticate, Te, Trailers, Transfer-Encoding, Upgrade and the client's own Proxy-Authorization are gone; an HTTP upstream gets the proxy's own credentials there, a SOCKS5
-- one nothing; all other headers are as they came. Without such a request the answer is status 400.
pub handle_http-IsSent :
    (p : AuthProxy) (client : Client) (r : Request) (k : String)
    → IsSent p r k (handle_http p client r)
unfolding handle_http outgoing
handle_http-IsSent p client r k = elim (Option-cases (client.new_request_error (complete_url r))) [
  | inr (e, h) ↦ rw (handle_http, h) refl
  | inl h ↦ rw (handle_http, h) (answered (client.send (outgoing p (complete_url r))))
]
  where
    kept :
        ((complete_url r).method ≡ r.method)
        × (str_eq r.url_host "" ≡ false → (complete_url r).url_host ≡ r.url_host)
        × (find k (forwarded_header p (complete_url r).header) ≡ value_sent p k r.header)
    kept =
        let (m, u, h) = complete_url-keeps r in
        (m, u, ap (λ hs. find k (forwarded_header p hs)) h ∙ find-forwarded_header p k r.header)

    answered :
        (a : Result Answer)
        → IsSent p r k (elim a as (λ _. Option Request × Answer) [
          | err e ↦ (some (outgoing p (complete_url r)), http_error 502)
          | ok a ↦ (some (outgoing p (complete_url r)), a)
        ])
    answered (err e) = let (m, u, h) = kept in (m, refl, u, h)
    answered (ok a) = let (m, u, h) = kept in (m, refl, u, h)
