-- ===== src/AuthProxy/Connect/Private.antt =====
-- What a CONNECT request may lead to.
use scrapemate.Prelude.{
  ℕ, suc, ◌+◌, ◌≤◌, String, str_eq, true, false, none, List, [], ◌∷◌, ◌≡◌, ◌⊎◌, arith,
}
use scrapemate.Errors.{ok}
use scrapemate.AuthProxy.{AuthProxy, http}
use scrapemate.AuthProxy.Connect.{
  Ip, Outside, Event, dialed, opened, closed_upstream, replied, established, any_private,
  refuses_private, tunnel_connection, host_of, ask_upstream, handle_http_connect,
  handle_socks5_connect, handle_connect,
}

abbrev pub count_opened : List Event → ℕ
count_opened [] = 0
count_opened (opened ∷ es) = suc (count_opened es)
count_opened (_ ∷ es) = count_opened es

abbrev pub count_closed : List Event → ℕ
count_closed [] = 0
count_closed (closed_upstream ∷ es) = suc (count_closed es)
count_closed (_ ∷ es) = count_closed es

abbrev pub count_dialed : List Event → ℕ
count_dialed [] = 0
count_dialed (dialed h ∷ es) = suc (count_dialed es)
count_dialed (_ ∷ es) = count_dialed es

-- What the client gets: an error, or the opening of its tunnel.
abbrev pub count_answers : List Event → ℕ
count_answers [] = 0
count_answers (replied n ∷ es) = suc (count_answers es)
count_answers (established ∷ es) = suc (count_answers es)
count_answers (_ ∷ es) = count_answers es

-- The events close what they and `n` earlier ones opened, with at most one answer to the client,
-- and exactly one if its connection can be taken over.
record Balanced (o : Outside) (n : ℕ) (es : List Event) : Type 0 where
  closes : count_opened es + n ≡ count_closed es
  one_at_most : count_closed es ≤ 1
  answers : count_answers es ≤ 1
  answered : o.hijack ≡ none → count_answers es ≡ 1

tunnel_connection-Balanced : (o : Outside) → Balanced o 1 (tunnel_connection o)
unfolding tunnel_connection
tunnel_connection-Balanced o = ground arith

ask_upstream-Balanced :
    (o : Outside) (p : AuthProxy) (h : String) → Balanced o 1 (ask_upstream o p h)
unfolding ask_upstream
ask_upstream-Balanced o p h = ground (arith, tunnel_connection-Balanced o)

handle_http_connect-Balanced :
    (o : Outside) (p : AuthProxy) (h : String) → Balanced o 0 (handle_http_connect o p h)
unfolding handle_http_connect
handle_http_connect-Balanced o p h = ground (arith, ask_upstream-Balanced o p h)

handle_socks5_connect-Balanced :
    (o : Outside) (p : AuthProxy) (h : String) → Balanced o 0 (handle_socks5_connect o p h)
unfolding handle_socks5_connect
handle_socks5_connect-Balanced o p h = ground (arith, tunnel_connection-Balanced o)

handle_connect-Balanced :
    (o : Outside) (p : AuthProxy) (h : String) → Balanced o 0 (handle_connect o p h)
unfolding handle_connect
handle_connect-Balanced o p h =
    ground (arith, handle_http_connect-Balanced o p h, handle_socks5_connect-Balanced o p h)

module _ (o : Outside) (p : AuthProxy) (r_host : String) where
  -- The host has a loopback or private address, as far as it can be looked up.
  pub record IsPrivate : Type 0 where
    pub ips : List Ip
    pub found : o.lookup_ip (host_of o r_host) ≡ ok ips
    pub private : any_private ips ≡ true

  -- A CONNECT to a host with a loopback or private address is refused with the status 403 before
  -- anything is dialled, unless the upstream is a socks5h proxy, which looks hosts up itself.
  handle_connect-IsPrivate :
      IsPrivate
      → str_eq r_host "" ≡ false
      → (p.proxy_type ≡ http) ⊎ (str_eq p.upstream.scheme "socks5h" ≡ false)
      → handle_connect o p r_host ≡ replied 403 ∷ []
  unfolding handle_connect handle_http_connect handle_socks5_connect refuses_private
  handle_connect-IsPrivate h named kind = ground (arith, h.found, h.private)

  -- Whatever goes wrong: at most one connection is made, and each one that is made is closed. The
  -- client gets one answer, if its connection can be taken over, and never two.
  pub handle_connect-closes :
      (count_opened (handle_connect o p r_host) ≡ count_closed (handle_connect o p r_host))
      × (count_opened (handle_connect o p r_host) ≤ 1)
      × (count_answers (handle_connect o p r_host) ≤ 1)
      × (o.hijack ≡ none → count_answers (handle_connect o p r_host) ≡ 1)
  handle_connect-closes =
      let b = handle_connect-Balanced o p r_host in
      (omega (arith, b.closes), omega (arith, b.closes, b.one_at_most), b.answers, b.answered)
