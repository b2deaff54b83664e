-- ===== src/AuthProxy/Connect.antt =====
-- handleConnect of local_proxy.go, for both kinds of upstream, and the tunnel. A request leaves a
-- list of events, the first one first. DNS, dialling, the upstream's answer and the taking over of
-- the client's connection are foreign: `Outside` says how they go for this request.
pub mod Private
use scrapemate.Prelude.{
  ℕ, ℤ, pos, eqb_ℤ, String, ◌<>◌, str_eq, Bool, true, false, not, ◌&&◌, ◌||◌, Option, none, some,
  List, [], ◌∷◌, ◌++◌, if◌then◌else◌,
}
use scrapemate.Errors.{Error, Result, ok, err}
use scrapemate.AuthProxy.{AuthProxy, ProxyType, http, socks5}

pub record Ip : Type 0 where
  pub is_loopback : Bool
  pub is_private : Bool

pub record Outside : Type 0 where
  -- net.SplitHostPort, of which the host is used.
  pub split_host_port : String → Result String
  pub lookup_ip : String → Result (List Ip)
  pub dial : String → Option Error
  pub socks5_dialer : Option Error
  pub socks5_dial : String → Option Error
  pub write : String → Option Error
  -- http.ReadResponse: its status code.
  pub read_response : Result ℤ
  pub is_hijacker : Bool
  pub hijack : Option Error
  -- Which of the two copies of the tunnel ends first.
  pub client_first : Bool

pub data Event : Type 0 where
  -- A connection to the upstream proxy, or through it to a host.
  dialed : String → Event
  opened : Event
  sent : String → Event
  closed_upstream closed_client : Event
  -- http.Error with a status, and the 200 that opens a tunnel.
  replied : ℕ → Event
  established : Event

unfoldable pub any_private : List Ip → Bool
any_private [] = false
any_private (ip ∷ ips) = (ip.is_loopback || ip.is_private) || any_private ips

module _ (o : Outside) where
  -- checkPrivateNetwork refuses; a host that cannot be looked up is allowed.
  unfoldable pub refuses_private : String → Bool
  refuses_private host = elim (o.lookup_ip host) [ err e ↦ false | ok ips ↦ any_private ips ]

  unfoldable pub tunnel_connection : List Event
  tunnel_connection =
      if o.is_hijacker
      then (elim o.hijack [
        | some e ↦ closed_upstream ∷ []
        | none ↦
            established
            ∷ (if o.client_first
                then closed_upstream ∷ closed_client ∷ []
                else closed_client ∷ closed_upstream ∷ [])
      ])
      else replied 500 ∷ closed_upstream ∷ []

  abbrev pub host_of : String → String
  host_of r_host = elim (o.split_host_port r_host) [ err e ↦ r_host | ok host ↦ host ]

  abbrev pub connect_request : AuthProxy → String → String
  connect_request p r_host =
      "CONNECT "
      <> (r_host
          <> (" HTTP/1.1\r\nHost: "
              <> (r_host <> ("\r\nProxy-Authorization: Basic " <> (p.auth <> "\r\n\r\n")))))

  -- From the connection to an HTTP upstream on.
  unfoldable pub ask_upstream : AuthProxy → String → List Event
  ask_upstream p r_host =
      sent (connect_request p r_host) ∷ (elim (o.write (connect_request p r_host)) [
        | some e ↦ replied 502 ∷ closed_upstream ∷ []
        | none ↦ elim o.read_response [
          | err e ↦ replied 502 ∷ closed_upstream ∷ []
          | ok status ↦
              if eqb_ℤ status (pos 200)
              then tunnel_connection
              else replied 407 ∷ closed_upstream ∷ []
        ]
      ])

  unfoldable pub handle_http_connect : AuthProxy → String → List Event
  handle_http_connect p r_host =
      if str_eq r_host ""
      then replied 400 ∷ []
      else if refuses_private (host_of r_host)
      then replied 403 ∷ []
      else dialed p.upstream.host ∷ (elim (o.dial p.upstream.host) [
        | some e ↦ replied 502 ∷ []
        | none ↦ opened ∷ ask_upstream p r_host
      ])

  unfoldable pub handle_socks5_connect : AuthProxy → String → List Event
  handle_socks5_connect p r_host =
      if str_eq r_host ""
      then replied 400 ∷ []
      else if not (str_eq p.upstream.scheme "socks5h") && refuses_private (host_of r_host)
      then replied 403 ∷ []
      else (elim o.socks5_dialer [
        | some e ↦ replied 502 ∷ []
        | none ↦ dialed r_host ∷ (elim (o.socks5_dial r_host) [
          | some e ↦ replied 502 ∷ []
          | none ↦ opened ∷ tunnel_connection
        ])
      ])

  unfoldable pub handle_connect : AuthProxy → String → List Event
  handle_connect p r_host = elim p.proxy_type [
    | http ↦ handle_http_connect p r_host
    | socks5 ↦ handle_socks5_connect p r_host
  ]
