-- ===== src/Proxy.antt =====
-- proxy.go, and New and RoundTrip of adapters/proxy/proxy.go. net/url and strings.ToLower are
-- foreign: `Net`. A panic is `throws`.
pub mod Urls
pub mod Transports
use Prim.Native.String
use scrapemate.Prelude.{
  String, ◌<>◌, str_eq, starts_with, Bool, true, false, not, ◌&&◌, ◌||◌, Option, none, some, List,
  [], ◌∷◌, map, if◌then◌else◌, find, insert,
}
use scrapemate.Errors.{Error, foreign, Result, ok, err, ◌>>=◌}
use scrapemate.Mate.Env.{Reply, replies, throws}

-- The user of a URL; the password is "" if it is not set.
pub record User : Type 0 where
  pub username : String
  pub password : String

-- The parts of a URL; `rest` is what comes after the host.
pub record Url : Type 0 where
  pub scheme : String
  pub user : Option User
  pub host : String
  pub rest : String

pub record Net : Type 0 where
  pub parse : String → Result Url
  pub text : Url → String
  pub to_lower : String → String

pub record Proxy : Type 0 where
  pub url : String
  pub username : String
  pub password : String

abbrev pub zero_proxy : Proxy
zero_proxy = record { url = ""; username = ""; password = "" }

-- strings.Contains
unfoldable pub contains : String → String → Bool
contains String.[] part = starts_with String.[] part
contains (String.◌∷◌ c s) part = starts_with (String.◌∷◌ c s) part || contains s part

abbrev pub supported : String → Bool
supported scheme =
    str_eq scheme "socks5"
    || (str_eq scheme "http" || (str_eq scheme "https" || str_eq scheme "socks5h"))

-- The two assignments from `pu.User`, which is nil if there is none.
abbrev pub user_of : Option User → User
user_of none = record { username = ""; password = "" }
user_of (some u) = u

abbrev pub has_credentials : Proxy → Bool
has_credentials p = not (str_eq p.username "") && not (str_eq p.password "")

-- pu.User = url.UserPassword(…)
abbrev pub with_user : Proxy → Url → Url
with_user p pu = record pu { user = some (record { username = p.username; password = p.password }) }

-- The transport cache: for each URL the proxy URL that its transport was made with.
abbrev pub Transports : Type 0
Transports = List (String × Url)

module _ (net : Net) where
  unfoldable pub full_url : Proxy → String
  full_url p =
      if has_credentials p
      then (elim (net.parse p.url) [ err e ↦ p.url | ok pu ↦ net.text (with_user p pu) ])
      else p.url

  -- The proxy of a URL that was parsed.
  unfoldable pub of_url : Url → Result Proxy
  of_url pu =
      let scheme = net.to_lower pu.scheme in
      if supported scheme
      then ok (record {
        url = scheme <> ("://" <> pu.host);
        username = (user_of pu.user).username;
        password = (user_of pu.user).password;
      })
      else err (foreign ("invalid proxy type: " <> scheme))

  unfoldable pub new_proxy : String → Result Proxy
  new_proxy u = do pu ← net.parse (if contains u "://" then u else "socks5://" <> u); of_url pu

  -- The loop of New; NewProxy's error panics.
  unfoldable pub new_proxies : List String → Reply (List Proxy)
  new_proxies [] = replies []
  new_proxies (u ∷ us) =
      let rest = new_proxies us in
      elim (new_proxy u) [
        | err e ↦ throws
        | ok p ↦ elim rest [ throws ↦ throws | replies ps ↦ replies (p ∷ ps) ]
      ]

  -- New of the rotator, without the counter, which starts at 0.
  unfoldable pub new : List String → Reply (List Proxy)
  new [] = throws
  new (u ∷ us) = new_proxies (u ∷ us)

  -- Proxies of a rotator that is not nil.
  unfoldable pub proxies : List Proxy → List String
  proxies ps = map full_url ps

  -- RoundTrip through the proxy `next`, up to `tr.RoundTrip`: the proxy URL of the transport.
  unfoldable pub transport : Proxy → Transports → Result Url × Transports
  transport next cache = elim (find next.url cache) [
    | some u ↦ (ok u, cache)
    | none ↦ elim (net.parse next.url) [
      | err e ↦ (err (foreign "error parsing proxy URL"), cache)
      | ok pu ↦
          let used = if has_credentials next then with_user next pu else pu in
          (ok used, insert next.url used cache)
    ]
  ]
