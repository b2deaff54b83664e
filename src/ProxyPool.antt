-- ===== src/ProxyPool.antt =====
-- NewProxyPool and parseProxy of adapters/fetchers/jshttp/pool.go. (Next is in Rotator.)
pub mod Credentials
use scrapemate.Prelude.{
  ℕ, String, str_eq, Bool, true, false, Option, none, some, List, [], ◌∷◌, ◌++◌, if◌then◌else◌,
}
use scrapemate.Errors.{Error, foreign, wrapped, Result, ok, err, wrapping, ◌>>=◌}
use scrapemate.Proxy.{User, Url, Net, user_of}
use scrapemate.AuthProxy.{AuthProxy, start_auth_proxy}

pub record ProxyConfig : Type 0 where
  pub u : String
  pub username : String
  pub password : String

module _ (net : Net) where
  unfoldable pub parse_proxy : String → Result ProxyConfig
  parse_proxy proxy = if str_eq proxy "" then err (foreign "proxy URL cannot be empty") else (do
    u ← wrapping (λ e. wrapped e "invalid proxy URL") (net.parse proxy)
    ok (record {
      u = net.text (record u { user = none });
      username = (user_of u.user).username;
      password = (user_of u.user).password;
    }))

  module _ (base64 : String → String) {W : Type 0} (listen : W → Result ℕ × W) where
    -- A round of the loop: the proxy for one text.
    unfoldable pub start_proxy : String → W → Result AuthProxy × W
    start_proxy p w = elim (parse_proxy p) [
      | err e ↦ (err (wrapped e "failed to parse proxy"), w)
      | ok cfg ↦
          let (r, w') = start_auth_proxy net base64 listen cfg.u cfg.username cfg.password w in
          (wrapping (λ e. wrapped e "failed to start auth proxy") r, w')
    ]

    -- The loop, with the proxies started so far. Beside its result it gives all proxies that it has
    -- started, which keep running: nothing closes them.
    unfoldable pub start_all :
        List String → List AuthProxy → W → Result (List AuthProxy) × List AuthProxy × W
    start_all [] started w = (ok started, started, w)
    start_all (p ∷ ps) started w =
        let (r, w') = start_proxy p w in
        elim r [ err e ↦ (err e, started, w') | ok a ↦ start_all ps (started ++ (a ∷ [])) w' ]

    unfoldable pub new_proxy_pool : List String → W → Result (List AuthProxy) × List AuthProxy × W
    new_proxy_pool [] w = (err (foreign "no proxies provided"), [], w)
    new_proxy_pool (p ∷ ps) w = start_all (p ∷ ps) [] w
