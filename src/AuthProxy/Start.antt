-- ===== src/AuthProxy/Start.antt =====
-- What a proxy is that StartAuthProxy returns.
use scrapemate.Prelude.{ℕ, String, none, some, ◌≡◌, ◌≢◌, refl, sym, ap, ◌∙◌, subst, eq_iff, arith}
use scrapemate.Errors.{Result, ok, err}
use scrapemate.Proxy.{Url, Net}
use scrapemate.AuthProxy.{
  AuthProxy, ProxyType, http, socks5, proxy_type_of, credentials, configure, check,
  start_auth_proxy,
}

module _ (net : Net) (base64 : String → String) where
  -- The proxy of the URL `url` has the credentials in the two forms that its kind uses.
  pub record IsFor (username password : String) (p : AuthProxy) : Type 0 where
    pub url : Url
    pub username_set : username ≢ ""
    pub password_set : password ≢ ""
    pub kind : proxy_type_of url.scheme ≡ ok p.proxy_type
    pub auth : p.auth ≡ credentials net base64 username password
    pub upstream : p.upstream ≡ (elim p.proxy_type [
      | http ↦ record url { user = some (record { username = username; password = password }) }
      | socks5 ↦ url
    ])
    pub socks5_auth : p.socks5_auth ≡ (elim p.proxy_type [
      | http ↦ none
      | socks5 ↦ some (record { username = username; password = password })
    ])

  -- What a check that passes has found.
  record Passed (proxy_url username password : String) (make : ℕ → AuthProxy) : Type 0 where
    pub url : Url
    kind : ProxyType
    pub username_set : username ≢ ""
    pub password_set : password ≢ ""
    parsed : net.parse proxy_url ≡ ok url
    known : proxy_type_of url.scheme ≡ ok kind
    made : make ≡ configure net base64 username password url kind

  check-Passed :
      (proxy_url username password : String) (make : ℕ → AuthProxy)
      → check net base64 proxy_url username password ≡ ok make
      → Passed proxy_url username password make
  unfolding check
  check-Passed proxy_url username password make h = go (net.parse proxy_url) refl
    where
      go : (r : Result Url) → net.parse proxy_url ≡ r → Passed proxy_url username password make
      go (err e) p = absurd (ground arith)
      go (ok url) p = kinds (proxy_type_of url.scheme) refl
        where
          kinds :
              (k : Result ProxyType)
              → proxy_type_of url.scheme ≡ k
              → Passed proxy_url username password make
          kinds (err e) q = absurd (ground arith)
          kinds (ok kind) q = record {
            url = url;
            kind = kind;
            username_set = λ e. ground (arith, eq_iff username "");
            password_set = λ e. ground (arith, eq_iff password "");
            parsed = p;
            known = q;
            made = ground arith;
          }

  configure-IsFor :
      (username password : String) (url : Url) (kind : ProxyType) (n : ℕ)
      → username ≢ ""
      → password ≢ ""
      → proxy_type_of url.scheme ≡ ok kind
      → IsFor username password (configure net base64 username password url kind n)
  unfolding configure
  configure-IsFor username password url http n u p k = record {
    url = url;
    username_set = u;
    password_set = p;
    kind = k;
    auth = refl;
    upstream = refl;
    socks5_auth = refl;
  }
  configure-IsFor username password url socks5 n u p k = record {
    url = url;
    username_set = u;
    password_set = p;
    kind = k;
    auth = refl;
    upstream = refl;
    socks5_auth = refl;
  }

  module _ {W : Type 0} (listen : W → Result ℕ × W) where
    -- A proxy that StartAuthProxy returns is one of an http, https, socks5 or socks5h URL, and has
    -- the user name and the password, neither of them empty: for HTTP in its upstream URL and in its
    -- authorization, for SOCKS5 in its SOCKS5 login and not in the URL.
    pub start_auth_proxy-IsFor :
        (proxy_url username password : String) (w : W) (p : AuthProxy)
        → (start_auth_proxy net base64 listen proxy_url username password w).0 ≡ ok p
        → IsFor username password p
    unfolding start_auth_proxy
    start_auth_proxy-IsFor proxy_url username password w p h =
        go (check net base64 proxy_url username password) refl
      where
        go :
            (c : Result (ℕ → AuthProxy))
            → check net base64 proxy_url username password ≡ c
            → IsFor username password p
        go (err e) q = absurd (ground arith)
        go (ok make) q = ports (listen w).0 refl
          where
            ports : (n : Result ℕ) → (listen w).0 ≡ n → IsFor username password p
            ports (err e) r = absurd (ground arith)
            ports (ok n) r =
                let c = check-Passed proxy_url username password make q in
                let whole =
                  configure-IsFor username password c.url c.kind n c.username_set c.password_set
                    c.known in
                subst (IsFor username password)
                  (ap (λ (f : ℕ → AuthProxy). f n) (sym c.made) ∙ ground arith) whole
