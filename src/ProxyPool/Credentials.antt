-- ===== src/ProxyPool/Credentials.antt =====
-- Which proxies NewProxyPool takes, and what is left when it does not.
use scrapemate.Prelude.{
  ℕ, String, false, none, List, [], ◌∷◌, ◌++◌, map, append-nil, append_assoc, ◌≡◌, ◌≢◌, refl, sym,
  ◌∙◌, subst, ap, arith,
}
use scrapemate.Errors.{Error, wrapped, Result, ok, err, wrapping}
use scrapemate.Proxy.{Url, Net, Proxy, user_of, has_credentials, full_url, proxies}
use scrapemate.Proxy.Urls.{IsPlain}
use scrapemate.AuthProxy.{AuthProxy, start_auth_proxy}
use scrapemate.AuthProxy.Start.{IsFor, start_auth_proxy-IsFor}
use scrapemate.ProxyPool.{parse_proxy, start_proxy, start_all, new_proxy_pool}

module _ (net : Net) (base64 : String → String) {W : Type 0} (listen : W → Result ℕ × W) where
  -- The text of a proxy with a user name and a password.
  abbrev pub HasLogin : String → Type 0
  HasLogin p =
      (u : Url) × (net.parse p ≡ ok u)
      × ((user_of u.user).username ≢ "")
      × ((user_of u.user).password ≢ "")

  -- A proxy that was started for a text: with the text's user name and password.
  pub record Serves (p : String) (a : AuthProxy) : Type 0 where
    pub url : Url
    pub parsed : net.parse p ≡ ok url
    pub found : IsFor net base64 (user_of url.user).username (user_of url.user).password a

  wrapping_ok :
      {A : Type 0} (f : Error → Error) (r : Result A) (a : A) → wrapping f r ≡ ok a → r ≡ ok a
  wrapping_ok f (ok b) a h = h
  wrapping_ok f (err e) a h = absurd (ground arith)

  start_proxy-Serves :
      (p : String) (w : W) (a : AuthProxy)
      → (start_proxy net base64 listen p w).0 ≡ ok a
      → Serves p a
  unfolding start_proxy parse_proxy
  start_proxy-Serves p w a h = go (net.parse p) refl
    where
      go : (r : Result Url) → net.parse p ≡ r → Serves p a
      go (err e) q = absurd (ground arith)
      go (ok u) q =
          let found =
            start_auth_proxy-IsFor net base64 listen (net.text (record u { user = none }))
              (user_of u.user).username (user_of u.user).password w a
              (wrapping_ok (λ e. wrapped e "failed to start auth proxy")
                (start_auth_proxy net base64 listen (net.text (record u { user = none }))
                  (user_of u.user).username (user_of u.user).password w).0
                a (ground arith)) in
          record { url = u; parsed = q; found = found }

  abbrev pub AllHaveLogin : List String → Type 0
  AllHaveLogin [] = Unit
  AllHaveLogin (p ∷ ps) = HasLogin p × AllHaveLogin ps

  -- One proxy for each text, in order, that is given the text's user name and password for its upstream.
  abbrev pub AreFor : List String → List AuthProxy → Type 0
  AreFor [] [] = Unit
  AreFor [] (a ∷ others) = ⊥
  AreFor (p ∷ ps) [] = ⊥
  AreFor (p ∷ ps) (a ∷ others) = Serves p a × AreFor ps others

  AreFor-AllHaveLogin :
      (ps : List String) (others : List AuthProxy) → AreFor ps others → AllHaveLogin ps
  AreFor-AllHaveLogin [] others h = tt
  AreFor-AllHaveLogin (p ∷ ps) [] h = absurd h
  AreFor-AllHaveLogin (p ∷ ps) (a ∷ others) (s, h) =
      let found = s.found in
      ((s.url, s.parsed, found.username_set, found.password_set), AreFor-AllHaveLogin ps others h)

  -- What the loop does from `started`.
  pub record Outcome (ps : List String) (started : List AuthProxy)
      (r : Result (List AuthProxy) × List AuthProxy × W) : Type 0 where
    pub complete :
        (pool : List AuthProxy)
        → r.0 ≡ ok pool
        → (r.1 ≡ pool) × (others : List AuthProxy) × (pool ≡ started ++ others) × AreFor ps others
    pub kept : (later : List AuthProxy) × (r.1 ≡ started ++ later)

  start_all-Outcome :
      (ps : List String) (started : List AuthProxy) (w : W)
      → Outcome ps started (start_all net base64 listen ps started w)
  unfolding start_all
  start_all-Outcome [] started w = record {
    complete = λ pool x.
        let same : started ≡ pool = ground arith in
        (same, [], sym same ∙ sym (append-nil started), tt);
    kept = ([], sym (append-nil started));
  }
  start_all-Outcome (p ∷ ps) started w =
      go (start_proxy net base64 listen p w) refl
        (λ a w'. start_all-Outcome ps (started ++ (a ∷ [])) w')
    where
      go :
          (r : Result AuthProxy × W)
          → start_proxy net base64 listen p w ≡ r
          → ((a : AuthProxy) (w' : W)
              → Outcome ps
                  (started ++ (a ∷ []))
                  (start_all net base64 listen ps (started ++ (a ∷ [])) w'))
          → Outcome (p ∷ ps) started (elim r.0 [
            | err e ↦ (err e, started, r.1)
            | ok a ↦ start_all net base64 listen ps (started ++ (a ∷ [])) r.1
          ])
      go (err e, w') q ih = record {
        complete = λ pool x. absurd (ground arith);
        kept = ([], sym (append-nil started));
      }
      go (ok a, w') q ih =
          let rest = ih a w' in
          record {
            complete = λ pool x.
                let (same, others, split, all) = rest.complete pool x in
                (
                  same,
                  a ∷ others,
                  split ∙ append_assoc started (a ∷ []) others,
                  (start_proxy-Serves p w a (ap (λ (r : Result AuthProxy × W). r.0) q), all),
                );
            kept =
                let (later, split) = rest.kept in
                (a ∷ later, split ∙ append_assoc started (a ∷ []) later);
          }

  AllHaveLogin-at :
      (ps : List Proxy) (p : Proxy) (qs : List Proxy)
      → AllHaveLogin (map (full_url net) (ps ++ (p ∷ qs)))
      → HasLogin (full_url net p)
  AllHaveLogin-at [] p qs h = h.0
  AllHaveLogin-at (x ∷ ps) p qs h = AllHaveLogin-at ps p qs h.1

  -- NewProxyPool over the proxies of a rotator, as the JavaScript fetcher calls it, fails as soon as
  -- one of them has no user name or no password: such a proxy cannot be used with it.
  new_proxy_pool-ne-ok :
      (ps qs : List Proxy) (p : Proxy) (pu : Url) (w : W) (pool : List AuthProxy)
      → IsPlain net p pu
      → has_credentials p ≡ false
      → (new_proxy_pool net base64 listen (proxies net (ps ++ (p ∷ qs))) w).0 ≢ ok pool
  unfolding new_proxy_pool proxies full_url
  new_proxy_pool-ne-ok ps qs p pu w pool plain bare h =
      let o = start_all-Outcome (proxies net (ps ++ (p ∷ qs))) [] w in
      let (u, parsed, named, _) =
        AllHaveLogin-at ps p qs (all_have _ (o.complete pool (filled ps h))) in
      named (ground (arith, parsed, plain.parsed, plain.no_user))
    where
      all_have :
          (qs : List String) {r : List AuthProxy}
          → (r ≡ pool) × (others : List AuthProxy) × (pool ≡ [] ++ others) × AreFor qs others
          → AllHaveLogin qs
      all_have qs (same, others, split, all) = AreFor-AllHaveLogin qs others all

      filled :
          (ps : List Proxy)
          → (new_proxy_pool net base64 listen (proxies net (ps ++ (p ∷ qs))) w).0 ≡ ok pool
          → (start_all net base64 listen (proxies net (ps ++ (p ∷ qs))) [] w).0 ≡ ok pool
      filled [] h = h
      filled (x ∷ ps) h = h

  -- A pool that NewProxyPool returns has one proxy for each text, in order, which is given the text's user name and
  -- password, both of them not empty, for its upstream; these are all the proxies that were started. Once
  -- a proxy was started for the first text, it is the first of those that run when NewProxyPool has returned, also when
  -- that returns an error, and so no pool.
  pub new_proxy_pool-Outcome :
      (p : String) (ps : List String) (w : W)
      → ((pool : List AuthProxy)
          → (new_proxy_pool net base64 listen (p ∷ ps) w).0 ≡ ok pool
          → ((new_proxy_pool net base64 listen (p ∷ ps) w).1 ≡ pool) × AreFor (p ∷ ps) pool)
        × ((a : AuthProxy) (w' : W)
            → start_proxy net base64 listen p w ≡ (ok a, w')
            → (later : List AuthProxy) × ((new_proxy_pool net base64 listen (p ∷ ps) w).1
                ≡ a ∷ later))
  unfolding new_proxy_pool start_all
  new_proxy_pool-Outcome p ps w =
      let o = start_all-Outcome (p ∷ ps) [] w in
      (
        λ pool h.
            let (same, others, split, all) = o.complete pool h in
            (same, subst (AreFor (p ∷ ps)) (sym split) all),
        λ a w' h.
            let (later, split) = (start_all-Outcome ps (a ∷ []) w').kept in
            (
              later,
              rw
                  (
                    new_proxy_pool,
                    start_all,
                    ap (λ (r : Result AuthProxy × W). r.0) h,
                    ap (λ (r : Result AuthProxy × W). r.1) h,
                  )
                  split,
            ),
      )
