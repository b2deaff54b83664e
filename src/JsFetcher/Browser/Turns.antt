-- ===== src/JsFetcher/Browser/Turns.antt =====
-- Which proxies the browsers of newBrowser get.
use scrapemate.Prelude.{
  ℕ, zero, suc, ◌+◌, ◌%◌, ◌<◌, String, Bool, Option, none, some, List, [], ◌∷◌, ◌++◌, map, length,
  get_elem?, get_elem?_total, str_eq, if◌then◌else◌, ◌≡◌, refl, sym, ap, ◌∙◌, subst, arith,
}
use scrapemate.Errors.{Result, ok, err}
use scrapemate.Mate.Env.{Reply, replies, throws}
use scrapemate.AuthProxy.{AuthProxy}
use scrapemate.AuthProxy.Clients.{address}
use scrapemate.Rotator.{Pool, pool_next}
use scrapemate.JsFetcher.Browser.{
  default_ua, ContextOptions, Chromium, Outcome, launch_options, context_options, next_server,
  with_context, after_launch, new_browser, asked_by,
}

-- The server of the proxy whose turn is the number `c`.
abbrev pub server_at : List AuthProxy → ℕ → String
server_at ps c = elim (get_elem? ps (c % length ps)) [ none ↦ "" | some a ↦ address a ]

-- Those of `k` turns, from `c` on.
abbrev pub in_turn : List AuthProxy → (c k : ℕ) → List String
in_turn ps c zero = []
in_turn ps c (suc k) = server_at ps c ∷ in_turn ps (c + 1) k

-- The contexts were asked for with the given user agent, or the default one, and the servers of the proxies in turn;
-- the pool has moved on by as many.
pub record IsInTurn (ua : String) (pool : Pool AuthProxy) (asked : List ContextOptions)
    (last : Option (Pool AuthProxy)) : Type 0 where
  pub servers :
      map (λ (o : ContextOptions). o.proxy) asked
      ≡ map some (in_turn pool.proxies pool.current (length asked))
  pub agents :
      map (λ (o : ContextOptions). o.user_agent) asked
      ≡ map (λ (o : ContextOptions). if str_eq ua "" then default_ua else ua) asked
  pub next : last ≡ some (record pool { current = pool.current + length asked })

module _ {W B C : Type 0} (chromium : Chromium W B C) where
  -- A call whose launch failed, or one that took its turn.
  data Took (ua : String) (pool : Pool AuthProxy) (o : Outcome W B C) : Type 0 where
    no_launch : o.asked ≡ [] → o.pool ≡ some pool → Took ua pool o
    one :
        o.asked ≡ context_options ua (some (server_at pool.proxies pool.current)) ∷ []
        → o.pool ≡ some (record pool { current = pool.current + 1 })
        → Took ua pool o

  with_context-Took :
      (ua : String) (br : B) (pool : Pool AuthProxy) (r : Reply (Option String)) (w : W)
      → r ≡ replies (some (server_at pool.proxies pool.current))
      → Took ua pool
          (with_context chromium ua br r (some (record pool { current = pool.current + 1 })) w)
  unfolding with_context
  with_context-Took ua br pool throws w h = absurd (ground arith)
  with_context-Took ua br pool (replies none) w h = absurd (ground arith)
  with_context-Took ua br pool (replies (some server)) w h =
      let same : server ≡ server_at pool.proxies pool.current = ground arith in
      one (ap (λ s. context_options ua (some s) ∷ []) same) refl

  after_launch-Took :
      (ua : String) (br : Result B) (pool : Pool AuthProxy) (w : W)
      → 0 < length pool.proxies
      → Took ua pool (after_launch chromium ua br (some pool) w)
  unfolding after_launch next_server pool_next
  after_launch-Took ua (err e) pool w some_proxy = no_launch refl refl
  after_launch-Took ua (ok br) pool w some_proxy =
      let (p, found) =
        get_elem?_total pool.proxies (pool.current % length pool.proxies) (omega arith) in
      let taken : (next_server (some pool)).0 ≡ replies (some (address p)) =
        rw (next_server, found) refl in
      let turn : server_at pool.proxies pool.current ≡ address p = rw (server_at, found) refl in
      with_context-Took ua br pool (next_server (some pool)).0 w
        (taken ∙ ap (λ s. replies (some s)) (sym turn))

  Took-IsInTurn :
      (ua : String) (pool : Pool AuthProxy) (o : Outcome W B C) (rest : List ContextOptions)
      (last : Option (Pool AuthProxy))
      → Took ua pool o
      → ((pool' : Pool AuthProxy)
          → o.pool ≡ some pool'
          → pool'.proxies ≡ pool.proxies
          → IsInTurn ua pool' rest last)
      → IsInTurn ua pool (o.asked ++ rest) last
  unfolding context_options
  Took-IsInTurn ua pool o rest last (no_launch nothing same) h =
      subst (λ a. IsInTurn ua pool (a ++ rest) last) (sym nothing) (h pool same refl)
  Took-IsInTurn ua pool o rest last (one asked next) h =
      let r = h (record pool { current = pool.current + 1 }) next refl in
      let moved : pool.current + 1 + length rest ≡ pool.current + suc (length rest) = omega arith in
      subst (λ a. IsInTurn ua pool (a ++ rest) last) (sym asked)
        (record {
          servers = ap (λ ss. some (server_at pool.proxies pool.current) ∷ ss) r.servers;
          agents = ap (λ us. (if str_eq ua "" then default_ua else ua) ∷ us) r.agents;
          next = r.next ∙ ap (λ c. some (record { proxies = pool.proxies; current = c })) moved;
        })

  -- The contexts that any number of calls of newBrowser ask for, over a proxy pool that is not empty, have as their proxies the servers of
  -- the pool's proxies, in turn from its current one on, and the given user agent or, if that is empty, the default one;
  -- a call whose browser does not launch takes no turn.
  pub asked_by-IsInTurn :
      (n : ℕ) (headless disable_images : Bool) (pool : Pool AuthProxy) (ua : String) (w : W)
      → 0 < length pool.proxies
      → let (asked, last) = asked_by chromium n headless disable_images (some pool) ua w in
        IsInTurn ua pool asked last
  unfolding asked_by new_browser
  asked_by-IsInTurn zero headless disable_images pool ua w some_proxy =
      let still : pool.current ≡ pool.current + 0 = omega arith in
      record {
        servers = refl;
        agents = refl;
        next = ap (λ c. some (record { proxies = pool.proxies; current = c })) still;
      }
  asked_by-IsInTurn (suc n) headless disable_images pool ua w some_proxy =
      let (br, w') = chromium.launch (launch_options headless disable_images) w in
      let o = after_launch chromium ua br (some pool) w' in
      let (rest, last) = asked_by chromium n headless disable_images o.pool ua o.world in
      Took-IsInTurn ua pool o rest last (after_launch-Took ua br pool w' some_proxy)
        (λ pool' at same.
          subst
            (λ p.
              let (rest, last) = asked_by chromium n headless disable_images p ua o.world in
              IsInTurn ua pool' rest last)
            (sym at)
            (asked_by-IsInTurn n headless disable_images pool' ua o.world
              (subst (λ ps. 0 < length ps) (sym same) some_proxy)))
