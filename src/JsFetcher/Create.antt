-- ===== src/JsFetcher/Create.antt =====
-- New of jshttp.go. Playwright is foreign: whether it is installed and runs, and the errors of its browsers.
pub mod Places
use scrapemate.Prelude.{
  ℕ, zero, suc, ◌*◌, ◌≤◌, max, ℤ, pos, negsuc, pos_part, ltb_ℤ, ltb, String, Bool, Option, none,
  some, List, [], ◌∷◌, length, if◌then◌else◌, ◌≡◌, refl, ap, ◌∙◌, sym, ◌<◌, Bool-cases,
  Option-cases, inl, inr, arith,
}
use scrapemate.Errors.{Error, Result, ok, err}
use scrapemate.Mate.Env.{Reply, replies, throws}
use scrapemate.Proxy.{Net, Proxy, proxies}
use scrapemate.AuthProxy.{AuthProxy}
use scrapemate.ProxyPool.{new_proxy_pool}
use scrapemate.PageSlots.{Pool, new_page_slot_pool, close}
use scrapemate.PageSlots.Invariant.{tokens, new_page_slot_pool-full}
use scrapemate.JsFetcher.Slots.{Slots, new_slots, close_slots}
use scrapemate.JsFetcher.Slots.Exclusive.{length-up_to}

-- A rotator is known by its proxies.
pub record JsFetcherOptions : Type 0 where
  pub headless : Bool
  pub disable_images : Bool
  pub rotator : Option (List Proxy)
  pub pool_size : ℤ
  pub max_pages_per_browser : ℤ
  pub page_reuse_limit : ℤ
  pub browser_reuse_limit : ℤ
  pub user_agent : String

-- Of the fields that New copies, `options` has all but the number of pages.
pub record JsFetch : Type 0 where
  pub options : JsFetcherOptions
  pub proxy_pool : Option (List AuthProxy)
  pub max_pages_per_browser : ℕ
  pub page_slots : Option Pool
  pub slots : Option Slots

pub record Playwright : Type 0 where
  pub install : Option Error
  pub run : Option Error
  -- The error of the i-th call of newSlot.
  pub new_slot : ℕ → Option Error

-- `if maxPagesPerBrowser < 1`
abbrev pub clamp_pages : ℤ → ℕ
clamp_pages n = if ltb_ℤ n (pos 1) then 1 else pos_part n

-- From `if maxPagesPerBrowser > 1` on, for a pool of `n` browsers.
unfoldable pub add_slots : Playwright → JsFetch → ℕ → Result JsFetch
add_slots pw ans n =
    let (made, e) = new_page_slot_pool n ans.max_pages_per_browser pw.new_slot in
    if ltb 1 ans.max_pages_per_browser
    then (elim e [ some x ↦ err x | none ↦ ok (record ans { page_slots = some made }) ])
    else ok (record ans { slots = some (new_slots n) })

-- `make` panics at a negative size.
unfoldable pub add_all_slots : Playwright → JsFetch → ℤ → Reply (Result JsFetch)
add_all_slots pw ans (negsuc n) = throws
add_all_slots pw ans (pos n) = replies (add_slots pw ans n)

-- From `maxPagesPerBrowser` on.
unfoldable pub make_fetcher :
    Playwright → JsFetcherOptions → Option (List AuthProxy) → Reply (Result JsFetch)
make_fetcher pw options pool =
    add_all_slots pw
      (record {
        options = options;
        proxy_pool = pool;
        max_pages_per_browser = clamp_pages options.max_pages_per_browser;
        page_slots = none;
        slots = none;
      })
      options.pool_size

module _ (net : Net) (base64 : String → String) {W : Type 0} (listen : W → Result ℕ × W) where
  -- The proxies are started if there are any.
  unfoldable pub start_proxies : Option (List Proxy) → W → Result (Option (List AuthProxy)) × W
  start_proxies none w = (ok none, w)
  start_proxies (some []) w = (ok none, w)
  start_proxies (some (p ∷ ps)) w =
      let (r, _, w') = new_proxy_pool net base64 listen (proxies net (p ∷ ps)) w in
      elim r [ err e ↦ (err e, w') | ok pool ↦ (ok (some pool), w') ]

  unfoldable pub new_js_fetcher : Playwright → JsFetcherOptions → W → Reply (Result JsFetch) × W
  new_js_fetcher pw options w =
      let (r, w') = start_proxies options.rotator w in
      elim pw.install [
        | some e ↦ (replies (err e), w)
        | none ↦ elim pw.run [
          | some e ↦ (replies (err e), w)
          | none ↦ elim r [
            | err e ↦ (replies (err e), w')
            | ok pool ↦ (make_fetcher pw options pool, w')
          ]
        ]
      ]

-- Close; the proxies of the pool keep running.
unfoldable pub close_fetcher : JsFetch → JsFetch
close_fetcher f = record f {
  page_slots = elim f.page_slots [ none ↦ none | some pool ↦ some (close pool) ];
  slots = elim f.slots [ none ↦ none | some slots ↦ some (close_slots slots) ];
}
