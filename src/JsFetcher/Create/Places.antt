-- ===== src/JsFetcher/Create/Places.antt =====
-- How many pages a fetcher that New returns has.
use scrapemate.Prelude.{
  ℕ, ◌*◌, pos, ltb, String, Option, none, some, List, length, ◌≡◌, refl, ap, ◌∙◌, sym, ◌<◌,
  Bool-cases, Option-cases, inl, inr, arith,
}
use scrapemate.Errors.{Result, ok, err}
use scrapemate.Mate.Env.{replies}
use scrapemate.Proxy.{Net}
use scrapemate.AuthProxy.{AuthProxy}
use scrapemate.PageSlots.{new_page_slot_pool}
use scrapemate.PageSlots.Invariant.{tokens, new_page_slot_pool-full}
use scrapemate.JsFetcher.Slots.Exclusive.{length-up_to}
use scrapemate.JsFetcher.Create.{
  JsFetcherOptions, JsFetch, Playwright, clamp_pages, add_slots, add_all_slots, make_fetcher,
  start_proxies, new_js_fetcher,
}

-- How many calls of Fetch can have a page at a time.
abbrev pub places : JsFetch → ℕ
places f = elim f.page_slots [
  | some pool ↦ tokens pool
  | none ↦ elim f.slots [ some slots ↦ length slots.idle | none ↦ 0 ]
]

add_slots-places :
    (pw : Playwright) (ans f : JsFetch) (n : ℕ)
    → ans.page_slots ≡ none
    → 0 < ans.max_pages_per_browser
    → add_slots pw ans n ≡ ok f
    → places f ≡ n * ans.max_pages_per_browser
unfolding add_slots
add_slots-places pw ans f n empty positive h = elim (Bool-cases (ltb 1 ans.max_pages_per_browser)) [
  | inr single ↦ ground (arith, length-up_to n)
  | inl many ↦ elim (Option-cases (new_page_slot_pool n ans.max_pages_per_browser pw.new_slot).1) [
    | inr (x, e) ↦ absurd (ground arith)
    | inl e ↦
        let full = new_page_slot_pool-full n ans.max_pages_per_browser pw.new_slot e in
        ground (arith, full)
  ]
]

replies_inj : {A : Type 0} (a b : A) → replies a ≡ replies b → a ≡ b
replies_inj a b h = ground arith

make_fetcher-places :
    (pw : Playwright) (options : JsFetcherOptions) (pool : Option (List AuthProxy)) (f : JsFetch)
    (n : ℕ)
    → options.pool_size ≡ pos n
    → make_fetcher pw options pool ≡ replies (ok f)
    → places f ≡ n * clamp_pages options.max_pages_per_browser
unfolding make_fetcher add_all_slots
make_fetcher-places pw options pool f n size h =
    let ans : JsFetch = record {
      options = options;
      proxy_pool = pool;
      max_pages_per_browser = clamp_pages options.max_pages_per_browser;
      page_slots = none;
      slots = none;
    } in
    add_slots-places pw ans f n refl (ground arith)
      (replies_inj (add_slots pw ans n) (ok f) (ap (add_all_slots pw ans) (sym size) ∙ h))

module _ (net : Net) (base64 : String → String) {W : Type 0} (listen : W → Result ℕ × W) where
  -- A fetcher that New returns has a place for each page of each browser.
  pub new_js_fetcher-places :
      (pw : Playwright) (options : JsFetcherOptions) (w : W) (f : JsFetch) (n : ℕ)
      → options.pool_size ≡ pos n
      → (new_js_fetcher net base64 listen pw options w).0 ≡ replies (ok f)
      → places f ≡ n * clamp_pages options.max_pages_per_browser
  unfolding new_js_fetcher
  new_js_fetcher-places pw options w f n size h = elim (Option-cases pw.install) [
    | inr (x, e) ↦ absurd (ground arith)
    | inl e ↦ elim (Option-cases pw.run) [
      | inr (x, e') ↦ absurd (ground arith)
      | inl e' ↦ go e e' (start_proxies net base64 listen options.rotator w).0 refl
    ]
  ]
    where
      go :
          pw.install ≡ none
          → pw.run ≡ none
          → (r : Result (Option (List AuthProxy)))
          → (start_proxies net base64 listen options.rotator w).0 ≡ r
          → places f ≡ n * clamp_pages options.max_pages_per_browser
      go e e' (err x) q = absurd (ground arith)
      go e e' (ok pool) q = make_fetcher-places pw options pool f n size (ground arith)
