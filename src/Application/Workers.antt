-- ===== src/Application/Workers.antt =====
-- Whether the fetcher of an application has a page for each of its workers.
use scrapemate.Prelude.{
  ℕ, ◌+◌, ◌*◌, ◌≤◌, ◌<◌, ◌^◌, ◌≡◌, ◌∙◌, refl, ap, arith, pos, String, Option, List,
}
use scrapemate.Errors.{Result, ok}
use scrapemate.Mate.Env.{Reply, replies, throws}
use scrapemate.Config.{Config}
use scrapemate.Config.Pages.{derived_browser_pool_size-IsCover}
use scrapemate.Proxy.{Net, Proxy}
use scrapemate.JsFetcher.Create.{JsFetch, Playwright, clamp_pages}
use scrapemate.JsFetcher.Create.Places.{places, new_js_fetcher-places}
use scrapemate.Application.{js_fetcher_options, get_rotator, get_js_fetcher, get_fetcher_js}

module _ {Pr Wr J : Type 0} (net : Net) (base64 : String → String) {W : Type 0}
    (listen : W → Result ℕ × W) (pw : Playwright) where
  get_js_fetcher-places :
      (cfg : Config Pr Wr J) (rotator : Option (List Proxy)) (w : W) (f : JsFetch) (c m : ℕ)
      → cfg.concurrency ≡ pos c
      → cfg.max_pages_per_browser ≡ pos m
      → cfg.browser_pool_size ≡ pos 0
      → 0 < m
      → c + m < 2 ^ 63
      → (get_js_fetcher net base64 listen pw cfg rotator w).0 ≡ replies (ok f)
      → c ≤ places f
  unfolding get_js_fetcher
  get_js_fetcher-places cfg rotator w f c m workers pages unset positive small h =
      let (n, size, cover) =
        derived_browser_pool_size-IsCover cfg c m workers pages unset positive small in
      let full =
        new_js_fetcher-places net base64 listen pw (js_fetcher_options cfg rotator) w f n size h in
      let one : clamp_pages cfg.max_pages_per_browser ≡ m = ap clamp_pages pages ∙ ground arith in
      let all : places f ≡ n * m = full ∙ ap (λ k. n * k) one in omega (arith, all, cover.enough)

  -- If the number of browsers is not set, the JavaScript fetcher that getFetcher makes has a page for
  -- every worker of the application at the same time, as long as the numbers fit 64 bits.
  pub get_fetcher_js-places :
      (cfg : Config Pr Wr J) (w : W) (f : JsFetch) (c m : ℕ)
      → cfg.concurrency ≡ pos c
      → cfg.max_pages_per_browser ≡ pos m
      → cfg.browser_pool_size ≡ pos 0
      → 0 < m
      → c + m < 2 ^ 63
      → (get_fetcher_js net base64 listen pw cfg w).0 ≡ replies (ok f)
      → c ≤ places f
  unfolding get_fetcher_js
  get_fetcher_js-places cfg w f c m workers pages unset positive small h =
      go (get_rotator net cfg) refl
    where
      go : (r : Reply (Option (List Proxy))) → get_rotator net cfg ≡ r → c ≤ places f
      go throws q = absurd (ground arith)
      go (replies rotator) q =
          get_js_fetcher-places cfg rotator w f c m workers pages unset positive small
            (ground arith)
