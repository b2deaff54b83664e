-- ===== src/Application.antt =====
-- scrapemateapp/scrapemateapp.go and jsfetcher_playwright.go: what an application makes of its
-- configuration.
pub mod Workers
pub mod Made
pub mod Run
use scrapemate.Prelude.{
  ℕ, ℤ, pos, String, str_eq, ◌++◌, if◌then◌else◌, not, Bool, true, false, Option, none, some, List,
  [], ◌∷◌,
}
use scrapemate.Errors.{Error, Result, ok, err}
use scrapemate.Mate.Env.{
  Reply, replies, throws, ScrapeMate, JobProvider, HttpFetcher, HtmlParser, Cacher,
}
use scrapemate.Mate.Options.{
  Setting, context, provider, fetcher, parser, concurrent, exit_because_of_inactivity, cacher, init,
}
use scrapemate.Mate.Options as Options
use scrapemate.Config.{Config, derived_browser_pool_size}
use scrapemate.Proxy.{Net, Proxy}
use scrapemate.Proxy as Proxies
use scrapemate.JsFetcher.Create.{JsFetcherOptions, JsFetch, Playwright, new_js_fetcher}

module _ {Pr Wr J : Type 0} where
  abbrev pub js_fetcher_options : Config Pr Wr J → Option (List Proxy) → JsFetcherOptions
  js_fetcher_options cfg rotator = record {
    headless = not cfg.js_opts.headfull;
    disable_images = cfg.js_opts.disable_images;
    rotator = rotator;
    pool_size = derived_browser_pool_size cfg;
    max_pages_per_browser = cfg.max_pages_per_browser;
    page_reuse_limit = cfg.page_reuse_limit;
    browser_reuse_limit = cfg.browser_reuse_limit;
    user_agent = cfg.js_opts.ua;
  }

  module _ (net : Net) where
    -- getFetcher's rotator; New panics at a text that is no proxy.
    unfoldable pub get_rotator : Config Pr Wr J → Reply (Option (List Proxy))
    get_rotator cfg = elim cfg.proxies [
      | [] ↦ replies none
      | u ∷ us ↦ elim (Proxies.new net (u ∷ us)) [
        | throws ↦ throws
        | replies ps ↦ replies (some ps)
      ]
    ]

  module _ (net : Net) (base64 : String → String) {W : Type 0} (listen : W → Result ℕ × W)
      (pw : Playwright) where
    unfoldable pub get_js_fetcher :
        Config Pr Wr J → Option (List Proxy) → W → Reply (Result JsFetch) × W
    get_js_fetcher cfg rotator w =
        new_js_fetcher net base64 listen pw (js_fetcher_options cfg rotator) w

    -- getFetcher, with UseJS.
    unfoldable pub get_fetcher_js : Config Pr Wr J → W → Reply (Result JsFetch) × W
    get_fetcher_js cfg w = elim (get_rotator net cfg) [
      | throws ↦ (throws, w)
      | replies rotator ↦ get_js_fetcher cfg rotator w
    ]

-- What getMate puts together: the constructors of the other packages.
pub record Parts (W J V : Type 0) : Type 0 where
  pub memory : JobProvider W J
  pub goquery : HtmlParser W V
  pub file_cache : String → W → Result (Cacher W V) × W
  pub level_db_cache : String → W → Result (Cacher W V) × W
  pub js_fetcher : Option (List Proxy) → W → Reply (Result (HttpFetcher W J V)) × W
  pub stealth_fetcher : String → Option (List Proxy) → HttpFetcher W J V
  pub cookie_jar : Option Error
  pub http_fetcher : Option (List Proxy) → HttpFetcher W J V

abbrev pub found : {A W : Type 0} → Result A × W → Result (Option A) × W
found (ok a, w) = (ok (some a), w)
found (err e, w) = (err e, w)

abbrev pub cache_setting : {W J V : Type 0} → Option (Cacher W V) → List (Setting W J V)
cache_setting none = []
cache_setting (some c) = cacher (some c) ∷ []

abbrev pub init_setting : {W J V : Type 0} → Option J → List (Setting W J V)
init_setting none = []
init_setting (some j) = init (some j) ∷ []

module _ {W J V Wr : Type 0} (net : Net) (parts : Parts W J V) where
  unfoldable pub get_provider : Config (JobProvider W J) Wr J → JobProvider W J
  get_provider cfg = elim cfg.provider [ none ↦ parts.memory | some p ↦ p ]

  unfoldable pub get_cacher : Config (JobProvider W J) Wr J → W → Result (Option (Cacher W V)) × W
  get_cacher cfg w =
      if str_eq cfg.cache_type "file"
      then found (parts.file_cache cfg.cache_path w)
      else if str_eq cfg.cache_type "leveldb"
      then found (parts.level_db_cache cfg.cache_path w)
      else (ok none, w)

  -- getFetcher, after the rotator.
  unfoldable pub choose_fetcher :
      Config (JobProvider W J) Wr J
      → Option (List Proxy)
      → W
      → Reply (Result (HttpFetcher W J V)) × W
  choose_fetcher cfg rotator w =
      if cfg.use_js
      then parts.js_fetcher rotator w
      else if cfg.use_stealth
      then (replies (ok (parts.stealth_fetcher cfg.stealth_browser rotator)), w)
      else (elim parts.cookie_jar [
        | some e ↦ (replies (err e), w)
        | none ↦ (replies (ok (parts.http_fetcher rotator)), w)
      ])

  unfoldable pub get_fetcher :
      Config (JobProvider W J) Wr J → W → Reply (Result (HttpFetcher W J V)) × W
  get_fetcher cfg w = elim (get_rotator net cfg) [
    | throws ↦ (throws, w)
    | replies rotator ↦ choose_fetcher cfg rotator w
  ]

  -- `params`. The application never sets its `cancel`.
  unfoldable pub params :
      Config (JobProvider W J) Wr J → HttpFetcher W J V → Option (Cacher W V) → List (Setting W J V)
  params cfg f c =
      context true false
      ∷ provider (some (get_provider cfg))
      ∷ fetcher (some f)
      ∷ parser (some parts.goquery)
      ∷ concurrent cfg.concurrency
      ∷ exit_because_of_inactivity cfg.exit_on_inactivity_duration
      ∷ (cache_setting c ++ init_setting cfg.init_job)

  -- From getCacher on.
  unfoldable pub with_fetcher :
      Config (JobProvider W J) Wr J
      → Reply (Result (HttpFetcher W J V))
      → W
      → Reply (Result (ScrapeMate W J V)) × W
  with_fetcher cfg throws w = (throws, w)
  with_fetcher cfg (replies (err e)) w = (replies (err e), w)
  with_fetcher cfg (replies (ok f)) w =
      let (c, w') = get_cacher cfg w in
      (elim c [ err e ↦ replies (err e) | ok c ↦ replies (Options.new (params cfg f c)) ], w')

  unfoldable pub get_mate :
      Config (JobProvider W J) Wr J → W → Reply (Result (ScrapeMate W J V)) × W
  get_mate cfg w = let (f, w') = get_fetcher cfg w in with_fetcher cfg f w'
