-- ===== src/Config.antt =====
-- scrapemateapp/config.go. The validator is foreign: `validate` gives its answer for a
-- configuration. `Pr`, `Wr` and `J` are the providers, the result writers and the jobs.
pub mod Pages
use scrapemate.Prelude.{
  ℕ, ℤ, pos, ◌+ℤ◌, ◌-ℤ◌, ltb_ℤ, leb_ℤ, wrap64, div_ℤ, pos_part, String, Bool, true, false, Option,
  none, some, List, [], ◌∷◌, if◌then◌else◌,
}
use scrapemate.Errors.{Error, nil_provider}
use scrapemate.Errors.{Result, ok, err, ◌>>=◌}

pub record JsOptions : Type 0 where
  pub headfull : Bool
  pub disable_images : Bool
  pub ua : String

pub record Config (Pr Wr J : Type 0) : Type 0 where
  pub concurrency : ℤ
  pub browser_pool_size : ℤ
  pub max_pages_per_browser : ℤ
  pub cache_type : String
  pub cache_path : String
  pub use_js : Bool
  pub use_stealth : Bool
  pub stealth_browser : String
  pub js_opts : JsOptions
  pub provider : Option Pr
  pub writers : List Wr
  pub init_job : Option J
  pub exit_on_inactivity_duration : ℤ
  pub proxies : List String
  pub browser_reuse_limit : ℤ
  pub page_reuse_limit : ℤ

-- DefaultConcurrency of constants.go.
abbrev pub default_concurrency : ℤ
default_concurrency = pos 1

-- The settings of WithJS.
pub data JsSetting : Type 0 where
  headfull disable_images with_rod_stealth : JsSetting
  with_ua with_browser_engine : String → JsSetting

pub apply_js : JsSetting → JsOptions → JsOptions
apply_js headfull o = record o { headfull = true }
apply_js disable_images o = record o { disable_images = true }
apply_js with_rod_stealth o = o
apply_js (with_ua ua) o = record o { ua = ua }
apply_js (with_browser_engine _) o = o

pub apply_all_js : List JsSetting → JsOptions → JsOptions
apply_all_js [] o = o
apply_all_js (s ∷ ss) o = apply_all_js ss (apply_js s o)

-- What is given to NewConfig: the functions With…, with their arguments.
pub data Setting (Pr J : Type 0) : Type 0 where
  with_browser_reuse_limit with_page_reuse_limit with_concurrency : ℤ → Setting Pr J
  with_max_pages_per_browser with_browser_pool_size with_exit_on_inactivity : ℤ → Setting Pr J
  with_cache : (cache_type cache_path : String) → Setting Pr J
  with_js : List JsSetting → Setting Pr J
  with_stealth : String → Setting Pr J
  with_provider : Option Pr → Setting Pr J
  with_init_job : Option J → Setting Pr J
  with_proxies : List String → Setting Pr J

module _ {Pr Wr J : Type 0} where
  unfoldable pub derived_browser_pool_size : Config Pr Wr J → ℤ
  derived_browser_pool_size o =
      let pages =
        if leb_ℤ o.max_pages_per_browser (pos 0) then pos 1 else o.max_pages_per_browser in
      if ltb_ℤ (pos 0) o.browser_pool_size
      then o.browser_pool_size
      else div_ℤ (wrap64 (wrap64 (o.concurrency +ℤ pages) -ℤ pos 1)) (pos_part pages)

  abbrev pub zero_config : Config Pr Wr J
  zero_config = record {
    concurrency = default_concurrency;
    browser_pool_size = pos 0;
    max_pages_per_browser = pos 1;
    cache_type = "";
    cache_path = "";
    use_js = false;
    use_stealth = false;
    stealth_browser = "";
    js_opts = record { headfull = false; disable_images = false; ua = "" };
    provider = none;
    writers = [];
    init_job = none;
    exit_on_inactivity_duration = pos 0;
    proxies = [];
    browser_reuse_limit = pos 0;
    page_reuse_limit = pos 0;
  }

  module _ (validate : Config Pr Wr J → Option Error) where
    -- `return o.validate()`
    unfoldable pub checked : Config Pr Wr J → Result (Config Pr Wr J)
    checked o = elim (validate o) [ none ↦ ok o | some e ↦ err e ]

    unfoldable pub apply : Setting Pr J → Config Pr Wr J → Result (Config Pr Wr J)
    apply (with_browser_reuse_limit limit) o = ok (record o { browser_reuse_limit = limit })
    apply (with_page_reuse_limit limit) o = ok (record o { page_reuse_limit = limit })
    apply (with_concurrency concurrency) o = checked (record o { concurrency = concurrency })
    apply (with_max_pages_per_browser limit) o =
        checked (record o { max_pages_per_browser = limit })
    apply (with_browser_pool_size size) o = checked (record o { browser_pool_size = size })
    apply (with_exit_on_inactivity duration) o =
        ok (record o { exit_on_inactivity_duration = duration })
    apply (with_cache cache_type cache_path) o =
        checked (record o { cache_type = cache_type; cache_path = cache_path })
    apply (with_js opts) o =
        checked (record o { use_js = true; js_opts = apply_all_js opts o.js_opts })
    apply (with_stealth browser) o =
        checked (record o { use_stealth = true; stealth_browser = browser })
    apply (with_provider none) o = err nil_provider
    apply (with_provider (some p)) o = ok (record o { provider = some p })
    apply (with_init_job job) o = ok (record o { init_job = job })
    apply (with_proxies proxies) o = ok (record o { proxies = proxies })

    -- The loop over the options, and the validation after it.
    unfoldable pub apply_all : List (Setting Pr J) → Config Pr Wr J → Result (Config Pr Wr J)
    apply_all [] o = checked o
    apply_all (s ∷ ss) o = do next ← apply s o; apply_all ss next

    unfoldable pub new_config : List Wr → List (Setting Pr J) → Result (Config Pr Wr J)
    new_config writers options = apply_all options (record zero_config { writers = writers })
