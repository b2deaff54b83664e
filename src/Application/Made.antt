-- ===== src/Application/Made.antt =====
-- The scraper that an application makes of its configuration.
use scrapemate.Prelude.{
  pos, ltb_ℤ, ◌≤ℤ◌, true, false, Option, none, some, List, ◌++◌, if◌then◌else◌, ◌≡◌, refl, arith,
  inl, inr, Bool-cases, ap, ap₂, ◌∙◌,
}
use scrapemate.Errors.{Error, bad_concurrency, ok, err}
use scrapemate.Mate.Env.{replies, ScrapeMate, JobProvider, HttpFetcher, Cacher}
use scrapemate.Mate.Options as Options
use scrapemate.Mate.Options.{Builder, zero_builder}
use scrapemate.Config.{Config, Setting, new_config}
use scrapemate.Config.Pages.{new_config-valid}
use scrapemate.Proxy.{Net}
use scrapemate.Application.{
  Parts, get_provider, get_cacher, get_fetcher, cache_setting, init_setting, params, with_fetcher,
  get_mate,
}

module _ {W J V : Type 0} where
  apply_all-last :
      (c : Option (Cacher W V)) (j : Option J) (b : Builder W J V)
      → b.cache ≡ none
      → b.init_job ≡ none
      → Options.apply_all (cache_setting c ++ init_setting j) b
        ≡ ok (record b { cache = c; init_job = j })
  unfolding Options.apply_all Options.apply
  apply_all-last none none b h k = ap₂ (λ c j. ok (record b { cache = c; init_job = j })) h k
  apply_all-last none (some j) b h k = ap (λ c. ok (record b { cache = c; init_job = some j })) h
  apply_all-last (some c) none b h k = ap (λ j. ok (record b { cache = some c; init_job = j })) k
  apply_all-last (some c) (some j) b h k = refl

module _ {W J V Wr : Type 0} (net : Net) (parts : Parts W J V) where
  -- The scraper of a configuration, a fetcher and a cache.
  abbrev pub mate_of :
      Config (JobProvider W J) Wr J → HttpFetcher W J V → Option (Cacher W V) → ScrapeMate W J V
  mate_of cfg f c = record {
    job_provider = get_provider net parts cfg;
    http_fetcher = f;
    html_parser = some parts.goquery;
    cache = c;
    concurrency = cfg.concurrency;
    failed_jobs = false;
    init_job = cfg.init_job;
    exit_on_inactivity = ltb_ℤ (pos 0) cfg.exit_on_inactivity_duration;
    exit_on_inactivity_duration = cfg.exit_on_inactivity_duration;
  }

  new-params :
      (cfg : Config (JobProvider W J) Wr J) (f : HttpFetcher W J V) (c : Option (Cacher W V))
      → Options.new (params net parts cfg f c)
        ≡ (if ltb_ℤ cfg.concurrency (pos 1) then err bad_concurrency else ok (mate_of cfg f c))
  unfolding params Options.new Options.apply_all Options.apply Options.finish
  new-params cfg f c = elim (Bool-cases (ltb_ℤ cfg.concurrency (pos 1))) [
    | inl low ↦ rw low refl
    | inr enough ↦ rw enough (
        let b : Builder W J V = record zero_builder {
          ctx = true;
          job_provider = some (get_provider net parts cfg);
          concurrency = cfg.concurrency;
          http_fetcher = some f;
          html_parser = some parts.goquery;
          exit_on_inactivity = ltb_ℤ (pos 0) cfg.exit_on_inactivity_duration;
          exit_on_inactivity_duration = cfg.exit_on_inactivity_duration;
        } in
        let last = apply_all-last c cfg.init_job b refl refl in ground (arith, last))
  ]

  get_mate-concurrency :
      (cfg : Config (JobProvider W J) Wr J) (w w₁ w₂ : W) (f : HttpFetcher W J V)
      (c : Option (Cacher W V))
      → get_fetcher net parts cfg w ≡ (replies (ok f), w₁)
      → get_cacher net parts cfg w₁ ≡ (ok c, w₂)
      → get_mate net parts cfg w ≡ (
        replies
            (if ltb_ℤ cfg.concurrency (pos 1) then err bad_concurrency else ok (mate_of cfg f c)),
        w₂,
      )
  unfolding get_mate with_fetcher
  get_mate-concurrency cfg w w₁ w₂ f c fetched cached =
      rw (fetched, cached) (ap (λ r. (replies r, w₂)) (new-params cfg f c))

  -- If the validator refuses a concurrency below one, then from every configuration of NewConfig,
  -- for which the fetcher and the cache can be made, getMate makes a scraper: it has the configuration's
  -- provider, or the memory provider, that fetcher and cache, the parser, the configured number of
  -- workers and the init job, and ends when it is idle exactly if a positive duration is set.
  get_mate-new_config :
      (validate : Config (JobProvider W J) Wr J → Option Error) (writers : List Wr)
      (options : List (Setting (JobProvider W J) J)) (cfg : Config (JobProvider W J) Wr J)
      (w w₁ w₂ : W) (f : HttpFetcher W J V) (c : Option (Cacher W V))
      → ((a : Config (JobProvider W J) Wr J) → validate a ≡ none → pos 1 ≤ℤ a.concurrency)
      → new_config validate writers options ≡ ok cfg
      → get_fetcher net parts cfg w ≡ (replies (ok f), w₁)
      → get_cacher net parts cfg w₁ ≡ (ok c, w₂)
      → get_mate net parts cfg w ≡ (replies (ok (mate_of cfg f c)), w₂)
  get_mate-new_config validate writers options cfg w w₁ w₂ f c tags made fetched cached =
      let positive = tags cfg (new_config-valid validate writers options cfg made) in
      let high : ltb_ℤ cfg.concurrency (pos 1) ≡ false = ground arith in
      get_mate-concurrency cfg w w₁ w₂ f c fetched cached ∙ rw high refl
