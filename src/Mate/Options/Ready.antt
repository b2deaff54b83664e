-- ===== src/Mate/Options/Ready.antt =====
-- Exactly which lists of options `New` accepts, and what a new scraper then has.
use scrapemate.Prelude.{
  ◌≡◌, refl, pos, ◌≤ℤ◌, ltb_ℤ, Bool, true, false, not, ◌&&◌, ◌||◌, none, some, List, [], ◌∷◌, arith,
  is_none,
}
use scrapemate.Errors.{Result, ok, err, ◌>>=◌}
use scrapemate.Mate.Env.{ScrapeMate}
use scrapemate.Mate.Options.{
  Builder, Setting, exit_because_of_inactivity, failed, context, logger, provider, concurrent,
  fetcher, parser, cacher, init, zero_builder, apply, apply_all, finish, new,
}

abbrev pub is_ok : {A : Type 0} → Result A → Bool
is_ok (ok a) = true
is_ok (err e) = false

module _ {W J V : Type 0} where
  -- The arguments that an option accepts.
  abbrev pub accepts : Setting W J V → Bool
  accepts (context ctx cancel_fn) = ctx
  accepts (logger log) = log
  accepts (provider p) = not (is_none p)
  accepts (concurrent n) = not (ltb_ℤ n (pos 1))
  accepts (fetcher f) = not (is_none f)
  accepts (parser p) = not (is_none p)
  accepts (cacher c) = not (is_none c)
  accepts _ = true

  abbrev pub sets_provider : Setting W J V → Bool
  sets_provider (provider p) = true
  sets_provider _ = false

  abbrev pub sets_fetcher : Setting W J V → Bool
  sets_fetcher (fetcher f) = true
  sets_fetcher _ = false

  abbrev pub all_of : (Setting W J V → Bool) → List (Setting W J V) → Bool
  all_of p [] = true
  all_of p (o ∷ os) = p o && all_of p os

  abbrev pub any_of : (Setting W J V → Bool) → List (Setting W J V) → Bool
  any_of p [] = false
  any_of p (o ∷ os) = p o || any_of p os

  -- What is required of a struct before its checks.
  abbrev complete : Builder W J V → List (Setting W J V) → Bool
  complete b os =
      all_of accepts os
      && ((not (is_none b.job_provider) || any_of sets_provider os)
          && (not (is_none b.http_fetcher) || any_of sets_fetcher os))

  apply_all-complete :
      (os : List (Setting W J V)) (b : Builder W J V)
      → is_ok (apply_all os b >>= finish) ≡ complete b os
  unfolding apply_all apply finish
  apply_all-complete [] b = ground arith
  apply_all-complete (exit_because_of_inactivity d ∷ os) b = ground (
    arith,
    apply_all-complete os
        (record b { exit_on_inactivity = ltb_ℤ (pos 0) d; exit_on_inactivity_duration = d }),
  )
  apply_all-complete (failed ∷ os) b =
      ground (arith, apply_all-complete os (record b { failed_jobs = true }))
  apply_all-complete (context true k ∷ os) b =
      ground (arith, apply_all-complete os (record b { ctx = true; cancel_fn = k }))
  apply_all-complete (context false k ∷ os) b = refl
  apply_all-complete (logger true ∷ os) b =
      ground (arith, apply_all-complete os (record b { log = true }))
  apply_all-complete (logger false ∷ os) b = refl
  apply_all-complete (provider none ∷ os) b = refl
  apply_all-complete (provider (some p) ∷ os) b =
      ground (arith, apply_all-complete os (record b { job_provider = some p }))
  apply_all-complete (concurrent n ∷ os) b =
      ground (arith, apply_all-complete os (record b { concurrency = n }))
  apply_all-complete (fetcher none ∷ os) b = refl
  apply_all-complete (fetcher (some f) ∷ os) b =
      ground (arith, apply_all-complete os (record b { http_fetcher = some f }))
  apply_all-complete (parser none ∷ os) b = refl
  apply_all-complete (parser (some p) ∷ os) b =
      ground (arith, apply_all-complete os (record b { html_parser = some p }))
  apply_all-complete (cacher none ∷ os) b = refl
  apply_all-complete (cacher (some c) ∷ os) b =
      ground (arith, apply_all-complete os (record b { cache = some c }))
  apply_all-complete (init j ∷ os) b =
      ground (arith, apply_all-complete os (record b { init_job = j }))

  -- `New` succeeds exactly if no WithContext has a nil context (its cancel function may be nil), no option for the logger,
  -- the provider, the fetcher, the parser or the cache has a nil value and no concurrency is below one, and a job
  -- provider and a fetcher are among the options; the other options may have any value.
  pub new-is_ok :
      (os : List (Setting W J V))
      → is_ok (new os) ≡ (all_of accepts os && (any_of sets_provider os && any_of sets_fetcher os))
  unfolding new
  new-is_ok os = apply_all-complete os zero_builder

  apply-concurrency :
      (o : Setting W J V) (b : Builder W J V) {b' : Builder W J V}
      → pos 0 ≤ℤ b.concurrency
      → apply o b ≡ ok b'
      → pos 0 ≤ℤ b'.concurrency
  unfolding apply
  apply-concurrency (failed) b h e = ground arith
  apply-concurrency (provider none) b h e = cc
  apply-concurrency (provider (some p)) b h e = ground arith
  apply-concurrency (fetcher none) b h e = cc
  apply-concurrency (fetcher (some p)) b h e = ground arith
  apply-concurrency (parser none) b h e = cc
  apply-concurrency (parser (some p)) b h e = ground arith
  apply-concurrency (cacher none) b h e = cc
  apply-concurrency (cacher (some p)) b h e = ground arith
  apply-concurrency _ b h e = ground arith

  apply_all-concurrency :
      (os : List (Setting W J V)) (b : Builder W J V) {m : ScrapeMate W J V}
      → pos 0 ≤ℤ b.concurrency
      → (apply_all os b >>= finish) ≡ ok m
      → pos 1 ≤ℤ m.concurrency
  unfolding apply_all finish
  apply_all-concurrency [] b h e = ground arith
  apply_all-concurrency (o ∷ os) b {m} h e =
      go (λ b' k. apply_all-concurrency os b' k) (apply o b) refl e
    where
      go :
          ((b' : Builder W J V)
            → pos 0 ≤ℤ b'.concurrency
            → (apply_all os b' >>= finish) ≡ ok m
            → pos 1 ≤ℤ m.concurrency)
          → (r : Result (Builder W J V)) → apply o b ≡ r
          → ((r >>= apply_all os) >>= finish) ≡ ok m
          → pos 1 ≤ℤ m.concurrency
      go rest (ok b') a e' = rest b' (apply-concurrency o b h a) e'
      go rest (err x) a e' = cc

  -- A new scraper runs at least one worker: WithConcurrency refuses less, and the default is one.
  new-concurrency :
      (os : List (Setting W J V)) {m : ScrapeMate W J V} → new os ≡ ok m → pos 1 ≤ℤ m.concurrency
  unfolding new
  new-concurrency os e = apply_all-concurrency os zero_builder (omega arith) e
