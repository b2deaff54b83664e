-- ===== src/Config/Pages.antt =====
-- What a configuration that NewConfig returns guarantees.
use native.Mathlib.Nat.{div-add-mod'}
use scrapemate.Prelude.{
  ℕ, zero, suc, ◌%◌, ◌+◌, ◌-◌, ◌*◌, ◌/◌, ◌^◌, ◌≤◌, ◌<◌, ◌≡◌, refl, ℤ, pos, negsuc, ◌+ℤ◌, ◌-ℤ◌, ◌≤ℤ◌,
  wrap64, div_ℤ, pos_part, Option, none, List, [], ◌∷◌, arith,
}
use scrapemate.Errors.{Error}
use scrapemate.Errors.{Result, ok, err, ◌>>=◌}
use scrapemate.Config.{
  Config, derived_browser_pool_size, Setting, checked, apply, apply_all, new_config,
}

-- The least number of groups of `m` that hold `c`.
pub record IsCover (c m n : ℕ) : Type 0 where
  pub enough : c ≤ n * m
  pub least : 0 < c → (n - 1) * m < c

pred_lem : (n c m : ℕ) → n * m < c + m → 0 < c → (n - 1) * m < c
pred_lem zero c m h k = ground arith
pred_lem (suc n) c m h k = ground arith

div-IsCover : (c m : ℕ) → 0 < m → IsCover c m ((c + m - 1) / m)
div-IsCover c m h =
    let e = div-add-mod' (c + m - 1) m in
    let r : (c + m - 1) % m < m = omega arith in
    record {
      enough = omega (arith, e, r);
      least = λ k. pred_lem ((c + m - 1) / m) c m (omega (arith, e, r)) k;
    }

div-wrap :
    (c m : ℕ)
    → 0 < m
    → c + m < 2 ^ 63
    → div_ℤ (wrap64 (wrap64 (pos c +ℤ pos m) -ℤ pos 1)) m ≡ pos ((c + m - 1) / m)
unfolding div_ℤ wrap64 ◌+ℤ◌ ◌-ℤ◌
div-wrap c m h b = ground arith

pos_part-id : (a : ℤ) → pos 1 ≤ℤ a → a ≡ pos (pos_part a)
pos_part-id (pos n) h = refl
pos_part-id (negsuc n) h = ground arith

bind_ok :
    {A B : Type 0} {b : B} {P : Type 0} (r : Result A) (f : A → Result B)
    → ((a : A) → f a ≡ ok b → P)
    → (r >>= f) ≡ ok b
    → P
bind_ok (ok a) f k h = k a h
bind_ok (err e) f k h = ground arith

module _ {Pr Wr J : Type 0} where
  -- If the pool size is not set: the derived number of browsers has enough pages for all workers,
  -- and one browser less has not.
  pub derived_browser_pool_size-IsCover :
      (o : Config Pr Wr J) (c m : ℕ)
      → o.concurrency ≡ pos c
      → o.max_pages_per_browser ≡ pos m
      → o.browser_pool_size ≡ pos 0
      → 0 < m
      → c + m < 2 ^ 63
      → (n : ℕ) × (derived_browser_pool_size o ≡ pos n) × IsCover c m n
  unfolding derived_browser_pool_size
  derived_browser_pool_size-IsCover o c m h k l p b =
      ((c + m - 1) / m, rw (h, k, l) (let e = div-wrap c m p b in ground arith), div-IsCover c m p)

  module _ (validate : Config Pr Wr J → Option Error) where
    checked-valid : (o o' : Config Pr Wr J) → checked validate o ≡ ok o' → validate o' ≡ none
    unfolding checked
    checked-valid o o' h = ground arith

    apply_all-valid :
        (options : List (Setting Pr J)) (o o' : Config Pr Wr J)
        → apply_all validate options o ≡ ok o'
        → validate o' ≡ none
    unfolding apply_all
    apply_all-valid [] o o' h = checked-valid o o' h
    apply_all-valid (s ∷ ss) o o' h =
        bind_ok (apply validate s o) (λ next. apply_all validate ss next)
          (λ next. apply_all-valid ss next o') h

    pub new_config-valid :
        (writers : List Wr) (options : List (Setting Pr J)) (o : Config Pr Wr J)
        → new_config validate writers options ≡ ok o
        → validate o ≡ none
    unfolding new_config
    new_config-valid writers options o h = apply_all-valid options _ o h

    -- If the validator accepts only what the tags of `Config` allow, a configuration from
    -- NewConfig has a browser pool for all its workers, whatever the options and their order: when no
    -- pool size is given, the pages of the derived browsers are enough, and one browser less is not.
    -- (The numbers are assumed to be small enough for 64 bits.)
    new_config-IsCover :
        (writers : List Wr) (options : List (Setting Pr J)) (o : Config Pr Wr J)
        → ((a : Config Pr Wr J)
            → validate a ≡ none
            → (pos 1 ≤ℤ a.concurrency) × (pos 1 ≤ℤ a.max_pages_per_browser))
        → new_config validate writers options ≡ ok o
        → o.browser_pool_size ≡ pos 0
        → pos_part o.concurrency + pos_part o.max_pages_per_browser < 2 ^ 63
        → (n : ℕ) × (derived_browser_pool_size o ≡ pos n)
          × IsCover (pos_part o.concurrency) (pos_part o.max_pages_per_browser) n
    new_config-IsCover writers options o tags h z b =
        let valid = new_config-valid writers options o h in
        let (c, p) = tags o valid in
        let (n, e, cover) =
          derived_browser_pool_size-IsCover o (pos_part o.concurrency)
            (pos_part o.max_pages_per_browser) (pos_part-id o.concurrency c)
            (pos_part-id o.max_pages_per_browser p) z (ground arith) b in
        (n, e, cover)
