-- ===== src/Rotator/Fairness.antt =====
-- The proxies are handed out in turn.
use scrapemate.Prelude.{
  ℕ, zero, suc, ◌+◌, ◌%◌, ◌^◌, ◌<◌, ◌≡◌, refl, ap, ap₂, ◌∙◌, some, get_elem?, length, arith,
  get_elem?_total,
}
use scrapemate.Rotator.{Pool, next, pool_next, after_calls, after_pool_calls}

module _ {P : Type 0} where
  next-current :
      (r : Pool P)
      → r.current < 2 ^ 32
      → ((next r).0 ≡ get_elem? r.proxies (r.current % length r.proxies))
        × ((next r).1.proxies ≡ r.proxies)
        × ((next r).1.current ≡ (r.current + 1) % 2 ^ 32)
  unfolding next
  next-current r h =
      (ap (λ (c : ℕ). get_elem? r.proxies (c % length r.proxies)) (omega arith), refl, refl)

  after_calls-current :
      (n : ℕ) (r : Pool P)
      → r.current < 2 ^ 32
      → ((after_calls n r).proxies ≡ r.proxies)
        × ((after_calls n r).current ≡ (r.current + n) % 2 ^ 32)
  unfolding after_calls
  after_calls-current zero r h = (refl, omega arith)
  after_calls-current (suc n) r h =
      let (got, same, cur) = next-current r h in
      let ih = after_calls-current n (next r).1 (omega (arith, cur)) in
      (ih.0 ∙ same, omega (arith, ih.1, cur))

  -- The n-th call of Next from now gives the proxy at `current + n`, modulo 2^32 and then modulo
  -- the number of proxies. It never fails if there is a proxy.
  next-turn :
      (n : ℕ) (r : Pool P)
      → r.current < 2 ^ 32
      → 0 < length r.proxies
      → (p : P) × ((next (after_calls n r)).0 ≡ some p)
        × (get_elem? r.proxies (((r.current + n) % 2 ^ 32) % length r.proxies) ≡ some p)
  next-turn n r h k =
      let (same, cur) = after_calls-current n r h in
      let (got, _, _) = next-current (after_calls n r) (omega (arith, cur)) in
      let (p, found) =
        get_elem?_total r.proxies (((r.current + n) % 2 ^ 32) % length r.proxies) (omega arith) in
      (p, got ∙ ap₂ (λ ps (c : ℕ). get_elem? ps (c % length ps)) same cur ∙ found, found)

  after_pool_calls-current :
      (n : ℕ) (pp : Pool P)
      → ((after_pool_calls n pp).proxies ≡ pp.proxies)
        × ((after_pool_calls n pp).current ≡ pp.current + n)
  unfolding after_pool_calls pool_next
  after_pool_calls-current zero pp = (refl, omega arith)
  after_pool_calls-current (suc n) pp =
      let ih = after_pool_calls-current n (pool_next pp).1 in (ih.0, omega (arith, ih.1))

  -- The n-th call of the ProxyPool's Next from now gives the proxy at `current + n`, modulo the
  -- number of proxies. It never fails if there is a proxy.
  pool_next-turn :
      (n : ℕ) (pp : Pool P)
      → 0 < length pp.proxies
      → (p : P) × ((pool_next (after_pool_calls n pp)).0 ≡ some p)
        × (get_elem? pp.proxies ((pp.current + n) % length pp.proxies) ≡ some p)
  unfolding pool_next
  pool_next-turn n pp k =
      let (same, cur) = after_pool_calls-current n pp in
      let (p, found) =
        get_elem?_total pp.proxies ((pp.current + n) % length pp.proxies) (omega arith) in
      (p, ap₂ (λ ps (c : ℕ). get_elem? ps (c % length ps)) same cur ∙ found, found)
