-- ===== src/Rotator.antt =====
-- The two round-robin pools of proxies: adapters/proxy/proxy.go (`current` is a uint32 that
-- wraps) and adapters/fetchers/jshttp/pool.go (`current` is an int). An index out of range
-- panics in Go; `none` stands for that.
pub mod Fairness
use scrapemate.Prelude.{
  ℕ, zero, suc, ◌+◌, ◌-◌, ◌%◌, ◌^◌, Bool, true, false, Option, none, some, List, [], ◌∷◌, get_elem?,
  length, String, if◌then◌else◌,
}

-- The values of `current`: 2^32 for Rotator, 2^63 for ProxyPool.
pub record Pool (P : Type 0) : Type 0 where
  pub proxies : List P
  pub current : ℕ

module _ {P : Type 0} where
  -- Next of Rotator: atomic.AddUint32(&current, 1) - 1, both modulo 2^32.
  unfoldable pub next : Pool P → Option P × Pool P
  next r =
      let added = (r.current + 1) % 2 ^ 32 in
      let current = (added + 2 ^ 32 - 1) % 2 ^ 32 in
      (get_elem? r.proxies (current % length r.proxies), record r { current = added })

  -- Next of ProxyPool, under its lock.
  unfoldable pub pool_next : Pool P → Option P × Pool P
  pool_next pp = (
    get_elem? pp.proxies (pp.current % length pp.proxies),
    record pp { current = pp.current + 1 },
  )

  -- The n-th call of `next` from now, and the pool after n calls.
  unfoldable pub after_calls : ℕ → Pool P → Pool P
  after_calls zero r = r
  after_calls (suc n) r = after_calls n (next r).1

  unfoldable pub after_pool_calls : ℕ → Pool P → Pool P
  after_pool_calls zero r = r
  after_pool_calls (suc n) r = after_pool_calls n (pool_next r).1
