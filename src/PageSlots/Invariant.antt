-- ===== src/PageSlots/Invariant.antt =====
-- The pool never hands out more leases than it has room for.
use scrapemate.Prelude.{
  ℕ, zero, suc, ◌+◌, ◌*◌, ◌≤◌, ◌<◌, ◌≡◌, refl, true, false, Option, none, some, List, [], ◌∷◌, ◌++◌,
  get_elem?, set, replicate, length, length-append, length-replicate, arith, Option-cases, inl, inr,
  if◌then◌else◌,
}
use scrapemate.Errors.{Error}
use scrapemate.PageSlots.{
  Lease, Pool, close, fill, new_page_slot_pool, acquire, Branch, gone, give_back, release_slot,
  release, Call, acquires, closes, releases, step, run, new_slot,
}

-- The leases that are not released.
abbrev pub outstanding : List Lease → ℕ
outstanding [] = 0
outstanding (l ∷ ls) = (if l.released then 0 else 1) + outstanding ls

outstanding-append : (xs ys : List Lease) → outstanding (xs ++ ys) ≡ outstanding xs + outstanding ys
outstanding-append [] ys = omega arith
outstanding-append (x ∷ xs) ys = omega (arith, outstanding-append xs ys)

-- Releasing a lease that was outstanding makes one less.
outstanding-set :
    (ls : List Lease) (k : ℕ) (l : Lease)
    → get_elem? ls k ≡ some l
    → l.released ≡ false
    → outstanding (set ls k (record l { released = true })) + 1 ≡ outstanding ls
outstanding-set [] k l e f = cc
outstanding-set (x ∷ xs) zero l e f = ground arith
outstanding-set (x ∷ xs) (suc k) l e f = omega (arith, outstanding-set xs k l e f)

-- The places of the channel in use: slots that wait in it, and leases that may come back.
abbrev pub tokens : Pool → ℕ
tokens p = length p.available + outstanding p.leases

fill-tokens :
    (left per : ℕ) (made : ℕ → Option Error) (p : Pool)
    → tokens (fill left per made p).0 ≤ tokens p + left * per
      × ((fill left per made p).1 ≡ none → tokens (fill left per made p).0 ≡ tokens p + left * per)
      × ((fill left per made p).0.capacity ≡ p.capacity)
unfolding fill close
fill-tokens zero per made p = (omega arith, λ _. omega arith, refl)
fill-tokens (suc left) per made p = ground (
  arith,
  length-append p.available (replicate per (length p.slots)),
  length-replicate per (length p.slots),
  fill-tokens left per made (record p {
    slots = p.slots ++ new_slot ∷ [];
    available = p.available ++ replicate per (length p.slots);
  }),
)

acquire_from : (p : Pool) (xs : List ℕ) → p.available ≡ xs → tokens (step p acquires) ≡ tokens p
unfolding step
acquire_from p [] e = ground arith
acquire_from p (i ∷ rest) e =
    ground (arith, outstanding-append p.leases (record { slot = i; released = false } ∷ []))

give_back-tokens :
    (b : Branch) (i : ℕ) (p : Pool)
    → (tokens p ≤ tokens (give_back b i p))
      × (tokens (give_back b i p) ≤ tokens p + 1)
      × ((give_back b i p).capacity ≡ p.capacity)
      × (b ≡ gone → give_back b i p ≡ p)
unfolding give_back
give_back-tokens b i p = ground (arith, length-append p.available (i ∷ []))

-- A release gives back one token or none; with the context done it may give back none.
release-tokens :
    (b : Branch) (k : ℕ) (p : Pool)
    → (tokens (release b k p) ≤ tokens p) × ((release b k p).capacity ≡ p.capacity)
unfolding release release_slot give_back
release-tokens b k p = elim (Option-cases (get_elem? p.leases k)) [
  | inl e ↦ ground arith
  | inr (l, e) ↦
      ground (arith, outstanding-set p.leases k l e, length-append p.available (l.slot ∷ []))
]

step-tokens :
    (p : Pool) (c : Call) → (tokens (step p c) ≤ tokens p) × ((step p c).capacity ≡ p.capacity)
step-tokens p acquires =
    (omega (arith, acquire_from p p.available refl), unfold step in ground arith)
step-tokens p closes = unfold step close in (omega arith, refl)
step-tokens p (releases b k) = unfold step in release-tokens b k p

pub run-tokens :
    (p : Pool) (cs : List Call)
    → (tokens (run p cs) ≤ tokens p) × ((run p cs).capacity ≡ p.capacity)
unfolding run
run-tokens p [] = (omega arith, refl)
run-tokens p (c ∷ cs) = omega (arith, step-tokens p c, run-tokens (step p c) cs)

-- Whatever its users do, a pool never has more slots waiting and leases out than its channel has
-- places, so the send in release always finds one; and that is `size * per` places at most.
pub run-room :
    (size per : ℕ) (made : ℕ → Option Error) (cs : List Call)
    → let q = run (new_page_slot_pool size per made).0 cs in
      (tokens q ≤ size * per) × (q.capacity ≡ size * per)
unfolding new_page_slot_pool
run-room size per made cs = omega (
  arith,
  run-tokens
      (fill size per made
        (record { available = []; capacity = size * per; slots = []; leases = [] })).0
      cs,
  fill-tokens size per made
      (record { available = []; capacity = size * per; slots = []; leases = [] }),
)

-- A pool that is made without an error has a place for every page of every browser.
pub new_page_slot_pool-full :
    (size per : ℕ) (made : ℕ → Option Error)
    → (new_page_slot_pool size per made).1 ≡ none
    → tokens (new_page_slot_pool size per made).0 ≡ size * per
unfolding new_page_slot_pool
new_page_slot_pool-full size per made e = omega (
  arith,
  (fill-tokens size per made
        (record { available = []; capacity = size * per; slots = []; leases = [] })).1
      e,
)

release-gone :
    (k : ℕ) (p : Pool) (l : Lease)
    → get_elem? p.leases k ≡ some l
    → l.released ≡ false
    → tokens (release gone k p) + 1 ≡ tokens p
unfolding release release_slot give_back
release-gone k p l e f = ground (arith, outstanding-set p.leases k l e f)

-- When the select of release takes the end of the context, the place is lost for good: whatever
-- follows, the pool has one place less than before.
pub release-gone_lost :
    (k : ℕ) (p : Pool) (l : Lease) (cs : List Call)
    → get_elem? p.leases k ≡ some l
    → l.released ≡ false
    → tokens (run (release gone k p) cs) < tokens p
release-gone_lost k p l cs e f =
    omega (arith, run-tokens (release gone k p) cs, release-gone k p l e f)

acquire-none : (p : Pool) → tokens p ≡ 0 → acquire p ≡ none
unfolding acquire
acquire-none p h = ground arith

-- A pool with no place left never serves an acquire again.
run-starved : (p : Pool) (cs : List Call) → tokens p ≡ 0 → acquire (run p cs) ≡ none
run-starved p cs h = acquire-none (run p cs) (omega (arith, run-tokens p cs))
