-- ===== src/PageSlots.antt =====
-- adapters/fetchers/jshttp/page_slot_pool.go. A slot is known by its index in `slots`; the
-- browser and the context of a slot, which are foreign, are left out, and so are their Close
-- calls. Go's channel `available` is a queue with the capacity that `make` gives it.
pub mod Invariant
pub mod Active
use scrapemate.Prelude.{
  ℕ, zero, suc, ◌+◌, ◌*◌, ℤ, pos, ◌+ℤ◌, ◌-ℤ◌, Bool, true, false, Option, none, some, List, [], ◌∷◌,
  ◌++◌, map, get_elem?, set, replicate, length, if◌then◌else◌,
}
use scrapemate.Errors.{Error}

pub record Slot : Type 0 where
  pub active : ℤ
  pub closed : Bool
  pub browser_usage : ℤ

-- The slot, and whether `once` has run.
pub record Lease : Type 0 where
  pub slot : ℕ
  pub released : Bool

-- The pool, and the leases that were handed out, newest last.
pub record Pool : Type 0 where
  pub available : List ℕ
  pub capacity : ℕ
  pub slots : List Slot
  pub leases : List Lease

abbrev pub new_slot : Slot
new_slot = record { active = pos 0; closed = false; browser_usage = pos 0 }

unfoldable pub close_slot : Slot → Slot
close_slot s = record s { closed = true }

-- close
unfoldable pub close : Pool → Pool
unfolding close_slot
close p = record p { slots = map close_slot p.slots }

-- The loop of newPageSlotPool: `made i` is the error of the factory's i-th call. On an error the
-- pool made so far is closed and the error is returned.
unfoldable pub fill : ℕ → ℕ → (ℕ → Option Error) → Pool → Pool × Option Error
unfolding close
fill zero per made p = (p, none)
fill (suc left) per made p = elim (made (length p.slots)) [
  | some e ↦ (close p, some e)
  | none ↦ fill left per made (record p {
    slots = p.slots ++ new_slot ∷ [];
    available = p.available ++ replicate per (length p.slots);
  })
]

unfoldable pub new_page_slot_pool : ℕ → ℕ → (ℕ → Option Error) → Pool × Option Error
unfolding fill
new_page_slot_pool size per made =
    fill size per made (record { available = []; capacity = size * per; slots = []; leases = [] })

-- `slot.active += d` on the i-th slot, under its lock.
unfoldable pub add_active : ℤ → ℕ → List Slot → List Slot
add_active d i [] = []
add_active d zero (s ∷ ss) = record s { active = s.active +ℤ d } ∷ ss
add_active d (suc i) (s ∷ ss) = s ∷ add_active d i ss

-- acquire, when its select takes a slot: `none` while the channel is empty.
unfoldable pub acquire : Pool → Option (Lease × Pool)
unfolding add_active
acquire p = elim p.available [
  | [] ↦ none
  | i ∷ rest ↦
      let lease : Lease = record { slot = i; released = false } in
      some (
        lease,
        record p {
          available = rest;
          slots = add_active (pos 1) i p.slots;
          leases = p.leases ++ lease ∷ [];
        },
      )
]

-- Which case the select of release takes: `<-ctx.Done()`, possible once the context is done, or
-- the send.
pub data Branch : Type 0 where
  gone sent : Branch

-- The end of release, for the slot `i`: a closed slot is not sent back.
unfoldable pub give_back : Branch → ℕ → Pool → Pool
give_back b i p = elim (get_elem? p.slots i) [
  | none ↦ p
  | some s ↦
      if s.closed
      then p
      else elim b [ gone ↦ p | sent ↦ record p { available = p.available ++ i ∷ [] } ]
]

unfoldable pub release_slot : Branch → ℕ → Pool → Pool
unfolding add_active give_back
release_slot b i p = give_back b i (record p { slots = add_active (pos 0 -ℤ pos 1) i p.slots })

-- release of the k-th lease, under `once`.
unfoldable pub release : Branch → ℕ → Pool → Pool
unfolding release_slot
release b k p = elim (get_elem? p.leases k) [
  | none ↦ p
  | some l ↦
      if l.released
      then p
      else release_slot b l.slot
          (record p { leases = set p.leases k (record l { released = true }) })
]

-- What the users of a pool do.
pub data Call : Type 0 where
  acquires closes : Call
  releases : Branch → ℕ → Call

-- A call; an acquire that finds no slot leaves the pool as it was.
unfoldable pub step : Pool → Call → Pool
unfolding acquire release close
step p acquires = elim (acquire p) [ none ↦ p | some (l, q) ↦ q ]
step p closes = close p
step p (releases b k) = release b k p

unfoldable pub run : Pool → List Call → Pool
unfolding step
run p [] = p
run p (c ∷ cs) = run (step p c) cs
