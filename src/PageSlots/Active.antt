-- ===== src/PageSlots/Active.antt =====
-- The counter `active` of a slot is the number of leases on it that are not released.
use scrapemate.Prelude.{
  ℕ, zero, suc, ◌+◌, ◌*◌, ◌≡◌, refl, ℤ, pos, ◌+ℤ◌, ◌-ℤ◌, true, false, Option, none, some, List, [],
  ◌∷◌, ◌++◌, map, get_elem?, set, replicate, length, arith, Option-cases, Bool-cases, inl, inr,
  if◌then◌else◌, ◌==◌, ◌&&◌, not,
}
use scrapemate.Errors.{Error}
use scrapemate.PageSlots.{
  Slot, Lease, Pool, close_slot, close, fill, new_page_slot_pool, add_active, Branch, give_back,
  release_slot, release, Call, acquires, closes, releases, step, run, new_slot,
}

-- The leases on slot `i` that are not released.
abbrev pub held : ℕ → List Lease → ℕ
held i [] = 0
held i (l ∷ ls) = (if not l.released && l.slot == i then 1 else 0) + held i ls

held-append : (i : ℕ) (xs ys : List Lease) → held i (xs ++ ys) ≡ held i xs + held i ys
held-append i [] ys = omega arith
held-append i (x ∷ xs) ys = omega (arith, held-append i xs ys)

held-set :
    (i : ℕ) (ls : List Lease) (k : ℕ) (l : Lease)
    → get_elem? ls k ≡ some l
    → l.released ≡ false
    → held i (set ls k (record l { released = true })) + (if l.slot == i then 1 else 0) ≡ held i ls
held-set i [] k l e f = cc
held-set i (x ∷ xs) zero l e f = ground arith
held-set i (x ∷ xs) (suc k) l e f = omega (arith, held-set i xs k l e f)

-- A slot, if there is one, counts `n`.
abbrev pub CountIs : Option Slot → ℕ → Type 0
CountIs none n = Unit
CountIs (some s) n = s.active ≡ pos n

add_active-at :
    (d : ℤ) (i j : ℕ) (slots : List Slot)
    → get_elem? (add_active d i slots) j ≡ (
        if i == j
        then (elim (get_elem? slots j) [
          | none ↦ none
          | some s ↦ some (record s { active = s.active +ℤ d })
        ])
        else get_elem? slots j)
unfolding add_active
add_active-at d i j [] = ground arith
add_active-at d zero zero (s ∷ ss) = ground arith
add_active-at d zero (suc j) (s ∷ ss) = ground arith
add_active-at d (suc i) zero (s ∷ ss) = ground arith
add_active-at d (suc i) (suc j) (s ∷ ss) = ground (arith, add_active-at d i j ss)

-- The i-th slot counts the leases on it.
abbrev pub Counted : ℕ → Pool → Type 0
Counted i p = CountIs (get_elem? p.slots i) (held i p.leases)

acquire-Counted :
    (j : ℕ) (p : Pool) (xs : List ℕ) → p.available ≡ xs → Counted j p → Counted j (step p acquires)
unfolding step ◌+ℤ◌
acquire-Counted j p [] e h = ground arith
acquire-Counted j p (i ∷ rest) e h = ground (
  arith,
  add_active-at (pos 1) i j p.slots,
  held-append j p.leases (record { slot = i; released = false } ∷ []),
)

close-Counted :
    (j : ℕ) (slots : List Slot) (n : ℕ)
    → CountIs (get_elem? slots j) n
    → CountIs (get_elem? (map close_slot slots) j) n
unfolding close_slot
close-Counted j [] n h = h
close-Counted zero (s ∷ ss) n h = h
close-Counted (suc j) (s ∷ ss) n h = close-Counted j ss n h

release_open :
    (b : Branch) (j k : ℕ) (p : Pool) (l : Lease)
    → get_elem? p.leases k ≡ some l
    → l.released ≡ false
    → Counted j p
    → Counted j (release b k p)
unfolding release release_slot give_back ◌+ℤ◌ ◌-ℤ◌
release_open b j k p l e f h =
    ground (arith, add_active-at (pos 0 -ℤ pos 1) l.slot j p.slots, held-set j p.leases k l e f)

release-Counted : (b : Branch) (j k : ℕ) (p : Pool) → Counted j p → Counted j (release b k p)
release-Counted b j k p h = elim (Option-cases (get_elem? p.leases k)) [
  | inl e ↦ unfold release in ground arith
  | inr (l, e) ↦ elim (Bool-cases l.released) [
    | inl t ↦ unfold release in ground arith
    | inr t ↦ release_open b j k p l e t h
  ]
]

step-Counted : (j : ℕ) (p : Pool) (c : Call) → Counted j p → Counted j (step p c)
step-Counted j p acquires h = acquire-Counted j p p.available refl h
step-Counted j p closes h = unfold step close in close-Counted j p.slots _ h
step-Counted j p (releases b k) h = unfold step in release-Counted b j k p h

run-Counted : (j : ℕ) (p : Pool) (cs : List Call) → Counted j p → Counted j (run p cs)
unfolding run
run-Counted j p [] h = h
run-Counted j p (c ∷ cs) h = run-Counted j (step p c) cs (step-Counted j p c h)

append-CountIs :
    (j : ℕ) (slots : List Slot)
    → CountIs (get_elem? slots j) 0
    → CountIs (get_elem? (slots ++ new_slot ∷ []) j) 0
append-CountIs zero [] h = refl
append-CountIs (suc j) [] h = tt
append-CountIs zero (s ∷ ss) h = h
append-CountIs (suc j) (s ∷ ss) h = append-CountIs j ss h

fill-CountIs :
    (j left per : ℕ) (made : ℕ → Option Error) (p : Pool)
    → CountIs (get_elem? p.slots j) 0
    → CountIs (get_elem? (fill left per made p).0.slots j) 0
      × ((fill left per made p).0.leases ≡ p.leases)
unfolding fill close
fill-CountIs j zero per made p h = (h, refl)
fill-CountIs j (suc left) per made p h = ground (
  arith,
  close-Counted j p.slots 0 h,
  fill-CountIs j left per made
      (record p {
        slots = p.slots ++ new_slot ∷ [];
        available = p.available ++ replicate per (length p.slots);
      })
      (append-CountIs j p.slots h),
)

new-Counted :
    (j size per : ℕ) (made : ℕ → Option Error) → Counted j (new_page_slot_pool size per made).0
unfolding new_page_slot_pool
new-Counted j size per made =
    let p : Pool = record { available = []; capacity = size * per; slots = []; leases = [] } in
    let h = fill-CountIs j size per made p tt in rw h.1 h.0

-- In every state of a pool the counter of each slot is the number of leases on it that are out:
-- a lease is counted once, however often it is released.
pub run-active :
    (j size per : ℕ) (made : ℕ → Option Error) (cs : List Call)
    → Counted j (run (new_page_slot_pool size per made).0 cs)
run-active j size per made cs = run-Counted j _ cs (new-Counted j size per made)
