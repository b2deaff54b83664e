-- ===== src/JsFetcher/Slots/Exclusive.antt =====
-- No slot is used by two calls of Fetch at a time, and putSlot never waits.
use scrapemate.Prelude.{
  ℕ, zero, suc, ◌+◌, ◌≤◌, ◌<◌, List, [], ◌∷◌, length, length-append, if◌then◌else◌, ◌==◌, ◌≡◌,
  arith,
}
use scrapemate.JsFetcher.Slots.{Slots, up_to}

abbrev pub count : ℕ → List ℕ → ℕ
count i [] = 0
count i (x ∷ xs) = (if x == i then 1 else 0) + count i xs

pub length-up_to : (n : ℕ) → length (up_to n) ≡ n
length-up_to zero = omega arith
length-up_to (suc n) = omega (arith, length-append (up_to n) (n ∷ []), length-up_to n)

-- How often a slot is there, and how many there are.
abbrev whole : ℕ → Slots → ℕ
whole i o = count i o.idle + count i o.held + count i o.dropped

abbrev size : Slots → ℕ
size o = length o.idle + length o.held + length o.dropped

record Kept (i : ℕ) (o p : Slots) : Type 0 where
  times : whole i p ≡ whole i o
  amount : size p ≡ size o
  room : p.capacity ≡ o.capacity

-- What the fetcher promises of its slots: every slot is in one place, none is lost, and the
-- channel has room for each slot that is in use.
pub record AreExclusive (n : ℕ) (o : Slots) : Type 0 where
  pub once : (i : ℕ) → count i o.idle + count i o.held + count i o.dropped ≤ 1
  pub total : length o.idle + length o.held + length o.dropped ≡ n
  pub has_room : 0 < length o.held → length o.idle < o.capacity
