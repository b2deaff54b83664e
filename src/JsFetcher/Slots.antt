-- ===== src/JsFetcher/Slots.antt =====
-- getSlot, putSlot and Close of jshttp.go, with any number of calls of Fetch at a time. The channel
-- `slots` is a queue of slot numbers with the capacity that New gives it; Close, which empties it slot
-- by slot, is taken as one step. A panic, of putSlot or of a second Close when the channel is closed, ends the program
-- and so is no step.
pub mod Exclusive
use scrapemate.Prelude.{
  ℕ, zero, suc, Bool, true, false, Option, none, some, List, [], ◌∷◌, ◌++◌, length, ◌≡◌, ◌<◌,
}

-- `idle` is the channel; `held` has the slots of the calls that are under way; `dropped` those
-- that putSlot or Close closed.
pub record Slots : Type 0 where
  pub capacity : ℕ
  pub idle : List ℕ
  pub held : List ℕ
  pub dropped : List ℕ
  pub closed : Bool

abbrev pub up_to : ℕ → List ℕ
up_to zero = []
up_to (suc n) = up_to n ++ (n ∷ [])

-- The loop of New.
abbrev pub new_slots : ℕ → Slots
new_slots pool_size = record {
  capacity = pool_size;
  idle = up_to pool_size;
  held = [];
  dropped = [];
  closed = false;
}

-- Close, of the slots that wait.
abbrev pub close_slots : Slots → Slots
close_slots o = record o { idle = []; dropped = o.idle ++ o.dropped; closed = true }

pub data Step : Slots → Slots → Type 0 where
  -- getSlot receives a slot. (With a context that is done, it may return an error instead.)
  get_slot :
      (o : Slots) (i : ℕ) (rest : List ℕ)
      → o.idle ≡ i ∷ rest
      → Step o (record o { idle = rest; held = i ∷ o.held })
  -- After Close getSlot receives a nil slot at once.
  get_nil : (o : Slots) → o.closed ≡ true → Step o o
  -- putSlot sends the slot; a send waits while the channel is full, and panics if it is closed.
  put_slot :
      (o : Slots) (i : ℕ) (before after : List ℕ)
      → o.held ≡ before ++ (i ∷ after)
      → o.closed ≡ false
      → length o.idle < o.capacity
      → Step o (record o { idle = o.idle ++ (i ∷ []); held = before ++ after })
  -- putSlot with a context that is done may close the slot.
  drop_slot :
      (o : Slots) (i : ℕ) (before after : List ℕ)
      → o.held ≡ before ++ (i ∷ after)
      → Step o (record o { held = before ++ after; dropped = i ∷ o.dropped })
  close_all : (o : Slots) → o.closed ≡ false → Step o (close_slots o)

pub data Steps (o : Slots) : Slots → Type 0 where
  here : Steps o o
  next : {p q : Slots} → Steps o p → Step p q → Steps o q
