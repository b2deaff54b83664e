-- ===== src/JsonWriter.antt =====
-- adapters/writers/jsonwriter/jsonwriter.go. The json.Encoder is foreign: `encode` writes one item
-- to a state `S`. A run has the list of what is received from the channel before it is closed.
pub mod Items
use scrapemate.Prelude.{Option, none, some, List, [], ◌∷◌}
use scrapemate.Errors.{Error}

-- The data of a result: a `[]any`, or anything else, which may be nil or a slice of another type.
pub data Data (A : Type 0) : Type 0 where
  any_slice : List A → Data A
  other : A → Data A

unfoldable pub as_slice : {A : Type 0} → Data A → List A
as_slice (any_slice items) = items
as_slice (other item) = item ∷ []

-- `next`, or the error of what was done before it.
abbrev pub and_next : {S : Type 0} → Option Error × S → (S → Option Error × S) → Option Error × S
and_next (none, s) next = next s
and_next (some e, s) next = (some e, s)

module _ {A S : Type 0} (encode : A → S → Option Error × S) where
  -- The inner loop.
  unfoldable pub encode_all : List A → S → Option Error × S
  encode_all [] s = (none, s)
  encode_all (item ∷ items) s = and_next (encode item s) (encode_all items)

  unfoldable pub run : List (Data A) → S → Option Error × S
  run [] s = (none, s)
  run (d ∷ ds) s = and_next (encode_all (as_slice d) s) (run ds)
