-- ===== src/JsonWriter/Items.antt =====
-- What the JSON writer encodes.
use scrapemate.Prelude.{◌≡◌, refl, Option, none, some, List, [], ◌∷◌, ◌++◌}
use scrapemate.Errors.{Error}
use scrapemate.JsonWriter.{Data, any_slice, other, as_slice, and_next, encode_all, run}

-- The items of a list of results: those of a `[]any` one by one, and any other value.
abbrev pub items : {A : Type 0} → List (Data A) → List A
items [] = []
items (any_slice xs ∷ ds) = xs ++ items ds
items (other x ∷ ds) = x ∷ items ds

module _ {A S : Type 0} (encode : A → S → Option Error × S) where
  -- The ways to encode a list in order, from a state on: each item is encoded once, until one gives an error, which
  -- ends it.
  pub data Encodes : List A → S → Option Error × S → Type 0 where
    all : (s : S) → Encodes [] s (none, s)
    next :
        (x : A) (xs : List A) (s t : S) (r : Option Error × S)
        → encode x s ≡ (none, t)
        → Encodes xs t r
        → Encodes (x ∷ xs) s r
    stops :
        (x : A) (xs : List A) (s t : S) (e : Error)
        → encode x s ≡ (some e, t)
        → Encodes (x ∷ xs) s (some e, t)

  -- One item, and what follows it.
  and_next-Encodes :
      (x : A) (xs : List A) (s : S) (f : S → Option Error × S)
      → ((t : S) → Encodes xs t (f t))
      → Encodes (x ∷ xs) s (and_next (encode x s) f)
  and_next-Encodes x xs s f h = go (encode x s) refl
    where
      go : (r : Option Error × S) → encode x s ≡ r → Encodes (x ∷ xs) s (and_next r f)
      go (none, t) q = next x xs s t (f t) q (h t)
      go (some e, t) q = stops x xs s t e q

  encode_all-Encodes :
      (xs ys : List A) (s : S) (f : S → Option Error × S)
      → ((t : S) → Encodes ys t (f t))
      → Encodes (xs ++ ys) s (and_next (encode_all encode xs s) f)
  unfolding encode_all
  encode_all-Encodes [] ys s f h = h s
  encode_all-Encodes (x ∷ xs) ys s f h = go (encode x s) refl (λ t. encode_all-Encodes xs ys t f h)
    where
      go :
          (r : Option Error × S)
          → encode x s ≡ r
          → ((t : S) → Encodes (xs ++ ys) t (and_next (encode_all encode xs t) f))
          → Encodes (x ∷ (xs ++ ys)) s (and_next (and_next r (encode_all encode xs)) f)
      go (none, t) q ih = next x (xs ++ ys) s t _ q (ih t)
      go (some e, t) q ih = stops x (xs ++ ys) s t e q

  -- Run of the JSON writer encodes the items of all results in order, those of a `[]any` one by one, and
  -- stops at the first error, which it returns, whatever the encoder does.
  pub run-Encodes : (ds : List (Data A)) (s : S) → Encodes (items ds) s (run encode ds s)
  unfolding run as_slice encode_all
  run-Encodes [] s = all s
  run-Encodes (any_slice xs ∷ ds) s =
      encode_all-Encodes xs (items ds) s (run encode ds) (run-Encodes ds)
  run-Encodes (other x ∷ ds) s =
      encode_all-Encodes (x ∷ []) (items ds) s (run encode ds) (run-Encodes ds)
