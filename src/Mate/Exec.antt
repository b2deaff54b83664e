-- ===== src/Mate/Exec.antt =====
-- The state that the methods of `ScrapeMate` share, and the monad in which they run. A method
-- returns, panics, or (in the model only) runs out of the fuel of a loop.
use scrapemate.Prelude.{ℕ, ℤ, String, Bool, Option, none, some, List, ◌∷◌}
use scrapemate.Errors.{Error}
use scrapemate.Response.{Response}
use scrapemate.Mate.Env.{Reply, replies, throws}

-- What a method does to the outside, newest first in a state's trace.
pub data Event (J V : Type 0) : Type 0 where
  fetched processed : J → Event J V
  pushed : J → Option Error → Event J V
  checked : J → Bool → Response V → Event J V
  taken : J → Bool → Event J V
  slept : ℤ → Event J V
  cache_set : String → Response V → Event J V
  delivered : J → Option V → Event J V

-- `stats`. The counters are int64; they do not reach their bound. Time zero is Go's zero time.
pub record Stats : Type 0 where
  pub num_of_jobs_completed : ℕ
  pub num_of_jobs_failed : ℕ
  pub last_activity_at : ℕ

-- `cause` is context.Cause(s.ctx): `none` until the context is cancelled.
pub record State (W J V : Type 0) : Type 0 where
  pub world : W
  pub cause : Option Error
  pub stats : Stats
  pub trace : List (Event J V)

pub data Outcome (A : Type 0) : Type 0 where
  returns : A → Outcome A
  panics out_of_fuel : Outcome A

-- A computation over the state `S`.
abbrev pub Exec : Type 0 → Type 0 → Type 0
Exec S A = S → Outcome A × S

abbrev pub and_then : {S A B : Type 0} → Outcome A × S → (A → Exec S B) → Outcome B × S
and_then (returns a, s) f = f a s
and_then (panics, s) f = (panics, s)
and_then (out_of_fuel, s) f = (out_of_fuel, s)

infixl 5 ◌>>=◌ ◌>>◌
abbrev pub ◌>>=◌ : {S A B : Type 0} → Exec S A → (A → Exec S B) → Exec S B
◌>>=◌ m f s = and_then (m s) f

abbrev pub ◌>>◌ : {S B : Type 0} → Exec S (Unit {0}) → Exec S B → Exec S B
◌>>◌ m k s = and_then (m s) (λ _. k)

abbrev pub pure : {S A : Type 0} → A → Exec S A
pure a s = (returns a, s)

-- A loop whose fuel is used up.
abbrev pub diverge : {S A : Type 0} → Exec S A
diverge s = (out_of_fuel, s)

-- A context keeps the first cause that it is cancelled with.
abbrev pub first_cause : Option Error → Error → Option Error
first_cause none e = some e
first_cause (some c) e = some c

module _ {W J V : Type 0} where
  abbrev pub record_event : Event J V → Exec (State W J V) (Unit {0})
  record_event e s = (returns tt, record s { trace = e ∷ s.trace })

  abbrev pub answer : {A : Type 0} → State W J V → Reply A × W → Outcome A × State W J V
  answer s (replies a, w) = (returns a, record s { world = w })
  answer s (throws, w) = (panics, record s { world = w })

  -- A call of foreign code.
  abbrev pub call : {A : Type 0} → (W → Reply A × W) → Exec (State W J V) A
  call f s = answer s (f s.world)

  -- s.cancelFn(err)
  abbrev pub cancel : Error → Exec (State W J V) (Unit {0})
  cancel e s = (returns tt, record s { cause = first_cause s.cause e })
