-- ===== src/Memory.antt =====
-- adapters/providers/memory/memory.go. One goroutine of `Jobs` and the goroutines that `Push`
-- starts take steps in any order. A channel is the list of the jobs whose senders are blocked on
-- it. Between two of the three nested selects, any other goroutine may take its steps.
pub mod Delivery
pub mod Order
pub mod Progress
use scrapemate.Prelude.{
  ℕ, ℤ, pos, eqb_ℤ, Bool, true, false, Option, none, some, List, [], ◌∷◌, ◌++◌, if◌then◌else◌, ◌≡◌,
}
use scrapemate.Errors.{Error}

abbrev pub priority_high : ℤ
priority_high = pos 0

abbrev pub priority_medium : ℤ
priority_medium = pos 1

abbrev pub priority_low : ℤ
priority_low = pos 2

pub data Channel : Type 0 where
  p0 p1 p2 : Channel

-- The switch of Push.
unfoldable pub channel_of : ℤ → Channel
channel_of priority =
    if eqb_ℤ priority priority_high
    then p0
    else if eqb_ℤ priority priority_medium
    then p1
    else if eqb_ℤ priority priority_low
    then p2
    else p0

-- Where the goroutine of Jobs stands: at one of its selects, outer first; at `out <- job`, with
-- the job, which may be nil; or returned.
pub data Phase (J : Type 0) : Type 0 where
  first second third stopped : Phase J
  sending : Option J → Phase J

-- `canceled` is the error of the context, once it is done; `out` has what was received from the
-- channel that Jobs returned, newest first; `errc` is what is in the error channel.
pub record Provider (J : Type 0) : Type 0 where
  pub high : List J
  pub medium : List J
  pub low : List J
  pub phase : Phase J
  pub canceled : Option Error
  pub out : List (Option J)
  pub errc : Option Error

module _ {J : Type 0} where
  -- New, and the call of Jobs.
  abbrev pub new : Provider J
  new = record {
    high = [];
    medium = [];
    low = [];
    phase = first;
    canceled = none;
    out = [];
    errc = none;
  }

  abbrev pub waiting : Channel → Provider J → List J
  waiting p0 s = s.high
  waiting p1 s = s.medium
  waiting p2 s = s.low

  abbrev pub with_waiting : Channel → List J → Provider J → Provider J
  with_waiting p0 js s = record s { high = js }
  with_waiting p1 js s = record s { medium = js }
  with_waiting p2 js s = record s { low = js }

  -- The channels that a select receives from.
  abbrev pub listens : Phase J → Channel → Bool
  listens first p0 = true
  listens second p0 = true
  listens second p1 = true
  listens third _ = true
  listens _ _ = false

  -- What the default of a select leads to. The third one has none.
  abbrev pub otherwise : Phase J → Option (Phase J)
  otherwise first = some second
  otherwise second = some third
  otherwise _ = none

  -- No case of the select is ready.
  abbrev pub Idle : Provider J → Type 0
  Idle s = (s.canceled ≡ none) × ((c : Channel) → listens s.phase c ≡ true → waiting c s ≡ [])

  module _ (get_priority : J → ℤ) where
    -- The list has the jobs that the step pushes.
    pub data Step : List J → Provider J → Provider J → Type 0 where
      -- Push starts a goroutine, which blocks on the channel of the job's priority.
      push :
          (s : Provider J) (job : J)
          → Step (job ∷ []) s (
              with_waiting
                (channel_of (get_priority job))
                (waiting (channel_of (get_priority job)) s ++ (job ∷ []))
                s)
      cancel :
          (s : Provider J) (e : Error)
          → s.canceled ≡ none
          → Step [] s (record s { canceled = some e })
      -- `case <-ctx.Done(): return` of a goroutine of Push.
      give_up :
          (s : Provider J) (e : Error) (c : Channel) (before after : List J) (job : J)
          → s.canceled ≡ some e
          → waiting c s ≡ before ++ (job ∷ after)
          → Step [] s (with_waiting c (before ++ after) s)
      -- `case job = <-o.p0:` and the like.
      receive :
          (s : Provider J) (c : Channel) (job : J) (rest : List J)
          → listens s.phase c ≡ true
          → waiting c s ≡ job ∷ rest
          → Step [] s (record (with_waiting c rest s) { phase = sending (some job) })
      fall_through :
          (s : Provider J) (next : Phase J)
          → Idle s
          → otherwise s.phase ≡ some next
          → Step [] s (record s { phase = next })
      -- `case <-ctx.Done():` of the outer and of the inner select.
      stop_first :
          (s : Provider J) (e : Error)
          → s.phase ≡ first
          → s.canceled ≡ some e
          → Step [] s (record s { phase = stopped; errc = some e })
      stop_third :
          (s : Provider J) (e : Error)
          → s.phase ≡ third
          → s.canceled ≡ some e
          → Step [] s (record s { phase = stopped; errc = some e })
      -- The one of the middle select: `out <- job`, where no job was received.
      done_second :
          (s : Provider J) (e : Error)
          → s.phase ≡ second
          → s.canceled ≡ some e
          → Step [] s (record s { phase = sending none })
      -- The reader of `out` takes the job, and the loop starts again.
      deliver :
          (s : Provider J) (job : Option J)
          → s.phase ≡ sending job
          → Step [] s (record s { phase = first; out = job ∷ s.out })

    pub data Steps : List J → Provider J → Provider J → Type 0 where
      done : (s : Provider J) → Steps [] s s
      more :
          {js ks : List J} {s t u : Provider J} → Steps js s t → Step ks t u → Steps (ks ++ js) s u
