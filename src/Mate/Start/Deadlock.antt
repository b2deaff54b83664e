-- ===== src/Mate/Start/Deadlock.antt =====
-- What becomes of Start when nobody reads the results any more.
use scrapemate.Prelude.{ℕ, ◌≤◌, ◌<◌, ◌≡◌, ◌≢◌, refl, arith, Option, Bool}
use scrapemate.Errors.{Error}
use scrapemate.Mate.Env.{ScrapeMate, Processed}
use scrapemate.Mate.Start.{
  Pc, sending, Shared, waiting, returned, System, Move, stop, send, Step, turn, work, tick,
  stop_ticking, signal, cancel, leave, init_fails, init_ends, wait, return, Steps, stay, go_on,
}
use scrapemate.Mate.Start.Sums.{sum, sum-move, sum-AllStopped}

abbrev pub at_send : {J V : Type 0} → Pc J V → ℕ
at_send (sending j ans) = 1
at_send _ = 0

-- Start waits for its workers, one of them waits for a reader, and there is none.
pub record IsStuck {J V : Type 0} (s : System J V) : Type 0 where
  pub waits : s.main ≡ waiting
  pub unread : s.shared.readers ≡ 0
  pub blocked : 0 < sum at_send s.workers

module _ {W J V : Type 0} (mate : ScrapeMate W J V) (use_in_results : J → Bool)
    (does : J → Processed J V → Type 0) where
  Move-unread :
      {m m' : Shared} {p p' : Pc J V}
      → Move mate use_in_results does m p m' p'
      → m.readers ≡ 0
      → (m'.readers ≡ 0) × (at_send p ≤ at_send p')
  Move-unread (stop gone) h = ground arith
  Move-unread (send unclosed some_reader) h = absurd (omega (arith, h, some_reader))
  Move-unread mv h = ground arith

  Step-IsStuck : {s t : System J V} → Step mate use_in_results does s t → IsStuck s → IsStuck t
  Step-IsStuck {s} (turn (work _ before after {p} {p'} at mv)) h =
      let (unread, no_less) = Move-unread mv h.unread in
      record {
        waits = h.waits;
        unread = unread;
        blocked =
            omega (arith, h.blocked, no_less, sum-move at_send s.workers before after p p' at);
      }
  Step-IsStuck (turn (tick _ now on idle)) h = record {
    waits = h.waits;
    unread = h.unread;
    blocked = h.blocked;
  }
  Step-IsStuck (turn (stop_ticking _ e on gone)) h = record {
    waits = h.waits;
    unread = h.unread;
    blocked = h.blocked;
  }
  Step-IsStuck (turn (signal _)) h = record {
    waits = h.waits;
    unread = h.unread;
    blocked = h.blocked;
  }
  Step-IsStuck (cancel _ e) h = record { waits = h.waits; unread = h.unread; blocked = h.blocked }
  Step-IsStuck (leave _ r some_reader) h = absurd (omega (arith, h.unread, some_reader))
  Step-IsStuck (turn (init_fails _ e at)) h = let w = h.waits in absurd (ground arith)
  Step-IsStuck (turn (init_ends _ at)) h = let w = h.waits in absurd (ground arith)
  Step-IsStuck {s} (turn (wait _ at all quiet)) h =
      absurd (omega (arith, h.blocked, sum-AllStopped at_send refl s.workers all))
  Step-IsStuck (turn (return _ e at gone)) h = let w = h.waits in absurd (ground arith)

  Steps-IsStuck : {s t : System J V} → Steps mate use_in_results does s t → IsStuck s → IsStuck t
  Steps-IsStuck stay h = h
  Steps-IsStuck (go_on steps step) h = Step-IsStuck step (Steps-IsStuck steps h)

  -- Once no reader of the results is left and a worker has a result to send, Start never returns, whatever
  -- happens: not at the end of the context, nor at a signal, nor because of inactivity.
  pub Steps-ne-returned :
      {s t : System J V} (r : Option Error)
      → IsStuck s
      → Steps mate use_in_results does s t
      → t.main ≢ returned r
  Steps-ne-returned r stuck steps h =
      let w = (Steps-IsStuck steps stuck).waits in absurd (ground arith)
