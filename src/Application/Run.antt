-- ===== src/Application/Run.antt =====
-- Start of scrapemateapp/scrapemateapp.go: an errgroup of a goroutine per writer, one for the scraper's Start and one
-- that pushes the seed jobs, which take steps in any order. The scraper is that of Mate.Start; its readers are the
-- writers that still run. A writer's Run ends without an error when the results are closed, as that of both writers
-- does, and with any error at any time. The errgroup is golang.org/x/sync's: its first error cancels its context.
pub mod Projection
pub mod Group
pub mod Grouped
pub mod Results
pub mod Endings
use scrapemate.Prelude.{
  ℕ, suc, Bool, true, false, Option, none, some, List, [], ◌∷◌, ◌++◌, length, replicate, ◌≡◌,
}
use scrapemate.Errors.{Error, canceled, Result, ok, err}
use scrapemate.Mate.Env.{ScrapeMate, JobProvider, Processed, Reply, replies, throws}
use scrapemate.Config.{Config}
use scrapemate.Proxy.{Net}
use scrapemate.Application.{Parts, get_mate}
use scrapemate.Mate.Exec.{first_cause}
use scrapemate.Mate.Start.{System, Main, returned, fresh, canceled_with, Turn}

-- The goroutine of a writer; it cancels the context before it hands its error to the group.
pub data Writer : Type 0 where
  reading : Writer
  failing : Error → Writer
  finished : Option Error → Writer

-- The goroutine that pushes the seed jobs.
pub data Seeder (J : Type 0) : Type 0 where
  pushing : List J → Seeder J
  seeded : Option Error → Seeder J

-- `cause` is that of Start's context, of which the scraper's is a child; `first` is the error of the group; `collected`
-- says that the scraper's goroutine has returned; the result is there when Start has returned. The closing of the fetcher
-- and of the cache, which Start has deferred, is left out.
pub record Run (J V : Type 0) : Type 0 where
  pub mate : System J V
  pub writers : List Writer
  pub seeder : Seeder J
  pub cause : Option Error
  pub first : Option Error
  pub collected : Bool
  pub result : Option (Option Error)

abbrev pub AllFinished : List Writer → Type 0
AllFinished [] = Unit
AllFinished (w ∷ ws) = ((o : Option Error) × (w ≡ finished o)) × AllFinished ws

-- The cause that Wait gives the group's context.
abbrev pub wait_cause : Option Error → Error
wait_cause none = canceled
wait_cause (some e) = e

module _ {J V : Type 0} where
  -- After getMate: `writers` is the number of cfg.Writers.
  abbrev pub started : (writers : ℕ) → List J → Run J V
  started writers seeds = record {
    mate = fresh writers;
    writers = replicate writers reading;
    seeder = pushing seeds;
    cause = none;
    first = none;
    collected = false;
    result = none;
  }

  -- A cancel of Start's context, or of one that it is a child of, with the cause `e`: the scraper's ends too.
  unfoldable pub cancel_all : Option Error → Error → Run J V → Run J V
  cancel_all none e r = record r {
    cause = some e;
    mate = record r.mate { shared = canceled_with e r.mate.shared };
  }
  cancel_all (some c) e r = r

  abbrev pub cancel_app : Error → Run J V → Run J V
  cancel_app e r = cancel_all r.cause e r

  -- A goroutine returns an error to the group.
  abbrev pub fail : Error → Run J V → Run J V
  fail e r = cancel_app e (record r { first = first_cause r.first e })

  abbrev pub with_readers : ℕ → System J V → System J V
  with_readers n s = record s { shared = record s.shared { readers = n } }

module _ {W J V : Type 0} (mate : ScrapeMate W J V) (use_in_results : J → Bool)
    (does : J → Processed J V → Type 0) where
  pub data Step : Run J V → Run J V → Type 0 where
    scrape :
        (r : Run J V) {s : System J V}
        → Turn mate use_in_results does r.mate s
        → Step r (record r { mate = s })
    -- The context that Start was given ends.
    interrupt : (r : Run J V) (e : Error) → Step r (cancel_app e r)
    writer_fails :
        (r : Run J V) (before after : List Writer) (e : Error) (n : ℕ)
        → r.writers ≡ before ++ (reading ∷ after)
        → r.mate.shared.readers ≡ suc n
        → Step r (
            cancel_app e
              (record r { writers = before ++ (failing e ∷ after); mate = with_readers n r.mate }))
    writer_returns :
        (r : Run J V) (before after : List Writer) (e : Error)
        → r.writers ≡ before ++ (failing e ∷ after)
        → Step r (fail e (record r { writers = before ++ (finished (some e) ∷ after) }))
    writer_ends :
        (r : Run J V) (before after : List Writer) (n : ℕ)
        → r.writers ≡ before ++ (reading ∷ after)
        → r.mate.shared.readers ≡ suc n
        → r.mate.shared.closed ≡ true
        → Step r
            (record r { writers = before ++ (finished none ∷ after); mate = with_readers n r.mate })
    seed :
        (r : Run J V) (j : J) (js : List J)
        → r.seeder ≡ pushing (j ∷ js)
        → Step r (record r { seeder = pushing js })
    seed_fails :
        (r : Run J V) (j : J) (js : List J) (e : Error)
        → r.seeder ≡ pushing (j ∷ js)
        → Step r (fail e (record r { seeder = seeded (some e) }))
    seed_ends : (r : Run J V) → r.seeder ≡ pushing [] → Step r (record r { seeder = seeded none })
    scraper_fails :
        (r : Run J V) (e : Error)
        → r.collected ≡ false
        → r.mate.main ≡ returned (some e)
        → Step r (fail e (record r { collected = true }))
    scraper_ends :
        (r : Run J V)
        → r.collected ≡ false
        → r.mate.main ≡ returned none
        → Step r (record r { collected = true })
    -- g.Wait, and the return of Start.
    wait :
        (r : Run J V) (o : Option Error)
        → r.result ≡ none
        → AllFinished r.writers
        → r.seeder ≡ seeded o
        → r.collected ≡ true
        → Step r (cancel_app (wait_cause r.first) (record r { result = some r.first }))

  pub data Steps (r : Run J V) : Run J V → Type 0 where
    stay : Steps r r
    go_on : {t u : Run J V} → Steps r t → Step t u → Steps r u

abbrev pub begun :
    {W J V : Type 0}
    → Reply (Result (ScrapeMate W J V))
    → (writers : ℕ) → List J
    → Reply (Result (ScrapeMate W J V × Run J V))
begun throws writers seeds = throws
begun (replies (err e)) writers seeds = replies (err e)
begun (replies (ok mate)) writers seeds = replies (ok (mate, started writers seeds))

module _ {W J V Wr : Type 0} (net : Net) (parts : Parts W J V) where
  -- Start up to its goroutines: an error of getMate ends it.
  unfoldable pub begin :
      Config (JobProvider W J) Wr J → List J → W → Reply (Result (ScrapeMate W J V × Run J V)) × W
  begin cfg seeds w =
      let (mate, w') = get_mate net parts cfg w in (begun mate (length cfg.writers) seeds, w')
