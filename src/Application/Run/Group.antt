-- ===== src/Application/Run/Group.antt =====
-- What the errgroup of an application knows of its goroutines.
use scrapemate.Prelude.{
  ℕ, ◌+◌, ◌<◌, Bool, true, false, Option, none, some, List, [], ◌∷◌, ◌++◌, ◌≡◌, ◌≢◌, ◌⊎◌, inl, inr,
  refl, sym, ap, ◌∙◌, subst, arith,
}
use scrapemate.Errors.{Error}
use scrapemate.Mate.Exec.{first_cause}
use scrapemate.Mate.Start.{Main, waiting, returned}
use scrapemate.Application.Run.{Writer, finished, Seeder, pushing, seeded}

-- What still runs, and what ended with an error.
abbrev pub is_open : Writer → ℕ
is_open (finished o) = 0
is_open _ = 1

abbrev pub is_failed : Writer → ℕ
is_failed (finished (some e)) = 1
is_failed _ = 0

abbrev pub sum : (Writer → ℕ) → List Writer → ℕ
sum weight [] = 0
sum weight (w ∷ ws) = weight w + sum weight ws

abbrev pub is_seeding : {J : Type 0} → Seeder J → ℕ
is_seeding (pushing js) = 1
is_seeding (seeded o) = 0

abbrev pub is_collected : Bool → ℕ
is_collected true = 0
is_collected false = 1

abbrev pub seeder_failed : {J : Type 0} → Seeder J → ℕ
seeder_failed (seeded (some e)) = 1
seeder_failed _ = 0

abbrev pub scraper_failed : Bool → Main → ℕ
scraper_failed true (returned (some e)) = 1
scraper_failed _ _ = 0

sum-append :
    (weight : Writer → ℕ) (ws vs : List Writer)
    → sum weight (ws ++ vs) ≡ sum weight ws + sum weight vs
sum-append weight [] vs = omega arith
sum-append weight (w ∷ ws) vs = omega (arith, sum-append weight ws vs)

-- One writer is `w`.
pub sum-at :
    (weight : Writer → ℕ) (ws before after : List Writer) (w : Writer)
    → ws ≡ before ++ (w ∷ after)
    → sum weight ws ≡ sum weight before + weight w + sum weight after
sum-at weight ws before after w h =
    omega (arith, ap (sum weight) h, sum-append weight before (w ∷ after))

pub collected-true : (c : Bool) → is_collected c ≡ 0 → c ≡ true
collected-true true h = refl
collected-true false h = absurd (omega (arith, h))

-- A writer ended with the error `e`.
abbrev pub Has : Error → List Writer → Type 0
Has e [] = ⊥
Has e (w ∷ ws) = (w ≡ finished (some e)) ⊎ Has e ws

pub Has-here :
    (e : Error) (before after : List Writer) → Has e (before ++ (finished (some e) ∷ after))
Has-here e [] after = inl refl
Has-here e (b ∷ before) after = inr (Has-here e before after)

-- A writer that had not ended with `e` may change.
pub Has-move :
    (e : Error) (before after : List Writer) (w v : Writer)
    → w ≢ finished (some e)
    → Has e (before ++ (w ∷ after))
    → Has e (before ++ (v ∷ after))
Has-move e [] after w v other (inl h) = absurd (other h)
Has-move e [] after w v other (inr h) = inr h
Has-move e (b ∷ before) after w v other (inl h) = inl h
Has-move e (b ∷ before) after w v other (inr h) = inr (Has-move e before after w v other h)

module _ {J : Type 0} where
  -- Who gave the group the error `e`.
  pub data Origin (e : Error) (ws : List Writer) (seeder : Seeder J) (collected : Bool)
      (main : Main) : Type 0 where
    a_writer : Has e ws → Origin e ws seeder collected main
    the_seeder : seeder ≡ seeded (some e) → Origin e ws seeder collected main
    the_scraper : collected ≡ true → main ≡ returned (some e) → Origin e ws seeder collected main

  abbrev pub running : List Writer → Seeder J → Bool → ℕ
  running ws seeder collected = sum is_open ws + is_seeding seeder + is_collected collected

  pub record IsGroup (ws : List Writer) (seeder : Seeder J) (first : Option Error)
      (collected : Bool) (result : Option (Option Error)) (main : Main) : Type 0 where
    pub over :
        (o : Option Error) → result ≡ some o → (running ws seeder collected ≡ 0) × (first ≡ o)
    pub returns : collected ≡ true → (x : Option Error) × (main ≡ returned x)
    pub origin : (e : Error) → first ≡ some e → Origin e ws seeder collected main
    pub clean :
        first ≡ none → sum is_failed ws + seeder_failed seeder + scraper_failed collected main ≡ 0

  -- A goroutine goes on, or ends without an error.
  pub IsGroup-progress :
      {ws ws' : List Writer} {seeder seeder' : Seeder J} {first : Option Error}
      {collected collected' : Bool} {result : Option (Option Error)} {main main' : Main}
      → 0 < running ws seeder collected
      → (collected' ≡ true → (x : Option Error) × (main' ≡ returned x))
      → ((e : Error) → Origin e ws seeder collected main → Origin e ws' seeder' collected' main')
      → (sum is_failed ws + seeder_failed seeder + scraper_failed collected main ≡ 0
          → sum is_failed ws' + seeder_failed seeder' + scraper_failed collected' main' ≡ 0)
      → IsGroup ws seeder first collected result main
      → IsGroup ws' seeder' first collected' result main'
  IsGroup-progress live back moves fails h = record {
    over = λ o q. absurd (omega (arith, live, (h.over o q).0));
    returns = back;
    origin = λ e q. moves e (h.origin e q);
    clean = λ q. fails (h.clean q);
  }

  -- A goroutine ends with the error `x`.
  pub IsGroup-error :
      {ws ws' : List Writer} {seeder seeder' : Seeder J} {first : Option Error}
      {collected collected' : Bool} {result : Option (Option Error)} {main main' : Main} (x : Error)
      → 0 < running ws seeder collected
      → (collected' ≡ true → (x : Option Error) × (main' ≡ returned x))
      → ((e : Error) → Origin e ws seeder collected main → Origin e ws' seeder' collected' main')
      → Origin x ws' seeder' collected' main'
      → IsGroup ws seeder first collected result main
      → IsGroup ws' seeder' (first_cause first x) collected' result main'
  IsGroup-error {ws' = ws'} {seeder' = seeder'} {first = none} {collected' = collected'}
        {main' = main'} x live back moves new h =
      record {
        over = λ o q. absurd (omega (arith, live, (h.over o q).0));
        returns = back;
        origin = λ e q.
            let same : x ≡ e = ground arith in
            subst (λ y. Origin y ws' seeder' collected' main') same new;
        clean = λ q. absurd (ground arith);
      }
  IsGroup-error {first = some y} x live back moves new h = record {
    over = λ o q. absurd (omega (arith, live, (h.over o q).0));
    returns = back;
    origin = λ e q. moves e (h.origin e q);
    clean = λ q. absurd (ground arith);
  }

  -- The scraper goes on; once it has returned it does not return anything else.
  pub IsGroup-main :
      {ws : List Writer} {seeder : Seeder J} {first : Option Error} {collected : Bool}
      {result : Option (Option Error)} {main main' : Main}
      → ((x : Option Error) → main ≡ returned x → main' ≡ returned x)
      → IsGroup ws seeder first collected result main
      → IsGroup ws seeder first collected result main'
  IsGroup-main {collected = false} keeps h = record {
    over = h.over;
    returns = λ q. absurd (ground arith);
    origin = λ e q. elim (h.origin e q) [
      | a_writer w ↦ a_writer w
      | the_seeder w ↦ the_seeder w
      | the_scraper c m ↦ absurd (ground arith)
    ];
    clean = h.clean;
  }
  IsGroup-main {collected = true} {main = main} {main' = main'} keeps h =
      let (x, at) = h.returns refl in
      let same : main' ≡ main = keeps x at ∙ sym at in
      record {
        over = h.over;
        returns = λ q. (x, keeps x at);
        origin = λ e q. elim (h.origin e q) [
          | a_writer w ↦ a_writer w
          | the_seeder w ↦ the_seeder w
          | the_scraper c m ↦ the_scraper c (keeps (some e) m)
        ];
        clean = λ q. omega (arith, ap (scraper_failed true) same, h.clean q);
      }

  -- While the scraper has not returned, its goroutine and the group's owner wait.
  pub IsGroup-waiting :
      {ws : List Writer} {seeder : Seeder J} {first : Option Error} {main : Main} (collected : Bool)
      (result : Option (Option Error))
      → main ≡ waiting
      → IsGroup ws seeder first collected result main
      → (collected ≡ false) × (result ≡ none)
  IsGroup-waiting true result at h = let back = (h.returns refl).1 in absurd (ground arith)
  IsGroup-waiting false none at h = (refl, refl)
  IsGroup-waiting false (some o) at h = absurd (omega (arith, (h.over o refl).0))
