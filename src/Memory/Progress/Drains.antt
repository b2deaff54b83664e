-- ===== src/Memory/Progress/Drains.antt =====
-- Steps of the goroutine of Jobs that empty the channels.
use scrapemate.Prelude.{
  ◌≡◌, ◌≢◌, ◌⊎◌, inl, inr, refl, sym, subst, ℤ, true, Option, none, some, List, [], ◌∷◌, ◌++◌,
  append_assoc, arith,
}
use scrapemate.Errors.{Error}
use scrapemate.Memory.{
  Channel, p0, p1, p2, Phase, first, second, third, stopped, sending, Provider, waiting, listens,
  receive, fall_through, deliver, Steps, done, more,
}

module _ {J : Type 0} (get_priority : J → ℤ) where
  pub Steps-trans :
      {js ks : List J} {s t u : Provider J}
      → Steps get_priority js s t
      → Steps get_priority ks t u
      → Steps get_priority (ks ++ js) s u
  Steps-trans p (done t) = p
  Steps-trans {js = js} {s = s} p (more {js = ls} {ks = ms} {u = u} q step) =
      subst (λ ns. Steps get_priority ns s u) (sym (append_assoc ms ls js))
        (more (Steps-trans p q) step)

  -- A provider that is not canceled.
  abbrev running : List J → List J → List J → Phase J → List (Option J) → Option Error → Provider J
  running high medium low phase out errc = record {
    high = high;
    medium = medium;
    low = low;
    phase = phase;
    canceled = none;
    out = out;
    errc = errc;
  }

  -- All that waited has been received, and the goroutine waits for the next job.
  pub record Drained (s t : Provider J) : Type 0 where
    pub no_high : t.high ≡ []
    pub no_medium : t.medium ≡ []
    pub no_low : t.low ≡ []
    pub resting : (t.phase ≡ first) ⊎ (t.phase ≡ third)
    pub live : t.canceled ≡ none
    pub after : Steps get_priority [] s t

  delivered :
      {s : Provider J} (high medium low : List J) (out : List (Option J)) (errc : Option Error)
      (job : Option J)
      → Steps get_priority [] s (running high medium low (sending job) out errc)
      → Steps get_priority [] s (running high medium low first (job ∷ out) errc)
  delivered high medium low out errc job p =
      more p (deliver (running high medium low (sending job) out errc) job refl)

  to_second :
      {s : Provider J} (medium low : List J) (out : List (Option J)) (errc : Option Error)
      → Steps get_priority [] s (running [] medium low first out errc)
      → Steps get_priority [] s (running [] medium low second out errc)
  to_second medium low out errc p =
      more p (fall_through (running [] medium low first out errc) second (refl, nothing) refl)
    where
      nothing :
          (c : Channel)
          → listens {J = J} first c ≡ true
          → waiting c (running [] medium low first out errc) ≡ []
      nothing p0 h = refl
      nothing p1 h = absurd (ground arith)
      nothing p2 h = absurd (ground arith)

  to_third :
      {s : Provider J} (low : List J) (out : List (Option J)) (errc : Option Error)
      → Steps get_priority [] s (running [] [] low second out errc)
      → Steps get_priority [] s (running [] [] low third out errc)
  to_third low out errc p =
      more p (fall_through (running [] [] low second out errc) third (refl, nothing) refl)
    where
      nothing :
          (c : Channel)
          → listens {J = J} second c ≡ true
          → waiting c (running [] [] low second out errc) ≡ []
      nothing p0 h = refl
      nothing p1 h = refl
      nothing p2 h = absurd (ground arith)

  drain :
      {s : Provider J} (high medium low : List J) (out : List (Option J)) (errc : Option Error)
      → Steps get_priority [] s (running high medium low first out errc)
      → (t : Provider J) × Drained s t
  drain (job ∷ high) medium low out errc p = drain high medium low (some job ∷ out) errc (
      delivered high medium low out errc (some job)
        (more p (receive (running (job ∷ high) medium low first out errc) p0 job high refl refl)))
  drain [] (job ∷ medium) low out errc p = drain [] medium low (some job ∷ out) errc (
      delivered [] medium low out errc (some job) (
        more (to_second (job ∷ medium) low out errc p)
          (receive (running [] (job ∷ medium) low second out errc) p1 job medium refl refl)))
  drain [] [] (job ∷ low) out errc p = drain [] [] low (some job ∷ out) errc (
      delivered [] [] low out errc (some job) (
        more (to_third (job ∷ low) out errc (to_second [] (job ∷ low) out errc p))
          (receive (running [] [] (job ∷ low) third out errc) p2 job low refl refl)))
  drain [] [] [] out errc p = (
    running [] [] [] first out errc,
    record {
      no_high = refl;
      no_medium = refl;
      no_low = refl;
      resting = inl refl;
      live = refl;
      after = p;
    },
  )

  from_third :
      {s : Provider J} (high medium low : List J) (out : List (Option J)) (errc : Option Error)
      → Steps get_priority [] s (running high medium low third out errc)
      → (t : Provider J) × Drained s t
  from_third (job ∷ high) medium low out errc p = drain high medium low (some job ∷ out) errc (
      delivered high medium low out errc (some job)
        (more p (receive (running (job ∷ high) medium low third out errc) p0 job high refl refl)))
  from_third [] (job ∷ medium) low out errc p = drain [] medium low (some job ∷ out) errc (
      delivered [] medium low out errc (some job)
        (more p (receive (running [] (job ∷ medium) low third out errc) p1 job medium refl refl)))
  from_third [] [] (job ∷ low) out errc p = drain [] [] low (some job ∷ out) errc (
      delivered [] [] low out errc (some job)
        (more p (receive (running [] [] (job ∷ low) third out errc) p2 job low refl refl)))
  from_third [] [] [] out errc p = (
    running [] [] [] third out errc,
    record {
      no_high = refl;
      no_medium = refl;
      no_low = refl;
      resting = inr refl;
      live = refl;
      after = p;
    },
  )

  from_second :
      {s : Provider J} (high medium low : List J) (out : List (Option J)) (errc : Option Error)
      → Steps get_priority [] s (running high medium low second out errc)
      → (t : Provider J) × Drained s t
  from_second (job ∷ high) medium low out errc p = drain high medium low (some job ∷ out) errc (
      delivered high medium low out errc (some job)
        (more p (receive (running (job ∷ high) medium low second out errc) p0 job high refl refl)))
  from_second [] (job ∷ medium) low out errc p = drain [] medium low (some job ∷ out) errc (
      delivered [] medium low out errc (some job)
        (more p (receive (running [] (job ∷ medium) low second out errc) p1 job medium refl refl)))
  from_second [] [] low out errc p = from_third [] [] low out errc (to_third low out errc p)

  -- Wherever the goroutine stands.
  pub drains :
      (high medium low : List J) (phase : Phase J) (out : List (Option J)) (errc : Option Error)
      → phase ≢ stopped
      → (t : Provider J) × Drained (running high medium low phase out errc) t
  drains high medium low first out errc h =
      drain high medium low out errc (done (running high medium low first out errc))
  drains high medium low second out errc h =
      from_second high medium low out errc (done (running high medium low second out errc))
  drains high medium low third out errc h =
      from_third high medium low out errc (done (running high medium low third out errc))
  drains high medium low stopped out errc h = absurd (h refl)
  drains high medium low (sending job) out errc h = drain high medium low (job ∷ out) errc (
      delivered high medium low out errc job
        (done (running high medium low (sending job) out errc)))
