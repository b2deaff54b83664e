-- ===== src/Memory/Order.antt =====
-- The order in which a goroutine of Jobs takes the jobs, and what it does when the context is done.
use scrapemate.Prelude.{ℕ, ◌<◌, ◌≡◌, refl, ℤ, true, none, some, [], ◌∷◌, arith}
use scrapemate.Errors.{Error}
use scrapemate.Memory.{
  Channel, p0, p1, p2, Phase, first, second, third, sending, Provider, new, waiting, listens,
  otherwise, Idle, cancel, fall_through, done_second, deliver, Steps, done, more,
}

abbrev pub rank : Channel → ℕ
rank p0 = 0
rank p1 = 1
rank p2 = 2

module _ {J : Type 0} where
  -- Steps of the goroutine alone, from one select to the next.
  pub data Scan (s : Provider J) : Provider J → Type 0 where
    here : Scan s s
    next_select :
        {t : Provider J} (next : Phase J)
        → Scan s t
        → Idle t
        → otherwise t.phase ≡ some next
        → Scan s (record t { phase = next })

  -- The channels that the earlier selects of this round found empty.
  abbrev Passed : Provider J → Type 0
  Passed t = (t.phase ≡ second → t.high ≡ []) × (t.phase ≡ third → (t.high ≡ []) × (t.medium ≡ []))

  Scan-Passed : {s t : Provider J} → s.phase ≡ first → Scan s t → Passed t
  Scan-Passed h here = (λ q. ground arith, λ q. ground arith)
  Scan-Passed h (next_select {t} next p (i, j) o) =
      let (one, two) = Scan-Passed h p in
      let up = j p0 in let down = j p1 in (λ q. ground arith, λ q. ground arith)

  Passed-highest :
      (t : Provider J) (c d : Channel)
      → Passed t
      → listens t.phase c ≡ true
      → rank d < rank c
      → waiting d t ≡ []
  Passed-highest t c d (h, k) l r = ground arith

  -- If no other goroutine takes a step since the start of the round, every channel of a higher
  -- priority than one that the goroutine's select receives from is empty.
  pub Scan-highest :
      (s t : Provider J) (c d : Channel)
      → s.phase ≡ first
      → Scan s t
      → listens t.phase c ≡ true
      → rank d < rank c
      → waiting d t ≡ []
  Scan-highest s t c d h p l r = Passed-highest t c d (Scan-Passed h p) l r

  -- When the context is done while the goroutine is at its middle select, the reader of the jobs
  -- may receive a nil job: this happens in some run of a new provider.
  nil_job :
      (get_priority : J → ℤ) (e : Error)
      → (t : Provider J) × Steps get_priority [] new t × (t.canceled ≡ some e) × (t.out ≡ none ∷ [])
  nil_job get_priority e =
      let at_second = fall_through new second (refl, λ c _. ground arith) refl in
      let over = cancel (record new { phase = second }) e refl in
      let none_sent = done_second (record new { phase = second; canceled = some e }) e refl refl in
      let taken = deliver (record new { phase = sending none; canceled = some e }) none refl in
      (
        record new { canceled = some e; out = none ∷ [] },
        more (more (more (more (done new) at_second) over) none_sent) taken,
        refl,
        refl,
      )
