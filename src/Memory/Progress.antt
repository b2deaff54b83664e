-- ===== src/Memory/Progress.antt =====
-- The goroutine of Jobs can always go on to empty the channels of the provider.
pub mod Drains
use scrapemate.Prelude.{
  ℕ, ◌≡◌, ◌≢◌, ◌⊎◌, inl, inr, refl, sym, ap, ◌∙◌, subst, ℤ, true, Option, none, some, List, [], ◌∷◌,
  ◌++◌, append_assoc, arith,
}
use scrapemate.Errors.{Error}
use scrapemate.Memory.{
  Channel, p0, p1, p2, channel_of, Phase, first, second, third, stopped, sending, Provider, new,
  waiting, with_waiting, listens, otherwise, Step, push, cancel, give_up, receive, fall_through,
  stop_first, stop_third, done_second, deliver, Steps, done, more,
}
use scrapemate.Memory.Delivery.{total, total_out, in_hand, Steps-conserve}
use scrapemate.Memory.Progress.Drains.{Steps-trans, Drained, drains}

module _ {J : Type 0} (get_priority : J → ℤ) where
  with_waiting-phase :
      (c : Channel) (js : List J) (s : Provider J) → (with_waiting c js s).phase ≡ s.phase
  with_waiting-phase p0 js s = refl
  with_waiting-phase p1 js s = refl
  with_waiting-phase p2 js s = refl

  with_waiting-canceled :
      (c : Channel) (js : List J) (s : Provider J) → (with_waiting c js s).canceled ≡ s.canceled
  with_waiting-canceled p0 js s = refl
  with_waiting-canceled p1 js s = refl
  with_waiting-canceled p2 js s = refl

  record Alive (s t : Provider J) : Type 0 where
    live : t.canceled ≡ none → s.canceled ≡ none
    on : t.canceled ≡ none → s.phase ≢ stopped → t.phase ≢ stopped

  otherwise-not_stopped : (phase next : Phase J) → otherwise phase ≡ some next → next ≢ stopped
  otherwise-not_stopped phase next h q = absurd (ground arith)

  -- The goroutine returns after the context is done only.
  Step-Alive : {js : List J} {s t : Provider J} → Step get_priority js s t → Alive s t
  Step-Alive (push s job) =
      let c = channel_of (get_priority job) in
      let js = waiting c s ++ (job ∷ []) in
      record {
        live = λ h. sym (with_waiting-canceled c js s) ∙ h;
        on = λ h k q. k (sym (with_waiting-phase c js s) ∙ q);
      }
  Step-Alive (cancel s e live) = record { live = λ h. live; on = λ h k. k }
  Step-Alive (give_up s e c before rest job gone k) = record {
    live = λ h. sym (with_waiting-canceled c (before ++ rest) s) ∙ h;
    on = λ h k q. k (sym (with_waiting-phase c (before ++ rest) s) ∙ q);
  }
  Step-Alive (receive s c job rest l k) = record {
    live = λ h. sym (with_waiting-canceled c rest s) ∙ h;
    on = λ h k q. absurd (ground arith);
  }
  Step-Alive (fall_through s after idle o) = record {
    live = λ h. h;
    on = λ h k. otherwise-not_stopped s.phase after o;
  }
  Step-Alive (stop_first s e k gone) = record { live = λ h. h; on = λ h k. absurd (ground arith) }
  Step-Alive (stop_third s e k gone) = record { live = λ h. h; on = λ h k. absurd (ground arith) }
  Step-Alive (done_second s e k gone) = record {
    live = λ h. h;
    on = λ h k q. absurd (ground arith);
  }
  Step-Alive (deliver s job k) = record { live = λ h. h; on = λ h k q. absurd (ground arith) }

  Steps-not_stopped :
      {js : List J} {s t : Provider J}
      → Steps get_priority js s t
      → s.phase ≢ stopped
      → t.canceled ≡ none
      → t.phase ≢ stopped
  Steps-not_stopped (done s) k h = k
  Steps-not_stopped (more p step) k h =
      let a = Step-Alive step in a.on h (Steps-not_stopped p k (a.live h))

  drains_live :
      (s : Provider J)
      → s.canceled ≡ none
      → s.phase ≢ stopped
      → (t : Provider J) × Drained get_priority s t
  drains_live s h k =
      subst (λ (r : Provider J). (t : Provider J) × Drained get_priority r t)
        (ap (λ c. record s { canceled = c }) (sym h))
        (drains get_priority s.high s.medium s.low s.phase s.out s.errc k)

  resting-empty_hand :
      (weight : J → ℕ) (phase : Phase J)
      → (phase ≡ first) ⊎ (phase ≡ third)
      → in_hand weight phase ≡ 0
  resting-empty_hand weight phase (inl h) = ap (in_hand weight) h
  resting-empty_hand weight phase (inr h) = ap (in_hand weight) h

  -- However the goroutines got there from New on, as long as the context is not done there are steps, with no
  -- further Push, after which nothing waits, and the reader has received what was pushed, whatever
  -- weight each job has, and so each single job: jobs of a low priority are not stuck.
  pub Steps-Drained :
      (js : List J) (s : Provider J)
      → Steps get_priority js new s
      → s.canceled ≡ none
      → (t : Provider J) × Drained get_priority s t
        × ((weight : J → ℕ) → total_out weight t.out ≡ total weight js)
  Steps-Drained js s p h =
      let (t, d) = drains_live s h (Steps-not_stopped p (λ q. absurd (ground arith)) h) in
      (
        t,
        d,
        λ weight.
            let kept =
              (Steps-conserve weight get_priority js t (Steps-trans get_priority p d.after)).1
                d.live in
            omega (
              arith,
              kept,
              resting-empty_hand weight t.phase d.resting,
              ap (total weight) d.no_high,
              ap (total weight) d.no_medium,
              ap (total weight) d.no_low,
            ),
      )
