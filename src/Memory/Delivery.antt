-- ===== src/Memory/Delivery.antt =====
-- No job is lost or doubled on its way from Push to the reader of Jobs.
use scrapemate.Prelude.{
  ℕ, ◌+◌, ◌≤◌, ◌≡◌, ap, ◌∙◌, ℤ, true, Option, none, some, List, [], ◌∷◌, ◌++◌, arith,
}
use scrapemate.Errors.{Error}
use scrapemate.Memory.{
  Channel, p0, p1, p2, channel_of, Phase, sending, Provider, new, waiting, with_waiting, listens,
  otherwise, Step, push, cancel, give_up, receive, fall_through, stop_first, stop_third,
  done_second, deliver, Steps, done, more,
}

module _ {J : Type 0} (weight : J → ℕ) where
  abbrev pub total : List J → ℕ
  total [] = 0
  total (j ∷ js) = weight j + total js

  abbrev pub weigh : Option J → ℕ
  weigh none = 0
  weigh (some j) = weight j

  abbrev pub total_out : List (Option J) → ℕ
  total_out [] = 0
  total_out (o ∷ os) = weigh o + total_out os

  abbrev pub in_hand : Phase J → ℕ
  in_hand (sending o) = weigh o
  in_hand _ = 0

  -- What waits in the channels, is in the hand of the goroutine, or was received.
  abbrev pub value : Provider J → ℕ
  value s = total s.high + total s.medium + total s.low + in_hand s.phase + total_out s.out

  total-append : (xs ys : List J) → total (xs ++ ys) ≡ total xs + total ys
  total-append [] ys = omega arith
  total-append (x ∷ xs) ys = omega (arith, total-append xs ys)

  module _ (get_priority : J → ℤ) where
    -- What a step to `t` adds to the value: at most what it pushes, and that until the context is done.
    record Adds (n : ℕ) (s t : Provider J) : Type 0 where
      at_most : value t ≤ value s + n
      exactly : t.canceled ≡ none → value t ≡ value s + n
      live : t.canceled ≡ none → s.canceled ≡ none

    put-Adds :
        (c : Channel) (s : Provider J) (job : J)
        → Adds (total (job ∷ [])) s (with_waiting c (waiting c s ++ (job ∷ [])) s)
    put-Adds p0 s job =
        let e = total-append s.high (job ∷ []) in
        record { at_most = omega (arith, e); exactly = λ h. omega (arith, e); live = λ h. h }
    put-Adds p1 s job =
        let e = total-append s.medium (job ∷ []) in
        record { at_most = omega (arith, e); exactly = λ h. omega (arith, e); live = λ h. h }
    put-Adds p2 s job =
        let e = total-append s.low (job ∷ []) in
        record { at_most = omega (arith, e); exactly = λ h. omega (arith, e); live = λ h. h }

    leave-Adds :
        (c : Channel) (s : Provider J) (e : Error) (before rest : List J) (job : J)
        → s.canceled ≡ some e
        → waiting c s ≡ before ++ (job ∷ rest)
        → Adds 0 s (with_waiting c (before ++ rest) s)
    leave-Adds p0 s e before rest job h k =
        let old = ap total k ∙ total-append before (job ∷ rest) in
        let now = total-append before rest in
        record { at_most = omega (arith, old, now); exactly = λ q. ground arith; live = λ q. q }
    leave-Adds p1 s e before rest job h k =
        let old = ap total k ∙ total-append before (job ∷ rest) in
        let now = total-append before rest in
        record { at_most = omega (arith, old, now); exactly = λ q. ground arith; live = λ q. q }
    leave-Adds p2 s e before rest job h k =
        let old = ap total k ∙ total-append before (job ∷ rest) in
        let now = total-append before rest in
        record { at_most = omega (arith, old, now); exactly = λ q. ground arith; live = λ q. q }

    take-Adds :
        (c : Channel) (s : Provider J) (job : J) (rest : List J)
        → in_hand s.phase ≡ 0
        → waiting c s ≡ job ∷ rest
        → Adds 0 s (record (with_waiting c rest s) { phase = sending (some job) })
    take-Adds p0 s job rest h k =
        let e = ap total k in
        record { at_most = omega (arith, e, h); exactly = λ q. omega (arith, e, h); live = λ q. q }
    take-Adds p1 s job rest h k =
        let e = ap total k in
        record { at_most = omega (arith, e, h); exactly = λ q. omega (arith, e, h); live = λ q. q }
    take-Adds p2 s job rest h k =
        let e = ap total k in
        record { at_most = omega (arith, e, h); exactly = λ q. omega (arith, e, h); live = λ q. q }

    listens-empty_hand : (p : Phase J) (c : Channel) → listens p c ≡ true → in_hand p ≡ 0
    listens-empty_hand p c h = ground arith

    otherwise-empty_hand :
        (p next : Phase J) → otherwise p ≡ some next → (in_hand p ≡ 0) × (in_hand next ≡ 0)
    otherwise-empty_hand p next h = ground arith

    Step-Adds : {js : List J} {s t : Provider J} → Step get_priority js s t → Adds (total js) s t
    Step-Adds (push s job) = put-Adds (channel_of (get_priority job)) s job
    Step-Adds (cancel s e h) = record {
      at_most = omega arith;
      exactly = λ q. ground arith;
      live = λ q. h;
    }
    Step-Adds (give_up s e c before rest job h k) = leave-Adds c s e before rest job h k
    Step-Adds (receive s c job rest h k) = take-Adds c s job rest (listens-empty_hand s.phase c h) k
    Step-Adds (fall_through s next (h, k) o) =
        let (old, now) = otherwise-empty_hand s.phase next o in
        record {
          at_most = omega (arith, old, now);
          exactly = λ q. omega (arith, old, now);
          live = λ q. q;
        }
    Step-Adds (stop_first s e h k) =
        let old = ap in_hand h in
        record { at_most = omega (arith, old); exactly = λ q. omega (arith, old); live = λ q. q }
    Step-Adds (stop_third s e h k) =
        let old = ap in_hand h in
        record { at_most = omega (arith, old); exactly = λ q. omega (arith, old); live = λ q. q }
    Step-Adds (done_second s e h k) =
        let old = ap in_hand h in
        record { at_most = omega (arith, old); exactly = λ q. omega (arith, old); live = λ q. q }
    Step-Adds (deliver s job h) =
        let old = ap in_hand h in
        record { at_most = omega (arith, old); exactly = λ q. omega (arith, old); live = λ q. q }

    Steps-Adds : {js : List J} {s t : Provider J} → Steps get_priority js s t → Adds (total js) s t
    Steps-Adds (done s) = record {
      at_most = omega arith;
      exactly = λ q. omega arith;
      live = λ q. q;
    }
    Steps-Adds (more {js} {ks} {s} {t} {u} p q) =
        let ih = Steps-Adds p in
        let one = Step-Adds q in
        let e = total-append ks js in
        record {
          at_most = omega (arith, e, ih.at_most, one.at_most);
          exactly = λ h. omega (arith, e, ih.exactly (one.live h), one.exactly h);
          live = λ h. ih.live (one.live h);
        }

    -- Whatever weight each job has, and so for each single job: what waits in the provider, is in
    -- the hand of its goroutine or was received from it weighs at most what was pushed since it was
    -- new, and exactly that as long as the context is not done. So no job is made up or doubled, and
    -- none is lost before the context is done.
    pub Steps-conserve :
        (js : List J) (t : Provider J)
        → Steps get_priority js new t
        → (value t ≤ total js) × (t.canceled ≡ none → value t ≡ total js)
    Steps-conserve js t p =
        let a = Steps-Adds p in (omega (arith, a.at_most), λ h. omega (arith, a.exactly h))
