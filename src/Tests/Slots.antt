-- ===== src/Tests/Slots.antt =====
-- The theorems about the pools of pages, sessions, proxies and jobs at small pools.
use scrapemate.Prelude.{
  ℕ, suc, ◌++◌, ◌*◌, ◌≤◌, ◌<◌, ◌≡◌, refl, ℤ, pos, false, Option, none, some, List, [], ◌∷◌, arith,
}
use scrapemate.Errors.{Error, ok}
use scrapemate.PageSlots.{
  Pool, new_page_slot_pool, gone, sent, release, Call, acquires, closes, releases, run,
}
use scrapemate.PageSlots.Invariant.{tokens, run-room, release-gone_lost}
use scrapemate.PageSlots.Active.{Counted, run-active}
use scrapemate.SessionSlot.{Playwright, Browser}
use scrapemate.Memory.{
  Provider, new, waiting, channel_of, push, receive, deliver, Steps, done, more, sending, p0, p1,
  second,
}
use scrapemate.Memory.Delivery.{value, Steps-conserve}
use scrapemate.Memory.Order.{Scan, here, next_select, Scan-highest}

abbrev no_error : ℕ → Option Error
no_error i = none

abbrev calls : List Call
calls = acquires ∷ acquires ∷ releases sent 0 ∷ releases sent 0 ∷ closes ∷ releases sent 1 ∷ []

abbrev one_page : Pool
one_page = (new_page_slot_pool 1 1 no_error).0

abbrev in_use : Pool
in_use = run one_page (acquires ∷ [])

run-room_example :
    (tokens (run (new_page_slot_pool 2 3 no_error).0 calls) ≤ 2 * 3)
    × ((run (new_page_slot_pool 2 3 no_error).0 calls).capacity ≡ 2 * 3)
run-room_example = run-room 2 3 no_error calls

release-gone_lost_example : tokens (run (release gone 0 in_use) calls) < tokens in_use
unfolding new_page_slot_pool run
release-gone_lost_example =
    release-gone_lost 0 in_use (record { slot = 0; released = false }) calls refl refl

run-active_example : Counted 1 (run (new_page_slot_pool 2 3 no_error).0 calls)
run-active_example = run-active 1 2 3 no_error calls

abbrev tail : List ℕ → List ℕ
tail [] = []
tail (x ∷ xs) = xs

-- A world of pages that are known by numbers: those of the one context, the number of the next one, and those that are
-- closed leave it.
record Tabs : Type 0 where
  tabs : List ℕ
  fresh : ℕ

abbrev playwright : Playwright Tabs ℕ ℕ ℕ
playwright = record {
  pages = λ c w. w.tabs;
  new_page = λ c w. (ok w.fresh, record { tabs = w.tabs ++ (w.fresh ∷ []); fresh = suc w.fresh });
  close_page = λ p w. record w { tabs = tail w.tabs };
  page_is_closed = λ p w. false;
  new_context = λ b w. (ok 0, w);
  close_context = λ c w. record w { tabs = [] };
  close_browser = λ b w. w;
  make = λ w. (ok (0, 0), w);
}

abbrev two_open : Browser Tabs ℕ ℕ
two_open = record {
  browser = 0;
  ctx = 0;
  page0_usage = 4;
  world = record { tabs = 0 ∷ 1 ∷ []; fresh = 2 };
}

-- The priority of a job is the job itself.
abbrev priority : ℕ → ℤ
priority n = pos n

abbrev one_out : Provider ℕ
one_out = record (new {J = ℕ}) { out = some 0 ∷ [] }

-- A job of high priority is pushed, received and delivered.
one_delivered : Steps priority (0 ∷ []) new one_out
unfolding channel_of
one_delivered =
    let s₀ : Provider ℕ = new in
    let s₁ : Provider ℕ = record s₀ { high = 0 ∷ [] } in
    let s₂ : Provider ℕ = record s₀ { phase = sending (some 0) } in
    more (more (more (done s₀) (push s₀ 0)) (receive s₁ p0 0 [] refl refl))
      (deliver s₂ (some 0) refl)

Steps-conserve_example : (value suc one_out ≤ 1) × (one_out.canceled ≡ none → value suc one_out ≡ 1)
Steps-conserve_example = Steps-conserve suc priority (0 ∷ []) one_out one_delivered

abbrev one_medium : Provider ℕ
one_medium = record (new {J = ℕ}) { medium = 1 ∷ [] }

at_second : Scan one_medium (record one_medium { phase = second })
at_second = next_select second here (refl, λ c h. ground arith) refl

Scan-highest_example : waiting p0 (record one_medium { phase = second }) ≡ []
Scan-highest_example =
    Scan-highest one_medium (record one_medium { phase = second }) p1 p0 refl at_second refl
      (omega arith)
