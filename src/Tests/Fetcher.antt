-- ===== src/Tests/Fetcher.antt =====
-- The theorems about the JavaScript fetcher and the provider at small inputs.
use scrapemate.Prelude.{
  ℕ, suc, true, false, ◌==◌, if◌then◌else◌, ◌≡◌, refl, arith, ℤ, pos, none, some, List, [], ◌∷◌,
}
use scrapemate.Response.{Response, zero_response}
use scrapemate.SessionSlot.{SlotRuntime, acquire_page}
use scrapemate.JsFetcher.Hooks.{
  Listeners, HookCall, through_request, through_response, direct_request, run_browser_actions,
}
use scrapemate.JsFetcher.Hooks.Cleared.{elem, Removes, run_browser_actions-cleared}
use scrapemate.JsFetcher.Fetch.{Ran, fetch_slot, fetch_slot-Ran}
use scrapemate.JsFetcher.Slots.{Slots, Steps}
use scrapemate.Memory.{Provider, new, channel_of, push, Steps as MemorySteps, done, more}
use scrapemate.Memory.Delivery.{total, total_out}
use scrapemate.Memory.Progress.Drains.{Drained}
use scrapemate.Memory.Progress.{Steps-Drained}

abbrev listeners : Listeners
listeners = record { request = 0 ∷ []; response = 1 ∷ []; fresh = 2 }

abbrev hook_calls : List HookCall
hook_calls = through_request ∷ direct_request ∷ through_response ∷ []

-- A RemoveListener that takes away every registration of the listener.
unfoldable remove : ℕ → List ℕ → List ℕ
remove i [] = []
remove i (j ∷ js) = let rest = remove i js in if i == j then rest else j ∷ rest

removes : Removes remove
unfolding remove
removes = record { gone = remove-gone; no_other = remove-no_other }
  where
    remove-gone : (i : ℕ) (xs : List ℕ) → elem i (remove i xs) ≡ false
    remove-gone i [] = refl
    remove-gone i (j ∷ js) = ground (arith, remove-gone i js)

    remove-no_other : (i x : ℕ) (xs : List ℕ) → elem x (remove i xs) ≡ true → elem x xs ≡ true
    remove-no_other i x [] h = h
    remove-no_other i x (j ∷ js) h = let rest = remove-no_other i x js in ground arith

run_browser_actions-cleared_example :
    (elem 2 (run_browser_actions remove hook_calls listeners).request ≡ true
      → elem 2 (0 ∷ 3 ∷ []) ≡ true)
    × (elem 2 (run_browser_actions remove hook_calls listeners).response ≡ true
        → elem 2 (1 ∷ []) ≡ true)
run_browser_actions-cleared_example =
    run_browser_actions-cleared remove removes hook_calls listeners 2

-- The browser is a number that counts the calls; every page is page 5.
abbrev runtime : SlotRuntime ℕ ℕ
runtime = record {
  close_extra_pages = λ s. (none, s);
  close_browser = λ s. (none, s);
  primary_page = λ s. (some 5, none, suc s);
  recreate_page = λ s. (none, suc s);
  recreate_context = λ s. (none, suc s);
  recreate_browser = λ s. (none, suc s);
  recycle_if_needed = λ s. (none, suc s);
  is_closed = λ p s. false;
}

abbrev actions : ℕ → ℕ → Response ℕ × ℕ
actions p s = (record zero_response { status_code = pos 200 }, suc s)

fetch_slot-Ran_example :
    Ran runtime actions
      (acquire_page runtime (none, none) (some 1)).0
      (acquire_page runtime (none, none) (some 1)).1
      (fetch_slot runtime actions (none, none) (some 1)).0
      (fetch_slot runtime actions (none, none) (some 1)).1
unfolding fetch_slot scrapemate.JsFetcher.Fetch.fetch_acquired scrapemate.JsFetcher.Fetch.fetch_page
    scrapemate.SessionSlot.acquire_page scrapemate.SessionSlot.ensure_ready
    scrapemate.SessionSlot.acquire_ready scrapemate.SessionSlot.is_usable
    scrapemate.SessionSlot.release
fetch_slot-Ran_example = fetch_slot-Ran runtime actions (none, none) (some 1) refl

abbrev priority : ℕ → ℤ
priority n = pos n

abbrev one_waits : Provider ℕ
one_waits = record (new {J = ℕ}) { low = 2 ∷ [] }

one_pushed : MemorySteps priority (2 ∷ []) new one_waits
unfolding channel_of
one_pushed = more (done new) (push new 2)

Steps-Drained_example :
    (t : Provider ℕ) × Drained priority one_waits t
    × ((weight : ℕ → ℕ) → total_out weight t.out ≡ total weight (2 ∷ []))
Steps-Drained_example = Steps-Drained priority (2 ∷ []) one_waits one_pushed refl
