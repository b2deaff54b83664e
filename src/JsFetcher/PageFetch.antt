-- ===== src/JsFetcher/PageFetch.antt =====
-- fetchWithPageSlot of jshttp.go. Playwright's NewPage and the browser actions are foreign: the error of
-- NewPage on a slot, and the response of the actions on its page. Closing the page changes nothing here.
pub mod Served
use scrapemate.Prelude.{
  ℕ, zero, suc, ℤ, pos, negsuc, ◌+ℤ◌, ◌-ℤ◌, Bool, true, false, Option, none, some, List, [], ◌∷◌,
  ◌++◌, length, get_elem?, set, if◌then◌else◌, ◌≡◌, refl, ap, ◌∙◌, sym, arith, Option-cases, inl,
  inr,
}
use scrapemate.Errors.{Error}
use scrapemate.Response.{Response}
use scrapemate.PageSlots.{
  Slot, Lease, Pool, Branch, gone, sent, acquire, release, release_slot, give_back, add_active,
}
use scrapemate.JsFetcher.Fetch.{failed_response}

-- `lease.slot.browserUsage++`, under the slot's lock.
unfoldable pub add_usage : ℕ → List Slot → List Slot
add_usage i [] = []
add_usage zero (s ∷ ss) = record s { browser_usage = s.browser_usage +ℤ pos 1 } ∷ ss
add_usage (suc i) (s ∷ ss) = s ∷ add_usage i ss

module _ {V : Type 0} (new_page : ℕ → Option Error) (actions : ℕ → Response V) where
  -- After acquire, with the lease; the deferred release takes the branch `b`.
  unfoldable pub use_lease : Branch → ℕ → Lease → Pool → Response V × Pool
  use_lease b k lease p = elim (new_page lease.slot) [
    | some e ↦ (failed_response e, release b k p)
    | none ↦ (actions lease.slot, release b k (record p { slots = add_usage lease.slot p.slots }))
  ]

  -- `ctx_err` is what acquire reports if the context ends before a slot comes.
  unfoldable pub fetch_with_page_slot : Branch → Error → Pool → Response V × Pool
  fetch_with_page_slot b ctx_err p = elim (acquire p) [
    | none ↦ (failed_response ctx_err, p)
    | some (lease, q) ↦ use_lease b (length p.leases) lease q
  ]
