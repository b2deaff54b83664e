-- ===== src/JsFetcher/PageFetch/Served.antt =====
-- What a call of fetchWithPageSlot leaves of the pool.
use scrapemate.Prelude.{
  ℕ, zero, suc, ℤ, pos, negsuc, ◌+ℤ◌, ◌-ℤ◌, true, false, Option, none, some, List, [], ◌∷◌, ◌++◌,
  length, get_elem?, set, ◌≡◌, ◌≢◌, refl, ap, ◌∙◌, arith, Option-cases, inl, inr,
}
use scrapemate.Errors.{Error}
use scrapemate.Response.{Response}
use scrapemate.PageSlots.{
  Slot, Lease, Pool, sent, acquire, release, release_slot, give_back, add_active,
}
use scrapemate.JsFetcher.Fetch.{failed_response}
use scrapemate.JsFetcher.PageFetch.{add_usage, use_lease, fetch_with_page_slot}

set-length : (xs : List Lease) (a b : Lease) → set (xs ++ (a ∷ [])) (length xs) b ≡ xs ++ (b ∷ [])
set-length [] a b = refl
set-length (x ∷ xs) a b = ap (λ ys. x ∷ ys) (set-length xs a b)

get_elem?-length : (xs : List Lease) (a : Lease) → get_elem? (xs ++ (a ∷ [])) (length xs) ≡ some a
get_elem?-length [] a = refl
get_elem?-length (x ∷ xs) a = get_elem?-length xs a

add_sub : (n : ℤ) → n +ℤ pos 1 +ℤ (pos 0 -ℤ pos 1) ≡ n
unfolding ◌+ℤ◌ ◌-ℤ◌
add_sub (pos n) = ground arith
add_sub (negsuc n) = ground arith

add_active-add_active :
    (i : ℕ) (slots : List Slot) → add_active (pos 0 -ℤ pos 1) i (add_active (pos 1) i slots) ≡ slots
unfolding add_active
add_active-add_active i [] = refl
add_active-add_active zero (s ∷ ss) = ap (λ n. record s { active = n } ∷ ss) (add_sub s.active)
add_active-add_active (suc i) (s ∷ ss) = ap (λ ts. s ∷ ts) (add_active-add_active i ss)

add_active-add_usage :
    (i : ℕ) (slots : List Slot)
    → add_active (pos 0 -ℤ pos 1) i (add_usage i (add_active (pos 1) i slots)) ≡ add_usage i slots
unfolding add_active add_usage
add_active-add_usage i [] = refl
add_active-add_usage zero (s ∷ ss) =
    ap (λ n. record s { active = n; browser_usage = s.browser_usage +ℤ pos 1 } ∷ ss)
      (add_sub s.active)
add_active-add_usage (suc i) (s ∷ ss) = ap (λ ts. s ∷ ts) (add_active-add_usage i ss)

get_elem?-add_usage :
    (i : ℕ) (slots : List Slot) (s : Slot)
    → get_elem? slots i ≡ some s
    → get_elem? (add_usage i slots) i ≡ some (record s { browser_usage = s.browser_usage +ℤ pos 1 })
unfolding add_usage
get_elem?-add_usage i [] s h = absurd (ground arith)
get_elem?-add_usage zero (x ∷ ss) s h = ground arith
get_elem?-add_usage (suc i) (x ∷ ss) s h = get_elem?-add_usage i ss s h

get_elem?-add_usage_other :
    (i k : ℕ) (slots : List Slot) → k ≢ i → get_elem? (add_usage i slots) k ≡ get_elem? slots k
unfolding add_usage
get_elem?-add_usage_other i k [] h = refl
get_elem?-add_usage_other zero zero (x ∷ ss) h = absurd (h refl)
get_elem?-add_usage_other zero (suc k) (x ∷ ss) h = refl
get_elem?-add_usage_other (suc i) zero (x ∷ ss) h = refl
get_elem?-add_usage_other (suc i) (suc k) (x ∷ ss) h =
    get_elem?-add_usage_other i k ss (λ e. h (ap suc e))

-- Slot `i`, which was `s`, counts one use more; no other slot has changed.
pub record IsUsed (i : ℕ) (s : Slot) (before after : List Slot) : Type 0 where
  pub used : get_elem? after i ≡ some (record s { browser_usage = s.browser_usage +ℤ pos 1 })
  pub others : (k : ℕ) → k ≢ i → get_elem? after k ≡ get_elem? before k

-- The pool after a call on slot `i`: the slot waits last, its usage is `slots`', and the lease is over.
abbrev pub served : ℕ → List ℕ → List Slot → Pool → Pool
served i rest slots p = record p {
  available = rest ++ (i ∷ []);
  slots = slots;
  leases = p.leases ++ (record { slot = i; released = true } ∷ []);
}

-- A release on a context that is alive.
release-served :
    (i : ℕ) (rest : List ℕ) (before slots : List Slot) (s : Slot) (p : Pool)
    → add_active (pos 0 -ℤ pos 1) i before ≡ slots
    → get_elem? slots i ≡ some s
    → s.closed ≡ false
    → release sent (length p.leases) (record p {
      available = rest;
      slots = before;
      leases = p.leases ++ (record { slot = i; released = false } ∷ []);
    })
      ≡ served i rest slots p
unfolding release release_slot give_back
release-served i rest before slots s p counted there live =
    let held : Lease = record { slot = i; released = false } in
    let over : Lease = record { slot = i; released = true } in
    taken
    ∙ ap (λ ls. release_slot sent i (with_leases ls)) (set-length p.leases held over)
    ∙ returned (p.leases ++ (over ∷ []))
  where
    with_leases : List Lease → Pool
    with_leases ls = record p { available = rest; slots = before; leases = ls }

    taken :
        release sent
          (length p.leases)
          (with_leases (p.leases ++ (record { slot = i; released = false } ∷ [])))
        ≡ release_slot sent i (
            with_leases (
              set
                (p.leases ++ (record { slot = i; released = false } ∷ []))
                (length p.leases)
                (record { slot = i; released = true })))
    taken = rw (release, get_elem?-length p.leases (record { slot = i; released = false })) refl

    returned :
        (ls : List Lease)
        → release_slot sent i (with_leases ls)
          ≡ record p { available = rest ++ (i ∷ []); slots = slots; leases = ls }
    returned ls =
        ap (λ ts. give_back sent i (record p { available = rest; slots = ts; leases = ls })) counted
        ∙ rw (give_back, there, live) refl

module _ {V : Type 0} (new_page : ℕ → Option Error) (actions : ℕ → Response V) where
  -- What fetchWithPageSlot promises of a pool whose next slot is `i`, in the state `s`.
  pub data IsServed (i : ℕ) (s : Slot) (rest : List ℕ) (p : Pool) : Response V × Pool → Type 0 where
    no_page :
        (e : Error)
        → new_page i ≡ some e
        → IsServed i s rest p (failed_response e, served i rest p.slots p)
    ran :
        (slots : List Slot)
        → new_page i ≡ none
        → IsUsed i s p.slots slots
        → IsServed i s rest p (actions i, served i rest slots p)

  -- As long as the context is not done and the pool is not closed, a call of Fetch on a page slot gives
  -- the slot back, as the last one that waits, and no slot has more or fewer calls on it than before.
  -- If the slot has no page for it, the response is that error and nothing else changes; otherwise
  -- it is the one of the job's browser actions, and the slot counts one use more, and no other slot does.
  pub fetch_with_page_slot-IsServed :
      (i : ℕ) (rest : List ℕ) (p : Pool) (s : Slot) (e : Error)
      → p.available ≡ i ∷ rest
      → get_elem? p.slots i ≡ some s
      → s.closed ≡ false
      → IsServed i s rest p (fetch_with_page_slot new_page actions sent e p)
  unfolding fetch_with_page_slot use_lease acquire
  fetch_with_page_slot-IsServed i rest p s e waits there live =
      let lease : Lease = record { slot = i; released = false } in
      let q = record p {
        available = rest;
        slots = add_active (pos 1) i p.slots;
        leases = p.leases ++ (lease ∷ []);
      } in
      let got : acquire p ≡ some (lease, q) = rw (acquire, waits) refl in
      rw (fetch_with_page_slot, got)
        (elim (Option-cases (new_page i)) [
          | inr (x, h) ↦
              rw
                (
                  use_lease,
                  h,
                  release-served i rest (add_active (pos 1) i p.slots) p.slots s p
                      (add_active-add_active i p.slots) there live,
                )
                (no_page x h)
          | inl h ↦
              rw
                (
                  use_lease,
                  h,
                  release-served i rest (add_usage i (add_active (pos 1) i p.slots))
                      (add_usage i p.slots) (record s { browser_usage = s.browser_usage +ℤ pos 1 })
                      p (add_active-add_usage i p.slots) (get_elem?-add_usage i p.slots s there)
                      live,
                )
                (ran (add_usage i p.slots) h (record {
                  used = get_elem?-add_usage i p.slots s there;
                  others = λ k. get_elem?-add_usage_other i k p.slots;
                }))
        ])
