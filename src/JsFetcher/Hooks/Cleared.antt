-- ===== src/JsFetcher/Hooks/Cleared.antt =====
-- The listeners that are left after the browser actions of a job.
use scrapemate.Prelude.{
  ℕ, suc, ◌==◌, Bool, true, false, ◌||◌, List, [], ◌∷◌, ◌++◌, ◌≡◌, arith, Bool-cases, inl, inr,
}
use scrapemate.JsFetcher.Hooks.{
  Listeners, Hooked, new_page, remove_all, clear_network_hooks, HookCall, through_request,
  through_response, direct_request, direct_response, register, register_all, run_browser_actions,
  direct_requests, direct_responses,
}

-- Whether a listener is in a list.
abbrev pub elem : ℕ → List ℕ → Bool
elem x [] = false
elem x (y ∷ ys) = x == y || elem x ys

-- What is asked of RemoveListener: the listener that it is given is gone, and it adds none. It may take others
-- away too.
pub record Removes (remove_listener : ℕ → List ℕ → List ℕ) : Type 0 where
  pub gone : (i : ℕ) (xs : List ℕ) → elem i (remove_listener i xs) ≡ false
  pub no_other : (i x : ℕ) (xs : List ℕ) → elem x (remove_listener i xs) ≡ true → elem x xs ≡ true

elem-append : (x : ℕ) (xs ys : List ℕ) → elem x (xs ++ ys) ≡ (elem x xs || elem x ys)
elem-append x [] ys = ground arith
elem-append x (z ∷ xs) ys = ground (arith, elem-append x xs ys)

module _ (remove_listener : ℕ → List ℕ → List ℕ) (removes : Removes remove_listener) where
  -- What stays was there, and is none of those that were to go.
  elem-remove_all :
      (x : ℕ) (hs xs : List ℕ)
      → elem x (remove_all remove_listener hs xs) ≡ true
      → (elem x xs ≡ true) × (elem x hs ≡ false)
  unfolding remove_all
  elem-remove_all x [] xs h = ground arith
  elem-remove_all x (i ∷ hs) xs h =
      let (there, others) = elem-remove_all x hs (remove_listener i xs) h in
      let is_gone = removes.gone i xs in (removes.no_other i x xs there, ground arith)

-- One kind of listeners: each listener of a page that is not the wrapper's is one of `left`.
abbrev Left : ℕ → (left handlers listeners : List ℕ) → Type 0
Left x left hs ls = elem x ls ≡ true → elem x hs ≡ false → elem x left ≡ true

Left-through :
    (x n : ℕ) (left hs ls : List ℕ)
    → Left x left hs ls
    → Left x left (hs ++ (n ∷ [])) (ls ++ (n ∷ []))
Left-through x n left hs ls h on off =
    let a = elem-append x hs (n ∷ []) in
    let b = elem-append x ls (n ∷ []) in h (ground arith) (ground arith)

Left-direct :
    (x n : ℕ) (left hs ls : List ℕ)
    → Left x left hs ls
    → Left x (left ++ (n ∷ [])) hs (ls ++ (n ∷ []))
Left-direct x n left hs ls h on off =
    let a = elem-append x left (n ∷ []) in
    let b = elem-append x ls (n ∷ []) in
    elim (Bool-cases (elem x ls)) [
      | inl there ↦ let c = h there off in ground arith
      | inr new ↦ ground arith
    ]

register_all-requests :
    (x : ℕ) (cs : List HookCall) (h : Hooked) (left : List ℕ)
    → Left x left h.request_handlers h.page.request
    → Left x
        (left ++ direct_requests cs h.page.fresh)
        (register_all cs h).request_handlers
        (register_all cs h).page.request
unfolding register_all register
register_all-requests x [] h left k on off =
    let a = elem-append x left [] in let b = k on off in ground arith
register_all-requests x (through_request ∷ cs) h left k on off =
    register_all-requests x cs (register through_request h) left (Left-through x _ left _ _ k) on
      off
register_all-requests x (through_response ∷ cs) h left k on off =
    register_all-requests x cs (register through_response h) left k on off
register_all-requests x (direct_request ∷ cs) h left k on off =
    let rest =
      register_all-requests x cs (register direct_request h) (left ++ (h.page.fresh ∷ []))
        (Left-direct x _ left _ _ k) on off in
    let a = elem-append x (left ++ (h.page.fresh ∷ [])) (direct_requests cs (suc h.page.fresh)) in
    let b = elem-append x left (h.page.fresh ∷ []) in
    let c = elem-append x left (direct_requests (direct_request ∷ cs) h.page.fresh) in ground arith
register_all-requests x (direct_response ∷ cs) h left k on off =
    register_all-requests x cs (register direct_response h) left k on off

register_all-responses :
    (x : ℕ) (cs : List HookCall) (h : Hooked) (left : List ℕ)
    → Left x left h.response_handlers h.page.response
    → Left x
        (left ++ direct_responses cs h.page.fresh)
        (register_all cs h).response_handlers
        (register_all cs h).page.response
unfolding register_all register
register_all-responses x [] h left k on off =
    let a = elem-append x left [] in let b = k on off in ground arith
register_all-responses x (through_response ∷ cs) h left k on off =
    register_all-responses x cs (register through_response h) left (Left-through x _ left _ _ k) on
      off
register_all-responses x (through_request ∷ cs) h left k on off =
    register_all-responses x cs (register through_request h) left k on off
register_all-responses x (direct_response ∷ cs) h left k on off =
    let rest =
      register_all-responses x cs (register direct_response h) (left ++ (h.page.fresh ∷ []))
        (Left-direct x _ left _ _ k) on off in
    let a = elem-append x (left ++ (h.page.fresh ∷ [])) (direct_responses cs (suc h.page.fresh)) in
    let b = elem-append x left (h.page.fresh ∷ []) in
    let c = elem-append x left (direct_responses (direct_response ∷ cs) h.page.fresh) in
    ground arith
register_all-responses x (direct_request ∷ cs) h left k on off =
    register_all-responses x cs (register direct_request h) left k on off

-- A listener that a page has after the browser actions of a job is one that it had before, or one that
-- the actions registered on Playwright's page itself; none of those that they registered through the wrapper
-- stays, in whatever order they were made. RemoveListener takes away at least the listener that it is given,
-- and adds none.
pub run_browser_actions-cleared :
    (remove_listener : ℕ → List ℕ → List ℕ)
    → Removes remove_listener
    → (cs : List HookCall) (p : Listeners) (x : ℕ)
    → (elem x (run_browser_actions remove_listener cs p).request ≡ true
        → elem x (p.request ++ direct_requests cs p.fresh) ≡ true)
      × (elem x (run_browser_actions remove_listener cs p).response ≡ true
          → elem x (p.response ++ direct_responses cs p.fresh) ≡ true)
unfolding run_browser_actions clear_network_hooks
run_browser_actions-cleared remove_listener removes cs p x =
    let h = register_all cs (new_page p) in
    (
      λ on.
          let (there, not_own) =
            elem-remove_all remove_listener removes x h.request_handlers h.page.request on in
          register_all-requests x cs (new_page p) p.request (λ a b. a) there not_own,
      λ on.
          let (there, not_own) =
            elem-remove_all remove_listener removes x h.response_handlers h.page.response on in
          register_all-responses x cs (new_page p) p.response (λ a b. a) there not_own,
    )
