-- ===== src/SessionSlot.antt =====
-- adapters/fetchers/jshttp/session_slot.go. A slot drives a runtime (`slotRuntime`), which the
-- factory makes; `playwrightRuntime` is the one implementation, over Playwright, a parameter.
-- A page is `none` where Go returns a nil `page`.
pub mod Pages
use scrapemate.Prelude.{
  ℕ, zero, suc, Bool, true, false, not, ◌&&◌, Option, none, some, List, [], ◌∷◌, if◌then◌else◌,
  is_none,
}
use scrapemate.Errors.{Error, Result, ok, err}

-- The interface slotRuntime over a state `S` and pages `P`; an error is `some`.
pub record SlotRuntime (S P : Type 0) : Type 0 where
  pub close_extra_pages : S → Option Error × S
  pub close_browser : S → Option Error × S
  pub primary_page : S → Option P × Option Error × S
  pub recreate_page : S → Option Error × S
  pub recreate_context : S → Option Error × S
  pub recreate_browser : S → Option Error × S
  pub recycle_if_needed : S → Option Error × S
  pub is_closed : P → S → Bool

-- runtimeFactory.create
abbrev pub Factory : Type 0 → Type 0
Factory S = Option Error × Option S

-- newSessionSlot: the field `runtime` of a new slot is nil.
abbrev pub new_session_slot : {S : Type 0} → Option S
new_session_slot = none

-- The result of a call that returns a page and an error.
pub record Acquired (P : Type 0) : Type 0 where
  pub page : Option P
  pub err : Option Error

module _ {S P : Type 0} (rt : SlotRuntime S P) where
  -- ensureReady on the field `runtime`, with the factory's answer.
  unfoldable pub ensure_ready : Factory S → Option S → Option Error × Option S
  ensure_ready made (some s) = (none, some s)
  ensure_ready (some e, made) none = (some e, none)
  ensure_ready (none, made) none = (none, made)

  unfoldable pub cleanup : Option S → Option Error × Option S
  cleanup none = (none, none)
  cleanup (some s) = let (e, s') = rt.close_extra_pages s in (e, some s')

  unfoldable pub close : Option S → Option Error × Option S
  close none = (none, none)
  close (some s) = let (e, s') = rt.close_browser s in (e, some s')

  -- `return s.runtime.primaryPage()`
  unfoldable pub last_page : S → Acquired P × S
  last_page s = let (p, e, s') = rt.primary_page s in (record { page = p; err = e }, s')

  -- The page is recreated; failing that the context; failing that the browser.
  unfoldable pub recreate : S → Acquired P × S
  recreate s =
      let (e₁, s₁) = rt.recreate_page s in
      let (e₂, s₂) = rt.recreate_context s₁ in
      let (e₃, s₃) = rt.recreate_browser s₂ in
      if is_none e₁
      then last_page s₁
      else if is_none e₂
      then last_page s₂
      else (record { page = none; err = e₃ }, s₃)

  -- `err == nil && !p.isClosed()`; a nil page is not asked.
  unfoldable pub is_usable : Option P → Option Error → S → Bool
  is_usable none e s = false
  is_usable (some p) e s = is_none e && not (rt.is_closed p s)

  -- acquirePage, from `primaryPage` on.
  unfoldable pub acquire_ready : S → Acquired P × S
  acquire_ready s =
      let (p, e, s') = rt.primary_page s in
      if is_usable p e s' then (record { page = p; err = none }, s') else recreate s'

  unfoldable pub acquire_page : Factory S → Option S → Acquired P × Option S
  acquire_page made runtime =
      let (e, ready) = ensure_ready made runtime in
      elim ready [
        | none ↦ (record { page = none; err = e }, none)
        | some s ↦ let (a, s') = acquire_ready s in (a, some s')
      ]

  -- release, of a slot that is ready.
  unfoldable pub release : S → Option Error × S
  release s =
      let (e, s₁) = rt.close_extra_pages s in
      let (e', s₂) = rt.recycle_if_needed s₁ in if is_none e then (e', s₂) else (e, s₁)

-- What the runtime calls of Playwright, over the world `W`: `B` are its browsers, `C` their contexts, `P` the pages of
-- these. Errors of Close are ignored. `make` is newBrowser (see JsFetcher.Browser).
pub record Playwright (W B C P : Type 0) : Type 0 where
  pub pages : C → W → List P
  pub new_page : C → W → Result P × W
  pub close_page : P → W → W
  pub page_is_closed : P → W → Bool
  pub new_context : B → W → Result C × W
  pub close_context : C → W → W
  pub close_browser : B → W → W
  pub make : W → Result (B × C) × W

-- The `browser` of playwrightRuntime, with the world.
pub record Browser (W B C : Type 0) : Type 0 where
  pub browser : B
  pub ctx : C
  pub page0_usage : ℕ
  pub world : W

module _ {W B C P : Type 0} (pw : Playwright W B C P) where
  -- create of playwrightRuntimeFactory.
  unfoldable pub playwright_create : W → Factory (Browser W B C) × W
  playwright_create w =
      let (r, w') = pw.make w in
      elim r [
        | err e ↦ ((some e, none), w')
        | ok (b, c) ↦
            ((none, some (record { browser = b; ctx = c; page0_usage = 0; world = w' })), w')
      ]

  -- The loops over pages.
  unfoldable pub close_pages : List P → W → W
  close_pages [] w = w
  close_pages (p ∷ ps) w = close_pages ps (pw.close_page p w)

  unfoldable pub playwright_close_extra_pages : Browser W B C → Option Error × Browser W B C
  playwright_close_extra_pages b = elim (pw.pages b.ctx b.world) [
    | [] ↦ (none, b)
    | p ∷ rest ↦ (none, record b { world = close_pages rest b.world })
  ]

  -- Close of `browser`: the context, then the browser.
  unfoldable pub closed_browser : Browser W B C → W
  closed_browser b = pw.close_browser b.browser (pw.close_context b.ctx b.world)

  unfoldable pub playwright_close_browser : Browser W B C → Option Error × Browser W B C
  playwright_close_browser b = (none, record b { world = closed_browser b })

  unfoldable pub playwright_primary_page : Browser W B C → Option P × Option Error × Browser W B C
  playwright_primary_page b = elim (pw.pages b.ctx b.world) [
    | [] ↦
        let (r, w) = pw.new_page b.ctx b.world in
        elim r [
          | err e ↦ (none, some e, record b { world = w })
          | ok p ↦ (some p, none, record b { world = w })
        ]
    | p ∷ rest ↦ (some p, none, b)
  ]

  unfoldable pub playwright_recreate_page : Browser W B C → Option Error × Browser W B C
  playwright_recreate_page b =
      let (r, w) = pw.new_page b.ctx (close_pages (pw.pages b.ctx b.world) b.world) in
      elim r [
        | err e ↦ (some e, record b { world = w })
        | ok p ↦ (none, record b { world = w; page0_usage = 0 })
      ]

  unfoldable pub playwright_recreate_context : Browser W B C → Option Error × Browser W B C
  playwright_recreate_context b =
      let (r, w) = pw.new_context b.browser (pw.close_context b.ctx b.world) in
      elim r [
        | err e ↦ (some e, record b { world = w })
        | ok c ↦ (none, record b { world = w; ctx = c; page0_usage = 0 })
      ]

  unfoldable pub playwright_recreate_browser : Browser W B C → Option Error × Browser W B C
  playwright_recreate_browser b =
      let (r, w) = pw.make (closed_browser b) in
      elim r [
        | err e ↦ (some e, record b { world = w })
        | ok (b', c) ↦ (none, record { browser = b'; ctx = c; page0_usage = 0; world = w })
      ]

  unfoldable pub playwright_recycle_if_needed : Browser W B C → Option Error × Browser W B C
  playwright_recycle_if_needed b = (none, b)

  -- playwrightPage.isClosed, which negates the page's own IsClosed.
  unfoldable pub playwright_is_closed : P → Browser W B C → Bool
  playwright_is_closed p b = not (pw.page_is_closed p b.world)

  abbrev pub playwright_runtime : SlotRuntime (Browser W B C) P
  playwright_runtime = record {
    close_extra_pages = playwright_close_extra_pages;
    close_browser = playwright_close_browser;
    primary_page = playwright_primary_page;
    recreate_page = playwright_recreate_page;
    recreate_context = playwright_recreate_context;
    recreate_browser = playwright_recreate_browser;
    recycle_if_needed = playwright_recycle_if_needed;
    is_closed = playwright_is_closed;
  }
