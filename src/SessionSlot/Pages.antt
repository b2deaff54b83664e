-- ===== src/SessionSlot/Pages.antt =====
-- The pages that acquirePage hands out.
use scrapemate.Prelude.{
  ◌≡◌, refl, ap, true, false, not, Option, none, some, List, [], ◌∷◌, ◌++◌, arith,
}
use scrapemate.Errors.{Error, ok}
use scrapemate.SessionSlot.{
  SlotRuntime, Acquired, Playwright, Browser, ensure_ready, recreate, is_usable, acquire_ready,
  acquire_page, playwright_runtime, playwright_primary_page, playwright_is_closed,
}

module _ {S P : Type 0} (rt : SlotRuntime S P) where
  -- Whatever the runtime does: if neither the page nor the context can be recreated but the
  -- browser can, acquirePage returns a nil page with a nil error.
  acquire_ready-nil :
      (s s₁ s₂ s₃ s₄ : S) (p : Option P) (e e₁ e₂ : Error)
      → rt.primary_page s ≡ (p, some e, s₁)
      → rt.recreate_page s₁ ≡ (some e₁, s₂)
      → rt.recreate_context s₂ ≡ (some e₂, s₃)
      → rt.recreate_browser s₃ ≡ (none, s₄)
      → acquire_ready rt s ≡ (record { page = none; err = none }, s₄)
  unfolding acquire_ready is_usable recreate
  acquire_ready-nil s s₁ s₂ s₃ s₄ p e e₁ e₂ h₀ h₁ h₂ h₃ = ground arith

  acquire_ready-open :
      (s : S) (p : P)
      → rt.primary_page s ≡ (some p, none, s)
      → rt.is_closed p s ≡ false
      → acquire_ready rt s ≡ (record { page = some p; err = none }, s)
  unfolding acquire_ready is_usable
  acquire_ready-open s p h₀ h₁ = ground arith

module _ {W B C P : Type 0} (pw : Playwright W B C P) where
  -- What Playwright says of the pages of a context: one that is closed leaves the list, and a new one comes last.
  pub record ListsPages (c : C) : Type 0 where
    pub leaves :
        (p : P) (rest : List P) (w : W)
        → pw.pages c w ≡ p ∷ rest
        → pw.pages c (pw.close_page p w) ≡ rest
    pub comes :
        (p : P) (w w' : W) → pw.new_page c w ≡ (ok p, w') → pw.pages c w' ≡ pw.pages c w ++ (p ∷ [])

  -- A page that is closed is handed out as it is, and without an error.
  acquire_page-closed :
      (b : Browser W B C) (p : P) (rest : List P)
      → pw.pages b.ctx b.world ≡ p ∷ rest
      → pw.page_is_closed p b.world ≡ true
      → acquire_page (playwright_runtime pw) (none, none) (some b)
        ≡ (record { page = some p; err = none }, some b)
  unfolding acquire_page ensure_ready playwright_primary_page playwright_is_closed
  acquire_page-closed b p rest e shut =
      let at_first : playwright_primary_page pw b ≡ (some p, none, b) =
        rw (playwright_primary_page, e) refl in
      ap (λ (r : Acquired P × Browser W B C). (r.0, some r.1))
        (acquire_ready-open (playwright_runtime pw) b p at_first (ap not shut))
