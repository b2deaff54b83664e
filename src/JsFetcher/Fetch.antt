-- ===== src/JsFetcher/Fetch.antt =====
-- Fetch of jshttp.go on a session slot that it holds, between getSlot and putSlot.
use scrapemate.Prelude.{
  Option, none, some, if◌then◌else◌, is_none, ◌≡◌, ◌≢◌, refl, sym, ap, ◌∙◌, subst, arith,
}
use scrapemate.Errors.{Error, foreign}
use scrapemate.Response.{Response, zero_response}
use scrapemate.SessionSlot.{SlotRuntime, Factory, Acquired, acquire_page, release}

abbrev pub unexpected_page : Error
unexpected_page = foreign "unexpected page type"

-- scrapemate.Response{Error: err}
abbrev pub failed_response : {V : Type 0} → Error → Response V
failed_response e = record zero_response { error = some e }

module _ {S P V : Type 0} (rt : SlotRuntime S P) (actions : P → S → Response V × S) where
  -- From runBrowserActions on: an error of release is reported unless there is one already.
  unfoldable pub fetch_page : P → S → Response V × S
  fetch_page p s =
      let (resp, s₁) = actions p s in
      let (clean_err, s₂) = release rt s₁ in
      (if is_none resp.error then record resp { error = clean_err } else resp, s₂)

  -- After acquirePage; a nil page is no playwrightPage.
  unfoldable pub fetch_acquired : Acquired P → Option S → Response V × Option S
  fetch_acquired a none =
      (elim a.err [ some e ↦ failed_response e | none ↦ failed_response unexpected_page ], none)
  fetch_acquired a (some s) = elim a.err [
    | some e ↦ (failed_response e, some s)
    | none ↦ elim a.page [
      | none ↦ (failed_response unexpected_page, some s)
      | some p ↦ let (resp, s') = fetch_page p s in (resp, some s')
    ]
  ]

  unfoldable pub fetch_slot : Factory S → Option S → Response V × Option S
  fetch_slot made runtime =
      let (a, runtime') = acquire_page rt made runtime in fetch_acquired a runtime'

  -- The actions of the job ran on a page of the slot, without an error of theirs, and the slot was
  -- cleaned after them, without an error too: `after` is what that left of it.
  pub record Ran (a : Acquired P) (runtime : Option S) (resp : Response V) (after : Option S)
      : Type 0 where
    pub s : S
    pub page : P
    pub ready : runtime ≡ some s
    pub acquired : a.page ≡ some page
    pub response : resp ≡ (actions page s).0
    pub clean : (release rt (actions page s).1).0 ≡ none
    pub cleaned : after ≡ some (release rt (actions page s).1).1

  -- release's error stands where there is no other.
  or_cleaned : (resp : Response V) (e clean_err : Option Error) → Response V
  or_cleaned resp e clean_err =
      if is_none e then record resp { error = clean_err } else record resp { error = e }

  or_cleaned-none :
      (resp : Response V) (e clean_err : Option Error)
      → (or_cleaned resp e clean_err).error ≡ none
      → (e ≡ none) × (clean_err ≡ none)
  unfolding or_cleaned
  or_cleaned-none resp none clean_err h = (refl, h)
  or_cleaned-none resp (some e) clean_err h = absurd (ground arith)

  fetch_page-clean :
      (p : P) (s : S)
      → (fetch_page p s).0.error ≡ none
      → ((fetch_page p s).0 ≡ (actions p s).0) × ((release rt (actions p s).1).0 ≡ none)
  unfolding fetch_page or_cleaned
  fetch_page-clean p s h =
      let resp = (actions p s).0 in
      let clean_err = (release rt (actions p s).1).0 in
      let (quiet, clean) = or_cleaned-none resp resp.error clean_err h in
      (
        ap (λ c. or_cleaned resp resp.error c) clean
            ∙ ap (λ e. or_cleaned resp e none) quiet
            ∙ ap (λ e. record resp { error = e }) (sym quiet),
        clean,
      )

  fetch_page-cleaned : (p : P) (s : S) → (fetch_page p s).1 ≡ (release rt (actions p s).1).1
  unfolding fetch_page
  fetch_page-cleaned p s = refl

  on_page : Option Error → Option P → S → Response V × Option S
  on_page (some e) page s = (failed_response e, some s)
  on_page none none s = (failed_response unexpected_page, some s)
  on_page none (some p) s = ((fetch_page p s).0, some (fetch_page p s).1)

  on_page-Ran :
      (a : Acquired P) (s : S) (e : Option Error) (page : Option P)
      → a.page ≡ page
      → (on_page e page s).0.error ≡ none
      → Ran a (some s) (on_page e page s).0 (on_page e page s).1
  unfolding on_page
  on_page-Ran a s (some e) page q h = absurd (ground arith)
  on_page-Ran a s none none q h = absurd (ground arith)
  on_page-Ran a s none (some p) q h =
      let (same, clean) = fetch_page-clean p s h in
      record {
        s = s;
        page = p;
        ready = refl;
        acquired = q;
        response = same;
        clean = clean;
        cleaned = ap some (fetch_page-cleaned p s);
      }

  fetch_acquired-on_page :
      (e : Option Error) (page : Option P) (s : S)
      → fetch_acquired (record { err = e; page = page }) (some s) ≡ on_page e page s
  unfolding fetch_acquired on_page
  fetch_acquired-on_page (some e) page s = refl
  fetch_acquired-on_page none none s = refl
  fetch_acquired-on_page none (some p) s = refl

  fetch_acquired-error :
      (e : Option Error) (page : Option P)
      → (fetch_acquired (record { err = e; page = page }) none).0.error ≢ none
  unfolding fetch_acquired
  fetch_acquired-error none page h = absurd (ground arith)
  fetch_acquired-error (some e) page h = absurd (ground arith)

  fetch_acquired-Ran :
      (a : Acquired P) (runtime : Option S)
      → (fetch_acquired a runtime).0.error ≡ none
      → Ran a runtime (fetch_acquired a runtime).0 (fetch_acquired a runtime).1
  fetch_acquired-Ran a none h = absurd (fetch_acquired-error a.err a.page h)
  fetch_acquired-Ran a (some s) h =
      let same = fetch_acquired-on_page a.err a.page s in
      subst (λ (r : Response V × Option S). Ran a (some s) r.0 r.1) (sym same)
        (on_page-Ran a s a.err a.page refl
          (sym (ap (λ (r : Response V × Option S). r.0.error) same) ∙ h))

  -- A response of Fetch without an error is the one that the job's browser actions gave, as it was,
  -- on a page that the slot handed out, and the slot is as release, without an error, left it after them.
  pub fetch_slot-Ran :
      (made : Factory S) (runtime : Option S)
      → (fetch_slot made runtime).0.error ≡ none
      → Ran
          (acquire_page rt made runtime).0
          (acquire_page rt made runtime).1
          (fetch_slot made runtime).0
          (fetch_slot made runtime).1
  unfolding fetch_slot
  fetch_slot-Ran made runtime h =
      fetch_acquired-Ran (acquire_page rt made runtime).0 (acquire_page rt made runtime).1 h
