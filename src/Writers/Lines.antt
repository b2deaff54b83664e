-- ===== src/Writers/Lines.antt =====
-- What the csv writer writes.
use scrapemate.Prelude.{
  ◌≡◌, refl, sym, ap, ◌∙◌, Bool, true, false, Option, none, some, List, [], ◌∷◌, ◌++◌, map,
  append-nil, append_assoc, Bool-cases, inl, inr,
}
use scrapemate.Errors.{Error}
use scrapemate.Mate.Env.{Reply, replies}
use scrapemate.Errors.{ok}
use scrapemate.Writers.{
  Value, single, slice, Row, CsvCapable, all_capable, Sink, CsvWriter, get_csv_capable,
  write_headers, write_rows, write_elements, run,
}

-- A csv.Writer that works: `lines` are those written to it.
pub record IsWorking {S : Type 0} (sink : Sink S) (lines : S → List Row) : Type 0 where
  pub no_error : (r : Row) (s : S) → (sink.write r s).0 ≡ none
  pub written : (r : Row) (s : S) → lines (sink.write r s).1 ≡ lines s ++ (r ∷ [])
  pub flushed : (s : S) → lines (sink.flush s) ≡ lines s
  pub ends_well : (s : S) → sink.error s ≡ none

-- The headers come before the first element, unless they were written.
abbrev pub headers_before : Bool → List CsvCapable → List Row
headers_before true cs = []
headers_before false [] = []
headers_before false (c ∷ cs) = c.csv_headers ∷ []

abbrev pub rows : List CsvCapable → List Row
rows cs = map (λ c. c.csv_row) cs

rows-append : (cs ds : List CsvCapable) → rows (cs ++ ds) ≡ rows cs ++ rows ds
rows-append [] ds = refl
rows-append (c ∷ cs) ds = ap (λ rs. c.csv_row ∷ rs) (rows-append cs ds)

line_lem :
    {f l₂ l₁ all : List Row} (l₀ h m n : List Row)
    → f ≡ l₂
    → l₂ ≡ l₁ ++ m
    → l₁ ≡ l₀ ++ h
    → all ≡ m ++ n
    → f ++ n ≡ l₀ ++ (h ++ all)
line_lem l₀ h m n p q r t =
    rw (p, q, r, t) (append_assoc (l₀ ++ h) m n ∙ append_assoc l₀ h (m ++ n))

module _ {S : Type 0} (sink : Sink S) (lines : S → List Row) (works : IsWorking sink lines) where
  write_rows-lines :
      (cs : List CsvCapable) (s : S)
      → ((write_rows sink cs s).0 ≡ none) × (lines (write_rows sink cs s).1 ≡ lines s ++ rows cs)
  unfolding write_rows
  write_rows-lines [] s = (refl, sym (append-nil (lines s)))
  write_rows-lines (c ∷ cs) s =
      let s' = (sink.write c.csv_row s).1 in
      let (ih, out) = write_rows-lines cs s' in
      rw (write_rows, works.no_error c.csv_row s)
        (
          ih,
          out
              ∙ ap (λ ls. ls ++ rows cs) (works.written c.csv_row s)
              ∙ append_assoc (lines s) (c.csv_row ∷ []) (rows cs),
        )

  -- What a run adds to the lines.
  abbrev Adds : CsvWriter S → List CsvCapable → Reply (Option Error) × CsvWriter S → Type 0
  Adds o cs r =
      (r.0 ≡ replies none) × (lines r.1.w ≡ lines o.w ++ (headers_before o.once cs ++ rows cs))

  write_headers-lines :
      (c : CsvCapable) (cs : List CsvCapable) (o : CsvWriter S)
      → ((write_headers sink c o).once ≡ true)
        × (lines (write_headers sink c o).w ≡ lines o.w ++ headers_before o.once (c ∷ cs))
  unfolding write_headers
  write_headers-lines c cs o = elim (Bool-cases o.once) [
    | inl b ↦ rw b (refl, sym (append-nil (lines o.w)))
    | inr b ↦ rw b (refl, works.written c.csv_headers o.w)
  ]

  write_elements-Adds :
      (next : CsvWriter S → Reply (Option Error) × CsvWriter S) (cs ds : List CsvCapable)
      (o : CsvWriter S)
      → ((o' : CsvWriter S) → Adds o' ds (next o'))
      → Adds o (cs ++ ds) (write_elements sink next (replies (ok cs)) o)
  unfolding write_elements
  write_elements-Adds next [] ds o h = h o
  write_elements-Adds next (c ∷ cs) ds o h =
      let o₁ = write_headers sink c o in
      let (e, out) = write_rows-lines (c ∷ cs) o₁.w in
      let s₂ = (write_rows sink (c ∷ cs) o₁.w).1 in
      let (once, head) = write_headers-lines c (cs ++ ds) o in
      let (fine, rest) = h (record o₁ { w = sink.flush s₂ }) in
      rw (write_elements, e)
        (
          fine,
          rest
              ∙ ap (λ b. lines (sink.flush s₂) ++ (headers_before b ds ++ rows ds)) once
              ∙ line_lem (lines o.w) (headers_before o.once (c ∷ (cs ++ ds))) (rows (c ∷ cs))
                  (rows ds) (works.flushed s₂) out head (rows-append (c ∷ cs) ds),
        )

module _ {A : Type 0} (capable : A → Option CsvCapable) where
  -- The elements of a slice, in order, all csv capable.
  pub data AllCapable : List A → List CsvCapable → Type 0 where
    none_left : AllCapable [] []
    one_more :
        (a : A) (xs : List A) (c : CsvCapable) (cs : List CsvCapable)
        → capable a ≡ some c
        → AllCapable xs cs
        → AllCapable (a ∷ xs) (c ∷ cs)

  -- The elements of a list of results, in order, all csv capable: those of a slice, or the value itself.
  pub data Elements : List (Value A) → List CsvCapable → Type 0 where
    empty : Elements [] []
    next_slice :
        (xs : List A) (vs : List (Value A)) (cs ds : List CsvCapable)
        → AllCapable xs cs
        → Elements vs ds
        → Elements (slice xs ∷ vs) (cs ++ ds)
    next_single :
        (a : A) (vs : List (Value A)) (c : CsvCapable) (ds : List CsvCapable)
        → capable a ≡ some c
        → Elements vs ds
        → Elements (single a ∷ vs) (c ∷ ds)

  all_capable-AllCapable :
      (xs : List A) (cs : List CsvCapable) → AllCapable xs cs → all_capable capable xs ≡ ok cs
  unfolding all_capable
  all_capable-AllCapable _ _ none_left = refl
  all_capable-AllCapable _ _ (one_more a xs c cs h rest) =
      rw (all_capable, h, all_capable-AllCapable xs cs rest) refl

  module _ {S : Type 0} (sink : Sink S) (lines : S → List Row) (works : IsWorking sink lines) where
    -- With a csv.Writer that works and results that are all csv capable, Run returns nil, and has
    -- written the headers of the first element, if the writer has not written headers before, and
    -- then the row of each element, in order.
    pub run-lines :
        (vs : List (Value A)) (cs : List CsvCapable) (o : CsvWriter S)
        → Elements vs cs
        → ((run capable sink vs o).0 ≡ replies none)
          × (lines (run capable sink vs o).1.w ≡ lines o.w ++ (headers_before o.once cs ++ rows cs))
    unfolding run get_csv_capable
    run-lines _ _ o empty = elim (Bool-cases o.once) [
      | inl b ↦ rw (b, works.ends_well o.w) (refl, sym (append-nil (lines o.w)))
      | inr b ↦ rw (b, works.ends_well o.w) (refl, sym (append-nil (lines o.w)))
    ]
    run-lines _ _ o (next_slice xs vs cs ds e h) =
        let given : get_csv_capable capable (slice xs) ≡ replies (ok cs) =
          rw (get_csv_capable, all_capable-AllCapable xs cs e) refl in
        rw given (
          write_elements-Adds sink lines works (run capable sink vs) cs ds o
            (λ o'. run-lines vs ds o' h))
    run-lines _ _ o (next_single a vs c ds e h) =
        let given : get_csv_capable capable (single a) ≡ replies (ok (c ∷ [])) =
          rw
            (
              get_csv_capable,
              all_capable-AllCapable (a ∷ []) (c ∷ []) (one_more a [] c [] e none_left),
            )
            refl in
        rw given (
          write_elements-Adds sink lines works (run capable sink vs) (c ∷ []) ds o
            (λ o'. run-lines vs ds o' h))
