-- ===== src/Writers.antt =====
-- adapters/writers/csvwriter/csvwriter.go, with Result.Data and CsvCapable of result.go. The
-- writer of encoding/csv is foreign, over a state `S`. The results come from a
-- channel; a run has the list of what is received before it is closed.
pub mod Lines
use scrapemate.Prelude.{
  String, Bool, true, false, Option, none, some, List, [], ◌∷◌, ◌++◌, map, if◌then◌else◌,
}
use scrapemate.Errors.{Error, not_csv_capable, wrapped}
use scrapemate.Mate.Env.{Reply, replies, throws}
use scrapemate.Errors.{Result, ok, err}

-- The data of a result: nil, a slice, or another value.
pub data Value (A : Type 0) : Type 0 where
  nil : Value A
  single : A → Value A
  slice : List A → Value A

abbrev pub Row : Type 0
Row = List String

-- CsvCapable: the headers and the row of an element.
pub record CsvCapable : Type 0 where
  pub csv_headers : Row
  pub csv_row : Row

-- The csv.Writer.
pub record Sink (S : Type 0) : Type 0 where
  pub write : Row → S → Option Error × S
  pub flush : S → S
  pub error : S → Option Error

pub record CsvWriter (S : Type 0) : Type 0 where
  pub w : S
  pub once : Bool

abbrev pub not_capable : Error
not_capable = wrapped not_csv_capable "unexpected data type"

module _ {S : Type 0} (sink : Sink S) where
  -- The headers, under `once`; an error of theirs is dropped.
  unfoldable pub write_headers : CsvCapable → CsvWriter S → CsvWriter S
  write_headers c o =
      if o.once then o else record { w = (sink.write c.csv_headers o.w).1; once = true }

  unfoldable pub write_rows : List CsvCapable → S → Option Error × S
  write_rows [] s = (none, s)
  write_rows (c ∷ cs) s =
      let (e, s') = sink.write c.csv_row s in
      let rest = write_rows cs s' in elim e [ none ↦ rest | some x ↦ (some x, s') ]

  -- The rest of a round, before the next rounds, from what getCsvCapable gave.
  unfoldable pub write_elements :
      (CsvWriter S → Reply (Option Error) × CsvWriter S)
      → Reply (Result (List CsvCapable))
      → CsvWriter S
      → Reply (Option Error) × CsvWriter S
  write_elements next throws o = (throws, o)
  write_elements next (replies (err e)) o = (replies (some e), o)
  write_elements next (replies (ok [])) o = next o
  write_elements next (replies (ok (c ∷ cs))) o =
      let o' = write_headers c o in
      let (e, s) = write_rows (c ∷ cs) o'.w in
      elim e [
        | none ↦ next (record o' { w = sink.flush s })
        | some x ↦ (replies (some x), record o' { w = s })
      ]

module _ {A : Type 0} (capable : A → Option CsvCapable) where
  unfoldable pub all_capable : List A → Result (List CsvCapable)
  all_capable [] = ok []
  all_capable (a ∷ xs) =
      let rest = all_capable xs in
      elim (capable a) [
        | none ↦ err not_capable
        | some c ↦ elim rest [ ok cs ↦ ok (c ∷ cs) | err e ↦ err e ]
      ]

  -- getCsvCapable; reflect.TypeOf(nil).Kind() panics.
  unfoldable pub get_csv_capable : Value A → Reply (Result (List CsvCapable))
  get_csv_capable nil = throws
  get_csv_capable (slice xs) = replies (all_capable xs)
  get_csv_capable (single a) = replies (all_capable (a ∷ []))

  module _ {S : Type 0} (sink : Sink S) where
    unfoldable pub run : List (Value A) → CsvWriter S → Reply (Option Error) × CsvWriter S
    run [] o = (replies (sink.error o.w), o)
    run (v ∷ vs) o = write_elements sink (run vs) (get_csv_capable v) o
