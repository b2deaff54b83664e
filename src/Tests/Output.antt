-- ===== src/Tests/Output.antt =====
-- The theorem about csvwriter.go with a writer that keeps its lines, and the one about jsonwriter.go.
use scrapemate.Prelude.{
  ℕ, String, ◌≡◌, refl, false, Option, none, some, List, [], ◌∷◌, ◌++◌, ◌==◌, if◌then◌else◌,
}
use scrapemate.Errors.{Error, foreign}
use scrapemate.JsonWriter as JsonWriter
use scrapemate.JsonWriter.{any_slice, other}
use scrapemate.JsonWriter.Items.{Encodes, run-Encodes}
use scrapemate.Mate.Env.{replies}
use scrapemate.Writers.{Value, slice, single, Row, CsvCapable, Sink, run}
use scrapemate.Writers.Lines.{
  IsWorking, Elements, none_left, one_more, empty, next_slice, next_single, run-lines,
}

abbrev titled : String → CsvCapable
titled title = record { csv_headers = "title" ∷ []; csv_row = title ∷ [] }

abbrev book : ℕ → Option CsvCapable
book n = some (titled (if n == 1 then "one" else if n == 2 then "two" else "three"))

abbrev list_sink : Sink (List Row)
list_sink = record { write = λ r s. (none, s ++ (r ∷ [])); flush = λ s. s; error = λ s. none }

works : IsWorking list_sink (λ s. s)
works = record {
  no_error = λ r s. refl;
  written = λ r s. refl;
  flushed = λ s. refl;
  ends_well = λ s. refl;
}

abbrev shelf : List (Value ℕ)
shelf = single 1 ∷ slice (2 ∷ 3 ∷ []) ∷ []

three_books : Elements book shelf (titled "one" ∷ titled "two" ∷ titled "three" ∷ [])
three_books =
    next_single 1 (slice (2 ∷ 3 ∷ []) ∷ []) (titled "one") (titled "two" ∷ titled "three" ∷ []) refl
      (next_slice (2 ∷ 3 ∷ []) [] (titled "two" ∷ titled "three" ∷ []) []
        (one_more 2 (3 ∷ []) (titled "two") (titled "three" ∷ []) refl
          (one_more 3 [] (titled "three") [] refl none_left))
        empty)

run-lines_example :
    ((run book list_sink shelf (record { w = []; once = false })).0 ≡ replies none)
    × ((run book list_sink shelf (record { w = []; once = false })).1.w
        ≡ ("title" ∷ []) ∷ ("one" ∷ []) ∷ ("two" ∷ []) ∷ ("three" ∷ []) ∷ [])
run-lines_example =
    run-lines book list_sink (λ s. s) works shelf
      (titled "one" ∷ titled "two" ∷ titled "three" ∷ []) (record { w = []; once = false })
      three_books

-- An encoder that refuses 9.
abbrev encode : ℕ → List ℕ → Option Error × List ℕ
encode n s = if n == 9 then (some (foreign "nine"), s) else (none, s ++ (n ∷ []))

abbrev answers : List (JsonWriter.Data ℕ)
answers = any_slice (1 ∷ 2 ∷ []) ∷ other 9 ∷ other 3 ∷ []

run-Encodes_example : Encodes encode (1 ∷ 2 ∷ 9 ∷ 3 ∷ []) [] (JsonWriter.run encode answers [])
run-Encodes_example = run-Encodes encode answers []
