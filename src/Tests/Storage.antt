-- ===== src/Tests/Storage.antt =====
-- The theorems about the caches at a cache with one page.
use scrapemate.Prelude.{ℕ, String, ◌<>◌, ◌≡◌, ◌≢◌, refl, arith, none, [], ◌∷◌}
use scrapemate.Errors.{foreign, Result, ok, err}
use scrapemate.Response.{Response, zero_response}
use scrapemate.Caches.{Bytes, Gzip, Json}
use scrapemate.Caches.FileCache
use scrapemate.Caches.FileCache.{Faults, Files, FileCache, encode}
use scrapemate.Caches.Rounds.{IsLossless, IsCodable, file_get-set}

-- A stream begins with its magic number.
abbrev new_reader : Bytes → Result (Unit {0})
new_reader [] = err (foreign "EOF")
new_reader (x ∷ xs) = ok tt

abbrev read_all : Bytes → Result Bytes
read_all [] = err (foreign "EOF")
read_all (x ∷ xs) = ok xs

abbrev gzip : Gzip
gzip = record {
  write_error = λ bytes. none;
  close_error = λ bytes. none;
  stream = λ bytes. 31 ∷ bytes;
  new_reader = new_reader;
  read_all = read_all;
}

gzip-IsLossless : IsLossless gzip
gzip-IsLossless = record {
  reader = λ bytes. refl;
  read_back = λ bytes. refl;
  empty_refused = (foreign "EOF", refl);
}

-- A response is written by its body.
abbrev json : Json ℕ
json = record {
  marshal = λ value. ok value.body;
  unmarshal = λ bytes. ok (record zero_response { body = bytes });
}

abbrev page : Response ℕ
page = record zero_response { body = 7 ∷ 8 ∷ [] }

page-IsCodable : IsCodable json page
page-IsCodable bytes h = ground arith

abbrev faults : Faults
faults = record {
  mkdir_all = λ path. none;
  open_error = λ path. none;
  read_error = λ path. none;
  create_error = λ path. none;
  write_error = λ path bytes. none;
}

abbrev join : String → String → String
join folder name = folder <> ("/" <> name)

abbrev cache : FileCache
cache = record { folder = "cache" }

abbrev old : Files
old = ("cache/b", 31 ∷ 9 ∷ []) ∷ []

abbrev after : Files
after = (FileCache.set gzip json join faults cache "a" page old).1

file_get-set_example :
    ((FileCache.set gzip json join faults cache "a" page old).0 ≡ none
      → FileCache.get gzip json join faults cache "a" after ≡ ok page)
    × (◌≢◌ {A = String} "cache/a" "cache/b"
        → FileCache.get gzip json join faults cache "b" after
          ≡ FileCache.get gzip json join faults cache "b" old)
    × (faults.create_error "cache/a" ≡ none
        → ((bytes : Bytes) → encode gzip json page ≢ ok bytes)
        → (v : Response ℕ) → FileCache.get gzip json join faults cache "a" after ≢ ok v)
file_get-set_example =
    file_get-set gzip json join faults cache "a" "b" page old gzip-IsLossless page-IsCodable
      (record { opens = refl; reads = refl })
