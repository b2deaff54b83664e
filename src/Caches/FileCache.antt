-- ===== src/Caches/FileCache.antt =====
-- FileCache of filecache.go.
use scrapemate.Prelude.{String, Option, none, some, List, [], find, insert}
use scrapemate.Errors.{Error, foreign, wrapped, Result, ok, err, ◌>>=◌, unless, wrapping}
use scrapemate.Response.{Response}
use scrapemate.Caches.{Bytes, Gzip, Json, compress, decompress}

-- A file that is there opens unless `open_error` says otherwise; a failed write gives its error and
-- what it wrote.
pub record Faults : Type 0 where
  pub mkdir_all : String → Option Error
  pub open_error : String → Option Error
  pub read_error : String → Option Error
  pub create_error : String → Option Error
  pub write_error : String → Bytes → Option (Error × Bytes)

abbrev pub Files : Type 0
Files = List (String × Bytes)

pub record FileCache : Type 0 where
  pub folder : String

-- NewFileCache.
unfoldable pub new_file_cache : Faults → String → Result FileCache
new_file_cache faults folder = do
  made ← wrapping (λ e. wrapped e "cannot create cache dir") (unless (faults.mkdir_all folder))
  ok (record { folder = folder })

module _ (faults : Faults) where
  -- io.ReadAll of the file at `path`, which has these bytes.
  unfoldable pub read_open : String → Bytes → Result Bytes
  read_open path bytes = do
    opened ← wrapping (λ e. wrapped e "cannot open file") (unless (faults.open_error path))
    read ← wrapping (λ e. wrapped e "cannot read file") (unless (faults.read_error path))
    ok bytes

  -- os.Open and io.ReadAll.
  unfoldable pub read_file : String → Files → Result Bytes
  read_file path files = elim (find path files) [
    | none ↦ err (wrapped (foreign "no such file") "cannot open file")
    | some bytes ↦ read_open path bytes
  ]

  -- f.Write
  unfoldable pub write_file : String → Bytes → Files → Option Error × Files
  write_file path bytes files = elim (faults.write_error path bytes) [
    | none ↦ (none, insert path bytes files)
    | some (e, part) ↦ (some (wrapped e "cannot write to file"), insert path part files)
  ]

module _ {V : Type 0} (gzip : Gzip) (json : Json V) where
  -- What a file's content stands for.
  unfoldable pub decode : Bytes → Result (Response V)
  decode bytes = do
    plain ← wrapping (λ e. wrapped e "cannot decompress file") (decompress gzip bytes)
    wrapping (λ e. wrapped e "cannot unmarshal file") (json.unmarshal plain)

  unfoldable pub encode : Response V → Result Bytes
  encode value = do
    plain ← wrapping (λ e. wrapped e "cannot marshal response") (json.marshal value)
    wrapping (λ e. wrapped e "cannot compress data") (compress gzip plain)

  module _ (join : String → String → String) (faults : Faults) where
    unfoldable pub get : FileCache → String → Files → Result (Response V)
    get c key files = do bytes ← read_file faults (join c.folder key) files; decode bytes

    -- os.Create makes the file empty before the value is encoded.
    unfoldable pub set : FileCache → String → Response V → Files → Option Error × Files
    set c key value files =
        let path = join c.folder key in
        elim (faults.create_error path) [
          | some e ↦ (some (wrapped e "cannot create file"), files)
          | none ↦ elim (encode value) [
            | err e ↦ (some e, insert path [] files)
            | ok bytes ↦ write_file faults path bytes (insert path [] files)
          ]
        ]
