-- ===== src/Caches/Rounds.antt =====
-- What Get gives after Set.
use scrapemate.Prelude.{
  String, ◌≡◌, ◌∙◌, ◌≢◌, Option, none, some, [], insert, find-insert, str_eq, eq_iff, eq_refl,
  arith, refl, Option-cases, inl, inr, false, if◌then◌else◌,
}
use scrapemate.Errors.{Error, Result, ok, err}
use scrapemate.Response.{Response}
use scrapemate.Caches.{Bytes, Gzip, Json, compress, decompress}
use scrapemate.Caches.FileCache
use scrapemate.Caches.FileCache.{
  Faults, Files, FileCache, read_file, read_open, decode, encode, write_file,
}
use scrapemate.Caches.LevelDb
use scrapemate.Caches.LevelDb.{DbFaults, Db, db_get, db_put}

-- What compress/gzip documents: a stream reads back, and an empty one is refused.
pub record IsLossless (gzip : Gzip) : Type 0 where
  pub reader : (bytes : Bytes) → gzip.new_reader (gzip.stream bytes) ≡ ok tt
  pub read_back : (bytes : Bytes) → gzip.read_all (gzip.stream bytes) ≡ ok bytes
  pub empty_refused : (e : Error) × (gzip.new_reader [] ≡ err e)

-- The value is read back from its JSON text.
abbrev pub IsCodable : {V : Type 0} → Json V → Response V → Type 0
IsCodable json value =
    (bytes : Bytes) → json.marshal value ≡ ok bytes → json.unmarshal bytes ≡ ok value

-- A file that can be read.
pub record IsReadable (faults : Faults) (path : String) : Type 0 where
  pub opens : faults.open_error path ≡ none
  pub reads : faults.read_error path ≡ none

read_open-IsReadable :
    (faults : Faults) (path : String) (bytes : Bytes)
    → IsReadable faults path
    → read_open faults path bytes ≡ ok bytes
unfolding read_open
read_open-IsReadable faults path bytes r = rw (r.opens, r.reads)

read_file-insert :
    (faults : Faults) (path other : String) (bytes : Bytes) (files : Files)
    → read_file faults other (insert path bytes files)
      ≡ (if str_eq path other then read_open faults other bytes else read_file faults other files)
unfolding read_file
read_file-insert faults path other bytes files = ground (arith, find-insert path other bytes files)

read_file-insert_other :
    (faults : Faults) (path other : String) (bytes : Bytes) (files : Files)
    → str_eq path other ≡ false
    → read_file faults other (insert path bytes files) ≡ read_file faults other files
read_file-insert_other faults path other bytes files h =
    rw (read_file-insert faults path other bytes files, h) refl

module _ {V : Type 0} (gzip : Gzip) (json : Json V) where
  encode_inv :
      (value : Response V) (bytes : Bytes)
      → encode gzip json value ≡ ok bytes
      → (plain : Bytes) × (json.marshal value ≡ ok plain) × (bytes ≡ gzip.stream plain)
  unfolding encode compress
  encode_inv value bytes e = go (json.marshal value) refl
    where
      go :
          (m : Result Bytes)
          → json.marshal value ≡ m
          → (plain : Bytes) × (json.marshal value ≡ ok plain) × (bytes ≡ gzip.stream plain)
      go (ok plain) h = (plain, h, ground arith)
      go (err x) h = absurd (ground arith)

  decode-encode :
      (value : Response V) (bytes : Bytes)
      → IsLossless gzip
      → IsCodable json value
      → encode gzip json value ≡ ok bytes
      → decode gzip json bytes ≡ ok value
  unfolding decode decompress
  decode-encode value bytes lossless codable e =
      let (plain, marshalled, same) = encode_inv value bytes e in
      rw (same, lossless.reader plain, lossless.read_back plain, codable plain marshalled)

  -- An empty file stands for nothing.
  decode-empty : (value : Response V) → IsLossless gzip → decode gzip json [] ≢ ok value
  unfolding decode decompress
  decode-empty value lossless h = let (x, e) = lossless.empty_refused in ground arith

  module _ (join : String → String → String) (faults : Faults) where
    abbrev file_get : FileCache → String → Files → Result (Response V)
    file_get = FileCache.get gzip json join faults

    abbrev file_set : FileCache → String → Response V → Files → Option Error × Files
    file_set = FileCache.set gzip json join faults

    set-written :
        (c : FileCache) (key : String) (value : Response V) (files : Files)
        → (file_set c key value files).0 ≡ none
        → (bytes : Bytes) × (encode gzip json value ≡ ok bytes)
          × ((file_set c key value files).1
              ≡ insert (join c.folder key) bytes (insert (join c.folder key) [] files))
    unfolding FileCache.set write_file
    set-written c key value files h = go (encode gzip json value) refl
      where
        go :
            (m : Result Bytes)
            → encode gzip json value ≡ m
            → (bytes : Bytes) × (encode gzip json value ≡ ok bytes)
              × ((FileCache.set gzip json join faults c key value files).1
                  ≡ insert (join c.folder key) bytes (insert (join c.folder key) [] files))
        go (ok bytes) e = (bytes, e, ground arith)
        go (err x) e = absurd (ground arith)

    set-other :
        (c : FileCache) (key : String) (path : String) (value : Response V) (files : Files)
        → str_eq (join c.folder key) path ≡ false
        → read_file faults path (file_set c key value files).1 ≡ read_file faults path files
    unfolding FileCache.set write_file
    set-other c key path value files h =
        elim (Option-cases (faults.create_error (join c.folder key))) [
          | inr (x, e) ↦ rw (FileCache.set, e) refl
          | inl e ↦ rw (FileCache.set, e) (go (encode gzip json value))
        ]
      where
        skip :
            (bytes : Bytes) (fs : Files)
            → read_file faults path (insert (join c.folder key) bytes fs) ≡ read_file faults path fs
        skip bytes fs = read_file-insert_other faults (join c.folder key) path bytes fs h

        go :
            (m : Result Bytes)
            → read_file faults path
                (elim m as (λ _. Option Error × Files) [
                  | err e ↦ (some e, insert (join c.folder key) [] files)
                  | ok bytes ↦
                      write_file faults
                        (join c.folder key)
                        bytes
                        (insert (join c.folder key) [] files)
                ]).1
              ≡ read_file faults path files
        go (err e) = skip [] files
        go (ok bytes) = elim (Option-cases (faults.write_error (join c.folder key) bytes)) [
          | inl e ↦ rw (write_file, e) (skip bytes _ ∙ skip [] files)
          | inr ((x, part), e) ↦ rw (write_file, e) (skip part _ ∙ skip [] files)
        ]

    set-emptied :
        (c : FileCache) (key : String) (value : Response V) (files : Files)
        → faults.create_error (join c.folder key) ≡ none
        → ((bytes : Bytes) → encode gzip json value ≢ ok bytes)
        → (file_set c key value files).1 ≡ insert (join c.folder key) [] files
    unfolding FileCache.set
    set-emptied c key value files h k = go (encode gzip json value) refl
      where
        go :
            (m : Result Bytes)
            → encode gzip json value ≡ m
            → (FileCache.set gzip json join faults c key value files).1
              ≡ insert (join c.folder key) [] files
        go (ok bytes) e = absurd (k bytes e)
        go (err x) e = ground arith

    -- The file cache keeps what it is given: after a Set without an error, Get gives the value for its
    -- key, if the file can be read. Whether Set succeeds or not, Get gives what it gave before for
    -- every key with another path. After a Set that created its file and could not encode the value,
    -- Get gives no value for the key, whatever the cache had for it before.
    pub file_get-set :
        (c : FileCache) (key other : String) (value : Response V) (files : Files)
        → IsLossless gzip
        → IsCodable json value
        → IsReadable faults (join c.folder key)
        → ((file_set c key value files).0 ≡ none
            → file_get c key (file_set c key value files).1 ≡ ok value)
          × (join c.folder key ≢ join c.folder other
              → file_get c other (file_set c key value files).1 ≡ file_get c other files)
          × (faults.create_error (join c.folder key) ≡ none
              → ((bytes : Bytes) → encode gzip json value ≢ ok bytes)
              → (v : Response V) → file_get c key (file_set c key value files).1 ≢ ok v)
    unfolding FileCache.get FileCache.set
    file_get-set c key other value files lossless codable r = (
      λ fine.
          let (bytes, e, after) = set-written c key value files fine in
          let path = join c.folder key in
          let got = read_file-insert faults path path bytes (insert path [] files) in
          let read = read_open-IsReadable faults path bytes r in
          let whole = decode-encode value bytes lossless codable e in
          rw (after, got, eq_refl, read) whole,
      λ distinct.
          let apart : str_eq (join c.folder key) (join c.folder other) ≡ false =
            ground (arith, eq_iff (join c.folder key) (join c.folder other)) in
          rw (set-other c key (join c.folder other) value files apart) refl,
      λ made unencoded v h.
          let path = join c.folder key in
          let after = set-emptied c key value files made unencoded in
          let got = read_file-insert faults path path [] files in
          let read = read_open-IsReadable faults path [] r in
          decode-empty v lossless (rw (after, got, eq_refl, read) at h),
    )

module _ {V : Type 0} (json : Json V) (faults : DbFaults) where
  -- The database cache keeps what it is given: after a Set without an error, Get gives the value
  -- for its key, if the database can read it, and what it gave before for every other key. A Set
  -- with an error leaves the database as it was.
  level_db_get-set :
      (key other : String) (value : Response V) (db : Db)
      → IsCodable json value
      → faults.get_error key ≡ none
      → ((LevelDb.set json faults key value db).0 ≡ none
          → LevelDb.get json faults key (LevelDb.set json faults key value db).1 ≡ ok value)
        × (key ≢ other
            → LevelDb.get json faults other (LevelDb.set json faults key value db).1
              ≡ LevelDb.get json faults other db)
        × ((LevelDb.set json faults key value db).0 ≢ none
            → (LevelDb.set json faults key value db).1 ≡ db)
  unfolding LevelDb.get LevelDb.set db_put db_get
  level_db_get-set key other value db codable r = go (json.marshal value) refl
    where
      go :
          (m : Result Bytes)
          → json.marshal value ≡ m
          → ((LevelDb.set json faults key value db).0 ≡ none
              → LevelDb.get json faults key (LevelDb.set json faults key value db).1 ≡ ok value)
            × (key ≢ other
                → LevelDb.get json faults other (LevelDb.set json faults key value db).1
                  ≡ LevelDb.get json faults other db)
            × ((LevelDb.set json faults key value db).0 ≢ none
                → (LevelDb.set json faults key value db).1 ≡ db)
      go (err e) h = (ground arith, ground arith, ground arith)
      go (ok bytes) h = (
        ground (arith, codable bytes, find-insert key key bytes db, eq_refl key),
        ground (arith, find-insert key other bytes db, eq_iff key other),
        ground arith,
      )
