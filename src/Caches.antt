-- ===== src/Caches.antt =====
-- adapters/cache: compress.go, filecache/filecache.go and leveldbcache/leveldbcache.go. gzip, JSON
-- and the database are foreign. The file system is a map from paths to contents, and fails as its
-- `faults` say; a write that fails leaves what it wrote. `defer f.Close()` changes nothing here.
pub mod FileCache
pub mod LevelDb
pub mod Rounds
use scrapemate.Prelude.{ℕ, String, Option, none, some, List, []}
use scrapemate.Errors.{Error, Result, ok, err, unless, ◌>>=◌}
use scrapemate.Response.{Response}

abbrev pub Bytes : Type 0
Bytes = List ℕ

-- compress/gzip: what is written and closed, with the stream that comes of it; a reader of a
-- stream, and what it reads.
pub record Gzip : Type 0 where
  pub write_error : Bytes → Option Error
  pub close_error : Bytes → Option Error
  pub stream : Bytes → Bytes
  pub new_reader : Bytes → Result (Unit {0})
  pub read_all : Bytes → Result Bytes

-- encoding/json, for a response.
pub record Json (V : Type 0) : Type 0 where
  pub marshal : Response V → Result Bytes
  pub unmarshal : Bytes → Result (Response V)

module _ (gzip : Gzip) where
  unfoldable pub compress : Bytes → Result Bytes
  compress bytes = do
    written ← unless (gzip.write_error bytes)
    closed ← unless (gzip.close_error bytes)
    ok (gzip.stream bytes)

  unfoldable pub decompress : Bytes → Result Bytes
  decompress bytes = do r ← gzip.new_reader bytes; gzip.read_all bytes
