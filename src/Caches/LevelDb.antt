-- ===== src/Caches/LevelDb.antt =====
-- LevelDBCache of leveldbcache.go. The database is a map, and fails as its `faults` say.
use scrapemate.Prelude.{String, Option, none, some, List, find, insert}
use scrapemate.Errors.{Error, foreign, Result, ok, err, ◌>>=◌, unless}
use scrapemate.Response.{Response}
use scrapemate.Caches.{Bytes, Json}

pub record DbFaults : Type 0 where
  pub open_file : String → Option Error
  pub get_error : String → Option Error
  pub put_error : String → Option Error

abbrev pub Db : Type 0
Db = List (String × Bytes)

module _ {V : Type 0} (json : Json V) (faults : DbFaults) where
  -- c.db.Get
  unfoldable pub db_get : String → Db → Result Bytes
  db_get key db = elim (find key db) [
    | none ↦ err (foreign "leveldb: not found")
    | some bytes ↦ do fine ← unless (faults.get_error key); ok bytes
  ]

  unfoldable pub db_put : String → Bytes → Db → Option Error × Db
  db_put key bytes db = elim (faults.put_error key) [
    | none ↦ (none, insert key bytes db)
    | some e ↦ (some e, db)
  ]

  unfoldable pub get : String → Db → Result (Response V)
  get key db = do bytes ← db_get key db; json.unmarshal bytes

  unfoldable pub set : String → Response V → Db → Option Error × Db
  set key value db = elim (json.marshal value) [
    | err e ↦ (some e, db)
    | ok bytes ↦ db_put key bytes db
  ]
