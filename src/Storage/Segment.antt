-- ===== src/Storage/Segment.antt =====
-- `Segment` of storage/segment.rs: a database of points, one text under each key.
pub mod Writes
pub mod Keys
pub mod Concurrent
use smoldb.Prelude.{
  ℕ, String, List, [], ◌∷◌, ◌++◌, Option, none, some, Result, ok, err, map_err, and_then, format,
  push_some,
}
use smoldb.Types.{FilePath}
use smoldb.Storage.Error.{StorageError, service_error}
use smoldb.Storage.Point.{PointId, Point, into_string}
use smoldb.External.{Env}

pub record Segment (D : Type 0) : Type 0 where
  pub path : FilePath
  pub db : D

abbrev pub fails : String → String → StorageError
fails what e = StorageError.service_error (format (what ∷ ": " ∷ e ∷ []))

module _ (env : Env) where
  open env use {
    Value, Text, point_to_text, text_to_point, Db, db_insert, db_flush, db_get, db_iter, db_len,
  }

  -- one round of the loop of `insert_points`
  unfoldable pub insert_point : Db → Point Value → Result StorageError (Unit {0}) × Db
  insert_point db point = elim (point_to_text point) [
    | err e ↦ (err (fails "Failed to serialize point" e), db)
    | ok value ↦
        let (inserted, db') = db_insert db (into_string point.id) value in
        (map_err (fails "Failed to insert point into segment db") inserted, db')
  ]

  -- the loop; an error ends it and leaves what was written
  unfoldable pub insert_each : Db → List (Point Value) → Result StorageError (Unit {0}) × Db
  insert_each db [] = (ok tt, db)
  insert_each db (point ∷ points) =
      let (inserted, db') = insert_point db point in
      elim inserted [ err e ↦ (err e, db') | ok _ ↦ insert_each db' points ]

  unfoldable pub flush : Db → Result StorageError (Unit {0}) × Db
  flush db =
      let (flushed, db') = db_flush db in
      (map_err (fails "Failed to flush segment db") flushed, db')

  unfoldable pub insert_points :
      Segment Db → List (Point Value) → Result StorageError (Unit {0}) × Segment Db
  insert_points segment points =
      let (inserted, db) = insert_each segment.db points in
      elim inserted [
        | err e ↦ (err e, record segment { db = db })
        | ok _ ↦ let (flushed, db') = flush db in (flushed, record segment { db = db' })
      ]

  unfoldable pub parse_point : Text → Result StorageError (Point Value)
  parse_point value = map_err (fails "Failed to deserialize point") (text_to_point value)

  -- the loop over `self.db.iter()`
  unfoldable pub read_all :
      List (Result String (String × Text)) → Result StorageError (List (Point Value))
  read_all [] = ok []
  read_all (err e ∷ rest) = err (fails "Failed to iterate over segment db" e)
  read_all (ok (key, value) ∷ rest) =
      and_then (parse_point value) λ point. and_then (read_all rest) λ points. ok (point ∷ points)

  -- one round of the loop over the ids: the point under the key, if there is one
  unfoldable pub read_one : Db → PointId → Result StorageError (Option (Point Value))
  read_one db pid =
      and_then (map_err (fails "Failed to get point from segment db") (db_get db (into_string pid)))
        λ found. elim found [
          | none ↦ ok none
          | some value ↦ and_then (parse_point value) λ point. ok (some point)
        ]

  unfoldable pub read_each : Db → List PointId → Result StorageError (List (Point Value))
  read_each db [] = ok []
  read_each db (pid ∷ pids) =
      and_then (read_one db pid)
        λ found. and_then (read_each db pids) λ points. ok (push_some found points)

  unfoldable pub get_points :
      Segment Db → Option (List PointId) → Result StorageError (List (Point Value))
  get_points segment none = read_all (db_iter segment.db)
  get_points segment (some pids) = read_each segment.db pids

  unfoldable pub count_points : Segment Db → ℕ
  count_points segment = db_len segment.db
