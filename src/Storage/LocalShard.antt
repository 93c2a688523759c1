-- ===== src/Storage/LocalShard.antt =====
-- `LocalShard` of storage/replicas/local_shard.rs: the segments of a shard, of which segment 0 takes
-- all points.
pub mod Writes
use smoldb.Prelude.{
  ℕ, List, [], ◌∷◌, Option, none, some, Result, ok, err, map_err, HashMap, lookup, insert, nat_eq,
  format,
}
use smoldb.Types.{FilePath, SegmentId, ShardId}
use smoldb.Storage.Error.{
  StorageError, CollectionError, CollectionResult, show_storage_error, service_error, storage_error,
}
use smoldb.Storage.Point.{PointId, Point}
use smoldb.Storage.Segment
use smoldb.Storage.Segment.{Segment}
use smoldb.External.{Env}

pub record LocalShard (D : Type 0) : Type 0 where
  pub id : ShardId
  pub path : FilePath
  pub segments : HashMap SegmentId (Segment D)

module _ (env : Env) where
  open env use {Value, Db}

  abbrev pub read_failed : StorageError → CollectionError
  read_failed e = CollectionError.storage_error (
      StorageError.service_error
        (format ("Failed to get points from segment: " ∷ show_storage_error e ∷ [])))

  unfoldable pub get_points :
      LocalShard Db → Option (List PointId) → CollectionResult (List (Point Value))
  get_points shard pids = elim (lookup 0 shard.segments) [
    | some segment ↦ map_err read_failed (Segment.get_points env segment pids)
    | none ↦
        err (CollectionError.storage_error (StorageError.service_error "No segments available"))
  ]

  unfoldable pub upsert_points :
      LocalShard Db → List (Point Value) → CollectionResult (Unit {0}) × LocalShard Db
  upsert_points shard points = elim (lookup 0 shard.segments) [
    | some segment ↦
        let (inserted, segment') = Segment.insert_points env segment points in
        (
          map_err CollectionError.storage_error inserted,
          record shard { segments = insert 0 segment' shard.segments },
        )
    | none ↦ (err (CollectionError.service_error "No segments available"), shard)
  ]

  unfoldable pub count_points : LocalShard Db → ℕ
  count_points shard = elim (lookup 0 shard.segments) [
    | some segment ↦ Segment.count_points env segment
    | none ↦ 0
  ]
