-- ===== src/Storage/LocalShard/Writes.antt =====
-- What is read from a local shard after points were upserted.
use smoldb.Prelude.{
  ◌≡◌, refl, inl, inr, List, Option, none, some, Result, ok, err, map_err, arith, lookup,
  lookup-insert, nat_eq, Option-cases, All,
}
use smoldb.Storage.Error.{CollectionError}
use smoldb.Storage.Point.{PointId, Point, into_string}
use smoldb.Storage.Segment
use smoldb.Storage.Segment.{Segment, read_one}
use smoldb.Storage.Segment.Writes.{Read, RoundTrips, present, last_under, read_one-insert_points}
use smoldb.Storage.LocalShard.{LocalShard, upsert_points}
use smoldb.External.{Env, SledLaws}

module _ (env : Env) where
  open env use {Value, Db}

  -- What a shard holds under an id, if it has a segment.
  unfoldable pub shard_read : LocalShard Db → PointId → Option (Read env)
  shard_read shard pid = elim (lookup 0 shard.segments) [
    | none ↦ none
    | some segment ↦ some (read_one env segment.db pid)
  ]

  -- What is read under an id once the points were written over `old`.
  abbrev pub overwrite : PointId → List (Point Value) → Read env → Read env
  overwrite pid points = last_under (into_string pid) points (present env)

  map_err-ok :
      (r : Result _ (Unit {0})) → map_err CollectionError.storage_error r ≡ ok tt → r ≡ ok tt
  map_err-ok (ok u) e = refl
  map_err-ok (err x) e = absurd (ground arith)

  pub shard_read-upsert_points :
      (laws : SledLaws env) (shard shard' : LocalShard Db) (points : List (Point Value))
      (pid : PointId)
      → All (RoundTrips env) points
      → upsert_points env shard points ≡ (ok tt, shard')
      → (r : Read env) × (shard_read shard pid ≡ some r)
        × (shard_read shard' pid ≡ some (overwrite pid points r))
  unfolding upsert_points shard_read
  shard_read-upsert_points laws shard shard' points pid trips e =
      elim (Option-cases (lookup 0 shard.segments)) [
        | inl q ↦ absurd (ground arith)
        | inr (segment, q) ↦
            let step = Segment.insert_points env segment points in
            let fine : step.0 ≡ ok tt = map_err-ok step.0 (ground arith) in
            let read =
              read_one-insert_points env laws segment step.1 points pid trips (ground arith) in
            let after = lookup-insert 0 0 step.1 shard.segments in
            (read_one env segment.db pid, ground arith, ground arith)
      ]
