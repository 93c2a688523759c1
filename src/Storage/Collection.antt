-- ===== src/Storage/Collection.antt =====
-- `Collection` of storage/collection.rs: writes and reads over the shards. A write leaves the
-- shards and the peers in a new state, whether it succeeds or not; `none` is a panic.
pub mod Info
pub mod Writes
pub mod Reads
pub mod ById
pub mod ReadBack
pub mod Quorum
pub mod Success
pub mod Keeps
pub mod Sound
pub mod ReadAll
pub mod LocalFirst
use smoldb.Prelude.{
  ℕ, ◌+◌, String, List, [], ◌∷◌, map, Option, none, some, ◌>>=◌, Result, ok, err, is_ok, and_then,
  ◌++◌, Bool, true, false, HashMap, lookup, insert, collect, nat_eq, ◌==◌, min, ltb, count_if,
  filter_map, length, format, if◌then◌else◌,
}
use Prim.Native.Nat.{compare, Ordering}
use Prim.Native.String
use smoldb.Decimal.{show}
use smoldb.Types.{FilePath, ShardId, CollectionName}
use smoldb.Storage.Error.{StorageError, CollectionError, CollectionResult, show_collection_error}
use smoldb.Storage.Point.{PointId, Point, point_id_eq}
use smoldb.Storage.LocalShard
use smoldb.Storage.RemoteShard
use smoldb.Storage.PointOrder.{insert_all}
use smoldb.Storage.Replicas.{
  ReplicaSet, ReplicaHolder, num_replicas, execute_cluster_operation, select_shards,
  get_replica_set,
}
use smoldb.External.{Env}

pub record CollectionConfig : Type 0 where
  pub params : String

pub record Collection (D R : Type 0) : Type 0 where
  pub id : CollectionName
  pub config : CollectionConfig
  pub replica_holder : ReplicaHolder D R
  pub path : FilePath

-- `DEFAULT_CONSISTENCY_FACTOR`
abbrev pub default_consistency_factor : ℕ
default_consistency_factor = 2

-- The checks on the results of one shard. `split_first` panics on no results.
unfoldable pub judge :
    List (CollectionResult (Unit {0})) → Bool → ℕ → ShardId → Option (CollectionResult (Unit {0}))
judge [] local_only replicas shard_id = none
judge (err e ∷ results) local_only replicas shard_id = some (
    err (
      CollectionError.service_error (
        format (
          "Failed to upsert points in local shard "
          ∷ show shard_id
          ∷ ": "
          ∷ show_collection_error e
          ∷ []))))
judge (ok u ∷ results) local_only replicas shard_id =
    let successes = count_if is_ok (ok u ∷ results) in
    let desired = if local_only then 1 else min replicas default_consistency_factor in
    if ltb successes desired
    then some (
        err (
          CollectionError.service_error (
            format (
              "Failed to upsert points in shard "
              ∷ show shard_id
              ∷ ": only "
              ∷ show successes
              ∷ " out of "
              ∷ show replicas
              ∷ " replicas succeeded"
              ∷ []))))
    else some (ok tt)

-- the answers of the replicas one after another, or the first error
unfoldable pub flatten_results :
    {A : Type 0} → List (CollectionResult (List A)) → CollectionResult (List A)
flatten_results [] = ok []
flatten_results (err e ∷ results) = err e
flatten_results (ok xs ∷ results) = elim (flatten_results results) [
  | err e ↦ err e
  | ok ys ↦ ok (xs ++ ys)
]

module _ (env : Env) where
  open env use {Value, Db, Ring, Net, arrange}

  abbrev pub Shards : Type 0
  Shards = HashMap ShardId (ReplicaSet Db)

  -- the operation on one shard
  unfoldable pub upsert_replicas :
      ReplicaSet Db
      → List (Point Value)
      → Bool
      → Net
      → Option (List (CollectionResult (Unit {0})) × ReplicaSet Db × Net)
  upsert_replicas set points local_only net =
      execute_cluster_operation (λ local. LocalShard.upsert_points env local points)
        (λ remote n. RemoteShard.upsert_points env remote points n) set local_only net

  -- one round of the loop of `upsert_points`
  unfoldable pub upsert_shard :
      HashMap PointId (Point Value)
      → Bool
      → ShardId
      → List PointId
      → Shards
      → Net
      → Option (CollectionResult (Unit {0}) × Shards × Net)
  upsert_shard points_map local_only shard_id pids shards net = elim (lookup shard_id shards) [
    | none ↦ some (
      err (
          CollectionError.storage_error
            (StorageError.bad_input (format ("Shard " ∷ show shard_id ∷ " not found" ∷ [])))),
      shards,
      net,
    )
    | some set ↦ (do
      let points = filter_map (λ pid. lookup pid points_map) pids
      (results, set', net') ← upsert_replicas set points local_only net
      verdict ← judge results local_only (num_replicas set) shard_id
      some (verdict, insert shard_id set' shards, net'))
  ]

  unfoldable pub upsert_groups :
      HashMap PointId (Point Value)
      → Bool
      → HashMap ShardId (List PointId)
      → Shards
      → Net
      → Option (CollectionResult (Unit {0}) × Shards × Net)
  upsert_groups points_map local_only [] shards net = some (ok tt, shards, net)
  upsert_groups points_map local_only ((shard_id, pids) ∷ groups) shards net = do
    (verdict, shards', net') ← upsert_shard points_map local_only shard_id pids shards net
    elim verdict [
      | err e ↦ some (err e, shards', net')
      | ok _ ↦ upsert_groups points_map local_only groups shards' net'
    ]

  abbrev pub with_shards : Collection Db Ring → Shards → Collection Db Ring
  with_shards c shards = record c { replica_holder = record c.replica_holder { shards = shards } }

  unfoldable pub upsert_points :
      Collection Db Ring
      → List (Point Value)
      → Bool
      → Net
      → Option (CollectionResult (Unit {0}) × Collection Db Ring × Net)
  upsert_points c points local_only net =
      let holder = c.replica_holder in
      let points_map = collect (map (λ p. (p.id, p)) points) [] in
      elim (select_shards env holder (map (λ p. p.id) points)) [
        | err e ↦ some (err (CollectionError.storage_error e), c, net)
        | ok groups ↦ (do
          (verdict, shards, net') ←
              upsert_groups points_map local_only (arrange groups) holder.shards net
          some (verdict, with_shards c shards, net'))
      ]

  -- the read of all points of one shard, from every replica
  unfoldable pub read_replicas :
      ReplicaSet Db → Bool → Net → Option (CollectionResult (List (Point Value)) × Net)
  read_replicas set local_only net = do
    (results, set', net') ←
        execute_cluster_operation (λ local. (LocalShard.get_points env local none, local))
          (λ remote n. RemoteShard.get_points env remote none n) set local_only net
    some (flatten_results results, net')

  abbrev pub is_desired : Option ShardId → ShardId → Bool
  is_desired none current = true
  is_desired (some desired) current = current == desired

  -- the loop over the shards of a read of all points
  unfoldable pub read_shards :
      Option ShardId
      → Bool
      → Shards
      → List (Point Value)
      → Net
      → Option (CollectionResult (List (Point Value)) × Net)
  read_shards shard_id local_only [] all_points net = some (ok all_points, net)
  read_shards shard_id local_only ((current, set) ∷ shards) all_points net =
      elim (is_desired shard_id current) [
        | false ↦ read_shards shard_id local_only shards all_points net
        | true ↦ (do
          (results, net') ← read_replicas set local_only net
          elim results [
            | err e ↦ some (err e, net')
            | ok points ↦ read_shards shard_id local_only shards (insert_all points all_points) net'
          ])
      ]

  -- the read of some points of one shard, from the local replica
  unfoldable pub read_local :
      ReplicaHolder Db Ring → ShardId → List PointId → CollectionResult (List (Point Value))
  read_local holder shard_id pids = elim (get_replica_set holder shard_id) [
    | err e ↦ err (CollectionError.storage_error e)
    | ok set ↦ LocalShard.get_points env set.local (some pids)
  ]

  unfoldable pub read_groups :
      ReplicaHolder Db Ring → HashMap ShardId (List PointId) → CollectionResult (List (Point Value))
  read_groups holder [] = ok []
  read_groups holder ((shard_id, pids) ∷ groups) =
      and_then (read_local holder shard_id pids)
        λ points. and_then (read_groups holder groups) λ rest. ok (points ++ rest)

  unfoldable pub get_points :
      Collection Db Ring
      → Option (List PointId)
      → Option ShardId
      → Bool
      → Net
      → Option (CollectionResult (List (Point Value)) × Net)
  get_points c none shard_id local_only net =
      read_shards shard_id local_only c.replica_holder.shards [] net
  get_points c (some pids) (some shard_id) local_only net =
      some (read_local c.replica_holder shard_id pids, net)
  get_points c (some pids) none local_only net = elim (select_shards env c.replica_holder pids) [
    | err e ↦ some (err (CollectionError.storage_error e), net)
    | ok groups ↦ some (read_groups c.replica_holder (arrange groups), net)
  ]
