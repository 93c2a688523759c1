-- ===== src/Storage/Replicas.antt =====
-- `ReplicaSet` and `ReplicaHolder` of storage/replicas/mod.rs.
pub mod Routing
pub mod Execute
pub mod Peers
pub mod RingRoutes
use smoldb.Prelude.{
  ℕ, ◌+◌, String, List, [], ◌∷◌, ◌++◌, map, Option, none, some, ◌>>=◌, Result, ok, err, ok_or, Bool,
  true, false, HashMap, lookup, insert, nat_eq, ◌==◌, ◌||◌, length, format, or_empty, if◌then◌else◌,
}
use smoldb.Decimal.{show}
use smoldb.Types.{ShardId, PeerId, CollectionName}
use smoldb.Storage.Error.{StorageError, CollectionResult}
use smoldb.Storage.Point.{PointId}
use smoldb.Storage.LocalShard.{LocalShard}
use smoldb.Storage.RemoteShard.{RemoteShard, new_remote}
use smoldb.External.{Env}

pub record ReplicaSet (D : Type 0) : Type 0 where
  pub local : LocalShard D
  pub remotes : List RemoteShard
  pub collection_id : CollectionName

pub record ReplicaHolder (D R : Type 0) : Type 0 where
  pub shards : HashMap ShardId (ReplicaSet D)
  pub ring : R

module _ {D : Type 0} where
  -- `ReplicaSet::new`
  unfoldable pub new_replica_set : LocalShard D → List PeerId → CollectionName → ReplicaSet D
  new_replica_set local remotes collection_id = record {
    local = local;
    remotes = map (new_remote local.id collection_id) remotes;
    collection_id = collection_id;
  }

  unfoldable pub num_replicas : ReplicaSet D → ℕ
  num_replicas set = length set.remotes + 1

-- `shard.execute_cluster_operation(operation, local_only)`. The closure `operation` is called on
-- a shard behind the trait `ShardOperationTrait`, so it is given by its two instances.
module _ {D N A : Type 0} (on_local : LocalShard D → CollectionResult A × LocalShard D)
    (on_remote : RemoteShard → N → Option (CollectionResult A × N)) where
  -- the loop over the remote shards, which keeps their errors
  unfoldable pub execute_remotes : List RemoteShard → N → Option (List (CollectionResult A) × N)
  execute_remotes [] net = some ([], net)
  execute_remotes (remote ∷ remotes) net = do
    (result, net') ← on_remote remote net
    (results, net'') ← execute_remotes remotes net'
    some (result ∷ results, net'')

  unfoldable pub execute_cluster_operation :
      ReplicaSet D → Bool → N → Option (List (CollectionResult A) × ReplicaSet D × N)
  execute_cluster_operation set local_only net =
      let (local_result, local) = on_local set.local in
      let set' = record set { local = local } in
      if local_only then some (local_result ∷ [], set', net) else do
        (results, net') ← execute_remotes set.remotes net
        some (local_result ∷ results, set', net')

-- `remotes.iter().any(|r| r.peer_id == peer_id)`
unfoldable pub has_peer : PeerId → List RemoteShard → Bool
has_peer peer [] = false
has_peer peer (remote ∷ remotes) = remote.peer_id == peer || has_peer peer remotes

module _ {D : Type 0} where
  -- one round of the loop of `add_remote_shards`
  unfoldable pub add_remote : PeerId → CollectionName → ShardId → ReplicaSet D → ReplicaSet D
  add_remote peer collection shard_id set =
      if has_peer peer set.remotes
      then set
      else record set { remotes = set.remotes ++ new_remote shard_id collection peer ∷ [] }

  unfoldable pub add_to_each :
      PeerId → CollectionName → HashMap ShardId (ReplicaSet D) → HashMap ShardId (ReplicaSet D)
  add_to_each peer collection [] = []
  add_to_each peer collection ((shard_id, set) ∷ sets) =
      (shard_id, add_remote peer collection shard_id set) ∷ add_to_each peer collection sets

  -- it has no error path
  unfoldable pub add_remote_shards :
      {R : Type 0} → PeerId → CollectionName → ReplicaHolder D R → ReplicaHolder D R
  add_remote_shards peer collection holder = record holder {
    shards = add_to_each peer collection holder.shards;
  }

  unfoldable pub get_replica_set :
      {R : Type 0} → ReplicaHolder D R → ShardId → Result StorageError (ReplicaSet D)
  get_replica_set holder shard_id =
      ok_or (StorageError.bad_input (format ("Shard " ∷ show shard_id ∷ " not found" ∷ [])))
        (lookup shard_id holder.shards)

-- `entry(shard_id).or_insert_with(Vec::new).push(id)`
unfoldable pub push :
    ShardId → PointId → HashMap ShardId (List PointId) → HashMap ShardId (List PointId)
push shard_id pid groups = insert shard_id (or_empty (lookup shard_id groups) ++ pid ∷ []) groups

module _ (env : Env) where
  open env use {Db, Ring, ring_new, ring_add, ring_get}

  unfoldable pub add_nodes : Ring → HashMap ShardId (ReplicaSet Db) → Ring
  add_nodes ring [] = ring
  add_nodes ring ((shard_id, set) ∷ shards) = add_nodes (ring_add ring shard_id) shards

  -- `ReplicaHolder::new`
  unfoldable pub new_holder : HashMap ShardId (ReplicaSet Db) → ReplicaHolder Db Ring
  new_holder shards = record { shards = shards; ring = add_nodes ring_new shards }

  -- `ReplicaHolder::dummy`
  unfoldable pub dummy_holder : ReplicaHolder Db Ring
  dummy_holder = record { shards = []; ring = ring_new }

  -- the loop of `select_shards`
  unfoldable pub select_onto :
      Ring
      → HashMap ShardId (List PointId)
      → List PointId
      → Result StorageError (HashMap ShardId (List PointId))
  select_onto ring groups [] = ok groups
  select_onto ring groups (pid ∷ pids) = elim (ring_get ring pid) [
    | none ↦ err (StorageError.service_error "No shards found")
    | some shard_id ↦ select_onto ring (push shard_id pid groups) pids
  ]

  unfoldable pub select_shards :
      ReplicaHolder Db Ring → List PointId → Result StorageError (HashMap ShardId (List PointId))
  select_shards holder pids = select_onto holder.ring [] pids
