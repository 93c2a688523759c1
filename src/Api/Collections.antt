-- ===== src/Api/Collections.antt =====
-- api/collection.rs: the handlers for collections
use smoldb.Prelude.{
  ℕ, String, List, [], ◌∷◌, ◌++◌, map, Bool, Option, none, some, ◌>>=◌, Result, ok, err, HashMap,
  lookup, string_eq, length, format,
}
use smoldb.Types.{CollectionName, PeerId, ShardId}
use smoldb.Storage.Error.{StorageError, CollectionError, CollectionResult}
use smoldb.Storage.LocalShard
use smoldb.Storage.RemoteShard.{RemoteShard}
use smoldb.Storage.Replicas.{ReplicaSet}
use smoldb.Storage.Collection.{Collection}
use smoldb.Storage.Collection.Info.{CollectionInfo, collection_info}
use smoldb.Storage.Toc.{Toc, create_collection, delete_collection, perform_collection_meta_op}
use smoldb.Api.Helpers.{HttpResponse, time}
use smoldb.External.{Env}

pub record CollectionClusterLocalShard : Type 0 where
  pub shard_id : ShardId
  pub point_count : ℕ
  pub state : String

pub record CollectionClusterRemoteShard : Type 0 where
  pub peer_id : PeerId
  pub shard_id : ShardId
  pub state : String

pub record CollectionClusterInfo : Type 0 where
  pub peer_id : PeerId
  pub shard_count : ℕ
  pub local_shards : List CollectionClusterLocalShard
  pub remote_shards : List CollectionClusterRemoteShard

abbrev pub missing : CollectionName → CollectionError
missing name =
    CollectionError.service_error (format ("Collection: " ∷ name ∷ " doesn't exist" ∷ []))

abbrev pub remote_row : RemoteShard → CollectionClusterRemoteShard
remote_row remote = record { peer_id = remote.peer_id; shard_id = remote.id; state = "Active" }

unfoldable pub remote_rows :
    {D : Type 0} → HashMap ShardId (ReplicaSet D) → List CollectionClusterRemoteShard
remote_rows [] = []
remote_rows ((shard_id, set) ∷ shards) = map remote_row set.remotes ++ remote_rows shards

abbrev pub as_collection_error : {A : Type 0} → Result StorageError A → CollectionResult A
as_collection_error (ok a) = ok a
as_collection_error (err e) = err (CollectionError.storage_error e)

-- the `match res` of `delete_collection`
abbrev pub deleted : CollectionName → Result StorageError Bool → CollectionResult String
deleted name (ok done) = ok (format ("Collection '" ∷ name ∷ "' deleted successfully." ∷ []))
deleted name (err e) = err (CollectionError.storage_error e)

module _ (env : Env) where
  open env use {Db, Ring, Disk}

  abbrev pub local_row : ShardId × ReplicaSet Db → CollectionClusterLocalShard
  local_row (shard_id, set) = record {
    shard_id = shard_id;
    point_count = LocalShard.count_points env set.local;
    state = "Active";
  }

  -- `CollectionClusterInfo::from`
  unfoldable pub cluster_info : Collection Db Ring → CollectionClusterInfo
  cluster_info c =
      let shards = c.replica_holder.shards in
      record {
        peer_id = 0;
        shard_count = length shards;
        local_shards = map local_row shards;
        remote_shards = remote_rows shards;
      }

  unfoldable pub get_collections : Toc env → HttpResponse (List CollectionName)
  get_collections toc =
      time (ok (map (λ (e : CollectionName × Collection Db Ring). e.0) toc.collections))

  unfoldable pub get_collection : CollectionName → Toc env → HttpResponse CollectionInfo
  get_collection name toc = elim (lookup name toc.collections) [
    | some c ↦ time (ok (collection_info c))
    | none ↦ time (err (missing name))
  ]

  unfoldable pub get_collection_cluster_info :
      CollectionName → Toc env → HttpResponse CollectionClusterInfo
  get_collection_cluster_info name toc = elim (lookup name toc.collections) [
    | some c ↦ time (ok (cluster_info c))
    | none ↦ time (err (missing name))
  ]

  unfoldable pub create :
      CollectionName → String → Toc env → Disk → Option (HttpResponse Bool × Toc env × Disk)
  create name params toc disk = do
    (done, toc', disk') ← perform_collection_meta_op env toc (create_collection name params) disk
    some (time (as_collection_error done), toc', disk')

  unfoldable pub delete :
      CollectionName → Toc env → Disk → Option (HttpResponse String × Toc env × Disk)
  delete name toc disk = do
    (done, toc', disk') ← perform_collection_meta_op env toc (delete_collection name) disk
    some (time (deleted name done), toc', disk')
