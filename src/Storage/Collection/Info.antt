-- ===== src/Storage/Collection/Info.antt =====
-- `CollectionInfo` of storage/collection.rs.
use smoldb.Prelude.{ℕ, ◌+◌, [], ◌∷◌, HashMap, nat_eq, length}
use smoldb.Types.{ShardId, CollectionName}
use smoldb.Storage.Point.{point_id_eq}
use smoldb.Storage.Replicas.{ReplicaSet}
use smoldb.Storage.Collection.{Collection, CollectionConfig}

pub record CollectionInfo : Type 0 where
  pub id : CollectionName
  pub config : CollectionConfig
  pub shard_count : ℕ
  pub segment_count : ℕ

module _ {D : Type 0} where
  unfoldable pub count_segments : HashMap ShardId (ReplicaSet D) → ℕ
  count_segments [] = 0
  count_segments ((shard_id, set) ∷ shards) = length set.local.segments + count_segments shards

  -- `CollectionInfo::from`
  unfoldable pub collection_info : {R : Type 0} → Collection D R → CollectionInfo
  collection_info c = record {
    id = c.id;
    config = c.config;
    shard_count = length c.replica_holder.shards;
    segment_count = count_segments c.replica_holder.shards;
  }
