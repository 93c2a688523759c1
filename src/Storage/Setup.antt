-- ===== src/Storage/Setup.antt =====
-- The creation and deletion of what is on the disk: `Segment::create` of storage/segment.rs,
-- `LocalShard::init` of storage/replicas/local_shard.rs, and `CollectionConfig::save`,
-- `Collection::init` and `Collection::delete` of storage/collection.rs. `none` is a panic of an
-- `expect`.
use smoldb.Prelude.{
  String, [], ◌∷◌, Option, none, some, ◌>>=◌, Result, ok, err, map_err, format, if◌then◌else◌,
}
use smoldb.Types.{FilePath, ShardId, CollectionName, join}
use smoldb.Storage.Error.{StorageError}
use smoldb.Storage.Segment.{Segment, fails}
use smoldb.Storage.LocalShard.{LocalShard}
use smoldb.Storage.Replicas.{new_replica_set, new_holder}
use smoldb.Storage.Collection.{Collection, CollectionConfig}
use smoldb.External.{Env}

abbrev pub collection_config_file : String
collection_config_file = "config.json"

abbrev pub segments_dir : String
segments_dir = "segments"

-- `r.expect(…)`
abbrev pub expect : {E A : Type 0} → Result E A → Option A
expect (ok a) = some a
expect (err e) = none

module _ (env : Env) where
  open env use {
    Db, Ring, Disk, path_exists, create_dir_all, remove_dir_all, create_file, write_all,
    config_to_text, open_db,
  }

  -- `Segment::create`
  unfoldable pub create_segment : FilePath → Disk → Option (Result StorageError (Segment Db) × Disk)
  create_segment dir disk =
      let path = join dir "0" in
      let (made, disk') = create_dir_all disk path in
      do
        done ← expect made
        let (opened, disk'') = open_db disk' path
        elim opened [
          | err e ↦ some (err (fails "Failed to open segment database" e), disk'')
          | ok db ↦ some (ok (record { path = path; db = db }), disk'')
        ]

  -- `LocalShard::init`
  unfoldable pub init_shard : FilePath → ShardId → Disk → Option (LocalShard Db × Disk)
  init_shard path id disk =
      let dir = join path segments_dir in
      let (made, disk') = create_dir_all disk dir in
      do
        done ← expect made
        (created, disk'') ← create_segment dir disk'
        segment ← expect created
        some (record { id = id; path = path; segments = (0, segment) ∷ [] }, disk'')

  -- `CollectionConfig::save`
  unfoldable pub save_config :
      CollectionConfig → FilePath → Disk → Result StorageError (Unit {0}) × Disk
  save_config config dir disk =
      let path = join dir collection_config_file in
      elim (config_to_text config.params) [
        | err e ↦ (
          err (
              StorageError.bad_input
                (format ("Failed to serialize collection config to JSON: " ∷ e ∷ []))),
          disk,
        )
        | ok text ↦
            let (made, disk') = create_file disk path in
            elim made [
              | err e ↦ (err (fails "Failed to create collection config file" e), disk')
              | ok _ ↦
                  let (written, disk'') = write_all disk' path text in
                  (map_err (fails "Failed to write collection config") written, disk'')
            ]
      ]

  -- `Collection::init`: two shards, with no remote replica
  unfoldable pub init_collection :
      CollectionName
      → CollectionConfig
      → FilePath
      → Disk
      → Option (Result StorageError (Collection Db Ring) × Disk)
  init_collection id config path disk =
      let (saved, disk') = save_config config path disk in
      elim saved [
        | err e ↦ some (err e, disk')
        | ok _ ↦ (do
          (shard0, disk0) ← init_shard (join path "0") 0 disk'
          (shard1, disk1) ← init_shard (join path "1") 1 disk0
          let shards = (0, new_replica_set shard0 [] id) ∷ (1, new_replica_set shard1 [] id) ∷ []
          some (
            ok (record {
              id = id;
              config = config;
              replica_holder = new_holder env shards;
              path = path;
            }),
            disk1,
          ))
      ]

  -- `Collection::delete`
  unfoldable pub delete : Collection Db Ring → Disk → Result StorageError (Unit {0}) × Disk
  delete c disk =
      if path_exists disk c.path
      then (let (gone, disk') = remove_dir_all disk c.path in
          (map_err (fails "Failed to delete collection") gone, disk'))
      else (err (StorageError.bad_input "Collection directory does not exist"), disk)
