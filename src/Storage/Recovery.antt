-- ===== src/Storage/Recovery.antt =====
-- What a node finds on its disk when it starts: `Segment::load` of storage/segment.rs,
-- `LocalShard::load` of storage/replicas/local_shard.rs, `Collection::load` of
-- storage/collection.rs and `TableOfContent::load` of storage/toc.rs. `none` is a panic of an
-- `expect`. A directory is listed as it is when its listing begins.
pub mod Keeps
pub mod Restored
pub mod Load
pub mod Table
pub mod Tree
pub mod Clear
pub mod Listing
pub mod Tidy
pub mod Reload
pub mod Made
pub mod Created
pub mod Restart
use smoldb.Prelude.{
  ℕ, String, List, [], ◌∷◌, Bool, true, false, Option, none, some, ◌>>=◌, Result, ok, err, map_err,
  and_then, HashMap, insert, collect, nat_eq, string_eq, filter_map, format, if◌then◌else◌,
}
use smoldb.Types.{FilePath, SegmentId, ShardId, CollectionName, join, display}
use smoldb.Decimal.{parse_uint, u32_limit, u64_limit}
use smoldb.Storage.Error.{StorageError}
use smoldb.Storage.Segment.{Segment, fails}
use smoldb.Storage.LocalShard.{LocalShard}
use smoldb.Storage.Replicas.{ReplicaSet, new_replica_set, new_holder}
use smoldb.Storage.Collection.{Collection, CollectionConfig}
use smoldb.Storage.Setup.{collection_config_file, segments_dir, expect}
use smoldb.Storage.Toc.{TableOfContent, Toc}
use smoldb.Channels.{ChannelService}
use smoldb.External.{Env}

-- `path.file_name()`, of a path that does not end in `..`
unfoldable pub file_name : FilePath → Option String
file_name [] = none
file_name (name ∷ []) = some name
file_name (parent ∷ name ∷ path) = file_name (name ∷ path)

-- `Path::new("storage").join(COLLECTIONS_DIR)`
unfoldable pub collections_root : FilePath
unfolding join
collections_root = join ("storage" ∷ []) "collections"

-- the id of a segment from an entry of the directory; an entry that cannot be read, or that has
-- another name, is passed over
unfoldable pub segment_entry : Result String FilePath → Option (SegmentId × FilePath)
segment_entry (err e) = none
segment_entry (ok path) = do name ← file_name path; id ← parse_uint u64_limit name; some (id, path)

unfoldable pub shard_dir_id : FilePath → Result StorageError ShardId
shard_dir_id path = elim (do name ← file_name path; parse_uint u32_limit name) [
  | some id ↦ ok id
  | none ↦ err (StorageError.service_error "Couldn't parse shard id from shard directory")
]

module _ (env : Env) where
  open env use {
    Db, Ring, Uri, Channel, Disk, path_exists, is_dir, create_dir_all, read_dir, File, open_file,
    config_from_reader, debug_path, open_db, arrange_paths,
  }

  -- `Segment::load`
  unfoldable pub load_segment : FilePath → Disk → Option (Result StorageError (Segment Db) × Disk)
  load_segment path disk =
      if path_exists disk path
      then (let (opened, disk') = open_db disk path in
          do db ← expect opened; some (ok (record { path = path; db = db }), disk'))
      else some (
        err (
            StorageError.service_error
              (format ("Segment path does not exist: " ∷ debug_path path ∷ []))),
        disk,
      )

  -- the loop over the segments
  unfoldable pub load_segments :
      HashMap SegmentId FilePath
      → HashMap SegmentId (Segment Db)
      → Disk
      → Option (Result StorageError (HashMap SegmentId (Segment Db)) × Disk)
  load_segments [] segments disk = some (ok segments, disk)
  load_segments ((id, path) ∷ paths) segments disk = do
    (loaded, disk') ← load_segment path disk
    elim loaded [
      | err e ↦ some (err e, disk')
      | ok segment ↦ load_segments paths (insert id segment segments) disk'
    ]

  -- `LocalShard::load`
  unfoldable pub load_shard : FilePath → Disk → Option (Result StorageError (LocalShard Db) × Disk)
  load_shard path disk =
      let dir = join path segments_dir in
      let (made, disk1) = create_dir_all disk dir in
      do
        done ← expect made
        entries ← expect (read_dir disk1 dir)
        let segment_paths = collect (filter_map segment_entry entries) []
        elim (shard_dir_id path) [
          | err e ↦ some (err e, disk1)
          | ok id ↦ (do
            (loaded, disk2) ← load_segments (arrange_paths segment_paths) [] disk1
            elim loaded [
              | err e ↦ some (err e, disk2)
              | ok segments ↦
                  some (ok (record { id = id; path = path; segments = segments }), disk2)
            ])
        ]

  -- the loop over the entries of a collection's directory
  unfoldable pub load_shards :
      CollectionName
      → List (Result String FilePath)
      → HashMap ShardId (ReplicaSet Db)
      → Disk
      → Option (Result StorageError (HashMap ShardId (ReplicaSet Db)) × Disk)
  load_shards collection [] replicas disk = some (ok replicas, disk)
  load_shards collection (err e ∷ entries) replicas disk = none
  load_shards collection (ok path ∷ entries) replicas disk = elim (is_dir disk path) [
    | false ↦ load_shards collection entries replicas disk
    | true ↦ (do
      (loaded, disk') ← load_shard path disk
      elim loaded [
        | err e ↦ some (err e, disk')
        | ok shard ↦
            load_shards collection entries
              (insert shard.id (new_replica_set shard [] collection) replicas) disk'
      ])
  ]

  unfoldable pub load_config : FilePath → Disk → Result StorageError CollectionConfig
  load_config path disk =
      and_then (map_err (fails "Failed to open collection config file") (open_file disk path))
        λ file.
          and_then
            (map_err
              (λ e.
                StorageError.bad_input
                  (format ("Failed to parse collection config JSON: " ∷ e ∷ [])))
              (config_from_reader file))
            λ params. ok (record { params = params })

  abbrev pub load_failed :
      StorageError → Disk → Option (Result StorageError (Collection Db Ring) × Disk)
  load_failed e disk = some (err e, disk)

  -- `Collection::load`
  unfoldable pub load_collection :
      CollectionName → FilePath → Disk → Option (Result StorageError (Collection Db Ring) × Disk)
  load_collection id path disk =
      let config_path = join path collection_config_file in
      if path_exists disk config_path
      then elim (load_config config_path disk) [
        | err e ↦ load_failed e disk
        | ok config ↦ elim (read_dir disk path) [
          | err e ↦ load_failed (fails "Failed to read collection directory" e) disk
          | ok entries ↦ (do
            (loaded, disk') ← load_shards id entries [] disk
            elim loaded [
              | err e ↦ load_failed e disk'
              | ok replicas ↦ some (
                ok (record {
                  id = id;
                  config = config;
                  replica_holder = new_holder env replicas;
                  path = path;
                }),
                disk',
              )
            ])
        ]
      ]
      else load_failed
          (StorageError.bad_input
            (format ("Collection config file does not exist at path: " ∷ display config_path ∷ [])))
          disk

  -- the loop over the entries of the directory of collections
  unfoldable pub load_collections :
      List (Result String FilePath)
      → HashMap CollectionName (Collection Db Ring)
      → Disk
      → Option (HashMap CollectionName (Collection Db Ring) × Disk)
  load_collections [] collections disk = some (collections, disk)
  load_collections (err e ∷ entries) collections disk = none
  load_collections (ok path ∷ entries) collections disk =
      elim (path_exists disk (join path collection_config_file)) [
        | false ↦ load_collections entries collections disk
        | true ↦ (do
          name ← file_name path
          (loaded, disk') ← load_collection name path disk
          c ← expect loaded
          load_collections entries (insert c.id c collections) disk')
      ]

  -- `TableOfContent::load`
  unfoldable pub load : ChannelService Uri Channel → Disk → Option (Toc env × Disk)
  load channel_service disk =
      let (made, disk1) = create_dir_all disk collections_root in
      do
        done ← expect made
        entries ← expect (read_dir disk1 collections_root)
        (collections, disk2) ← load_collections entries [] disk1
        some (record { collections = collections; channel_service = channel_service }, disk2)
