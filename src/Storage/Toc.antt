-- ===== src/Storage/Toc.antt =====
-- `TableOfContent` of storage/toc.rs: the collections of the node, by name. Each operation is one
-- step here; Tasks has creations that run at the same time.
pub mod Points
pub mod Lifecycle
pub mod Tasks
use smoldb.Prelude.{
  String, List, [], ◌∷◌, Bool, true, Option, none, some, ◌>>=◌, Result, ok, err, map_err, HashMap,
  lookup, insert, remove, contains_key, string_eq, format, if◌then◌else◌,
}
use smoldb.Types.{FilePath, CollectionName, join, display}
use smoldb.Storage.Error.{StorageError, show_collection_error}
use smoldb.Storage.Point.{PointId, Point}
use smoldb.Storage.Collection
use smoldb.Storage.Collection.{Collection}
use smoldb.Storage.Setup.{init_collection, delete}
use smoldb.Storage.Segment.{fails}
use smoldb.Channels.{ChannelService}
use smoldb.External.{Env}

pub record TableOfContent (D R U C : Type 0) : Type 0 where
  pub collections : HashMap CollectionName (Collection D R)
  pub channel_service : ChannelService U C

pub data CollectionMetaOperation : Type 0 where
  create_collection : String → String → CollectionMetaOperation
  delete_collection : String → CollectionMetaOperation

-- `PointsOperation` of api/points.rs
pub data PointsOperation (V : Type 0) : Type 0 where
  upsert : List (Point V) → PointsOperation V

-- `Path::new("storage").join(COLLECTIONS_DIR).join(collection_name)`
unfoldable pub collection_path : CollectionName → FilePath
unfolding join
collection_path name = join (join ("storage" ∷ []) "collections") name

abbrev pub no_collection : CollectionName → StorageError
no_collection name =
    StorageError.bad_input (format ("Collection '" ∷ name ∷ "' does not exist" ∷ []))

module _ (env : Env) where
  open env use {Value, Db, Ring, Uri, Channel, Net, Disk, path_exists, create_dir_all}

  abbrev pub Toc : Type 0
  Toc = TableOfContent Db Ring Uri Channel

  -- `mkdir_collection_dir`
  unfoldable pub mkdir_collection_dir : CollectionName → Disk → Result StorageError FilePath × Disk
  mkdir_collection_dir name disk =
      let path = collection_path name in
      if path_exists disk path
      then (
        err (
            StorageError.bad_input
              (format ("Collection path already exists: " ∷ display path ∷ []))),
        disk,
      )
      else (let (made, disk') = create_dir_all disk path in
          elim made [
            | err e ↦ (err (fails "Can't create directory for collection" e), disk')
            | ok _ ↦ (ok path, disk')
          ])

  -- the last part of a creation, under the write lock
  unfoldable pub add_collection :
      CollectionName → Collection Db Ring → Toc → Result StorageError Bool × Toc
  add_collection name c toc =
      if contains_key name toc.collections
      then (
        err (
            StorageError.bad_input
              (format ("Collection with name '" ∷ name ∷ "' already exists" ∷ []))),
        toc,
      )
      else (ok true, record toc { collections = insert name c toc.collections })

  unfoldable pub create :
      CollectionName → String → Toc → Disk → Option (Result StorageError Bool × Toc × Disk)
  create name params toc disk =
      let (made, disk') = mkdir_collection_dir name disk in
      elim made [
        | err e ↦ some (err e, toc, disk')
        | ok path ↦ (do
          (initialised, disk'') ← init_collection env name (record { params = params }) path disk'
          elim initialised [
            | err e ↦ some (err e, toc, disk'')
            | ok c ↦ let (added, toc') = add_collection name c toc in some (added, toc', disk'')
          ])
      ]

  -- The collection leaves the table before its directory is deleted.
  unfoldable pub drop : CollectionName → Toc → Disk → Result StorageError Bool × Toc × Disk
  drop name toc disk = elim (lookup name toc.collections) [
    | none ↦ (
      err (
          StorageError.bad_input
            (format ("Collection with name '" ∷ name ∷ "' does not exist" ∷ []))),
      toc,
      disk,
    )
    | some c ↦
        let toc' = record toc { collections = remove name toc.collections } in
        let (deleted, disk') = delete env c disk in
        elim deleted [ err e ↦ (err e, toc', disk') | ok _ ↦ (ok true, toc', disk') ]
  ]

  unfoldable pub perform_collection_meta_op :
      Toc → CollectionMetaOperation → Disk → Option (Result StorageError Bool × Toc × Disk)
  perform_collection_meta_op toc (create_collection name params) disk = create name params toc disk
  perform_collection_meta_op toc (delete_collection name) disk = some (drop name toc disk)

  unfoldable pub perform_points_op :
      Toc
      → CollectionName
      → PointsOperation Value
      → Net
      → Option (Result StorageError Bool × Toc × Net)
  perform_points_op toc name (upsert points) net = elim (lookup name toc.collections) [
    | none ↦ some (err (no_collection name), toc, net)
    | some c ↦ (do
      (done, c', net') ← Collection.upsert_points env c points Bool.false net
      let toc' = record toc { collections = insert name c' toc.collections }
      elim done [
        | err e ↦ some (
          err (
              StorageError.service_error (
                format (
                  "Failed to upsert points in collection '"
                  ∷ name
                  ∷ "': "
                  ∷ show_collection_error e
                  ∷ []))),
          toc',
          net',
        )
        | ok _ ↦ some (ok true, toc', net')
      ])
  ]

  unfoldable pub retrieve_points :
      Toc
      → CollectionName
      → Option (List PointId)
      → Net
      → Option (Result StorageError (List (Point Value)) × Net)
  retrieve_points toc name pids net = elim (lookup name toc.collections) [
    | none ↦ some (err (no_collection name), net)
    | some c ↦ (do
      (points, net') ← Collection.get_points env c pids none Bool.false net
      some (
        map_err
            (λ e. StorageError.service_error (
              format (
                "Failed to retrieve points from collection '"
                ∷ name
                ∷ "': "
                ∷ show_collection_error e
                ∷ [])))
            points,
        net',
      ))
  ]
