-- ===== src/Tests/Disks.antt =====
-- Examples on a node that starts with a collection on its disk.
use mathlib.Core.List.{Memᴰ}
use smoldb.Prelude.{
  ◌≡◌, ◌≢◌, refl, String, List, [], ◌∷◌, true, none, some, Result, ok, lookup, insert, collect,
  format, string_eq, nat_eq, contains_key,
}
use smoldb.Types.{FilePath, ShardId, CollectionName, join, display}
use smoldb.Decimal.{parse_uint}
use smoldb.Channels.{default_service}
use smoldb.Storage.Replicas.{ReplicaSet, new_replica_set, new_holder, add_nodes}
use smoldb.Storage.Collection.{Collection}
use smoldb.Storage.Setup.{collection_config_file}
use smoldb.Storage.Toc.{Toc}
use smoldb.Storage.Recovery.{
  file_name, segment_entry, shard_dir_id, load_segment, load_segments, load_shard, load_shards,
  load_config, load_collection, load_collections, collections_root, load,
}
use smoldb.Storage.Recovery.Restored.{IsFrom}
use smoldb.Storage.Recovery.Load.{load_collection_lem}
use smoldb.Storage.Recovery.Table.{IsLoadedFrom, load_lem}
use smoldb.Tests.Demo.{demo, demo_disk, demo_dirs, exists}

loading : Unit {0}
unfolding exists contains_key lookup insert collect join display format parse_uint new_replica_set
    new_holder add_nodes file_name segment_entry shard_dir_id load_segment load_segments load_shard
    load_shards load_config load_collection load_collections collections_root load default_service
loading = tt

abbrev here : FilePath
here = "storage" ∷ "collections" ∷ "books" ∷ []

abbrev disk : demo.Disk
disk =
    ("storage/collections/books/config.json", tt)
    ∷ ("storage/collections/books/0/segments/0", tt)
    ∷ ("storage/collections/books/1/segments/0", tt)
    ∷ []

abbrev found_set : ShardId → String → ReplicaSet demo.Db
found_set s name =
    new_replica_set
      (record {
        id = s;
        path = "storage" ∷ "collections" ∷ "books" ∷ name ∷ [];
        segments =
            (
              0,
              record {
                path = "storage" ∷ "collections" ∷ "books" ∷ name ∷ "segments" ∷ "0" ∷ [];
                db = [];
              },
            )
            ∷ [];
      })
      [] "books"

abbrev found : Collection demo.Db demo.Ring
found = record {
  id = "books";
  config = record { params = "v1" };
  replica_holder = new_holder demo ((1, found_set 1 "1") ∷ (0, found_set 0 "0") ∷ []);
  path = here;
}

disk_after : demo.Disk
disk_after = elim (load_collection demo "books" here disk) [ some (r, d) ↦ d | none ↦ disk ]

found_lem : load_collection demo "books" here disk ≡ some (ok found, disk_after)
unfolding loading disk_after
found_lem = refl

load_collection_lem_example :
    (found.id ≡ "books")
    × (found.path ≡ here)
    × (load_config demo (join here collection_config_file) disk ≡ ok found.config)
    × (entries : List (Result String FilePath)) × (demo.read_dir disk here ≡ ok entries)
    × IsFrom demo entries found.replica_holder.shards
    × ((p : FilePath)
        → Memᴰ (ok p) entries
        → demo.is_dir disk p ≡ true
        → (s : ShardId) × (shard_dir_id p ≡ ok s) × (lookup s found.replica_holder.shards ≢ none))
load_collection_lem_example =
    load_collection_lem demo demo_dirs "books" here disk disk_after found found_lem

started : Toc demo
started = elim (load demo default_service disk) [
  | some (t, d) ↦ t
  | none ↦ record { collections = []; channel_service = default_service }
]

disk_started : demo.Disk
disk_started = elim (load demo default_service disk) [ some (t, d) ↦ d | none ↦ disk ]

started_lem : load demo default_service disk ≡ some (started, disk_started)
unfolding loading started disk_started
started_lem = refl

load_lem_example :
    (started.channel_service ≡ default_service)
    × (entries : List (Result String FilePath)) × (demo.read_dir
          (demo.create_dir_all disk collections_root).1
          collections_root
        ≡ ok entries)
    × IsLoadedFrom demo entries (demo.create_dir_all disk collections_root).1 started.collections
    × ((p : FilePath)
        → Memᴰ (ok p) entries
        → exists (demo.create_dir_all disk collections_root).1 (join p collection_config_file)
          ≡ true
        → (name : CollectionName) × (file_name p ≡ some name)
          × (lookup name started.collections ≢ none))
load_lem_example = load_lem demo demo_disk default_service disk disk_started started started_lem
