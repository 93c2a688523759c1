-- ===== src/Tests/Handlers.antt =====
-- Examples on the handlers and the table of the collections.
use smoldb.Prelude.{
  ◌≡◌, ◌≢◌, refl, [], ◌∷◌, true, false, none, some, ok, err, arith, lookup, string_eq, ◌==◌,
  contains_key, if◌then◌else◌,
}
use smoldb.Decimal.{show, parse_uint, u64_limit}
use smoldb.Decimal.RoundTrip.{parse-show}
use smoldb.Types.{CollectionName, join, display}
use smoldb.Storage.Point.{PointId, point_id_eq}
use smoldb.Storage.Collection.{Collection}
use smoldb.Storage.Setup.{create_segment, init_shard, save_config, init_collection, delete}
use smoldb.Storage.Toc.{
  Toc, collection_path, mkdir_collection_dir, add_collection, create, drop, perform_points_op,
  retrieve_points,
}
use smoldb.Storage.Toc.Lifecycle.{path_exists_error, create_again, drop_lem}
use smoldb.Api.Helpers.{success, time}
use smoldb.Api.Points
use smoldb.Api.Points.ReadBack.{get_point-upsert_points}
use smoldb.Tests.Demo.{demo, demo_sled, demo_order, demo_disk, exists}
use smoldb.Tests.Shards.{program, books, three, three-RoundTrips, one_apart}

unfoldable pub handlers : Unit {0}
unfolding program Points.upsert_points Points.get_point Points.first_point Points.path_id time
    perform_points_op retrieve_points
handlers = tt

abbrev pub toc : Toc demo
toc = record {
  collections = ("books", books) ∷ [];
  channel_service = record { id_to_address = []; channel_pool = record { uri_to_channel = [] } };
}

unfoldable pub toc_after : Toc demo
toc_after = elim (Points.upsert_points demo "books" three toc 0) [ none ↦ toc | some step ↦ step.1 ]

pub toc_after_lem :
    Points.upsert_points demo "books" three toc 0
    ≡ some (success (record { result = record { num_points = 3 } }), toc_after, 2)
unfolding handlers toc_after
toc_after_lem = refl

get_point-upsert_points_example :
    Points.get_point demo "books" "1" toc_after 0
    ≡ some (
      success (record { result = record { point = record { id = PointId.id 1; payload = 30 } } }),
      0,
    )
unfolding handlers
get_point-upsert_points_example =
    get_point-upsert_points demo demo_sled demo_order "books" three toc toc_after 0 2 0
      (record { result = record { num_points = 3 } }) 1 (record { id = PointId.id 1; payload = 30 })
      three-RoundTrips (omega arith) one_apart refl toc_after_lem

unfoldable pub disks : Unit {0}
unfolding exists contains_key lookup join display collection_path mkdir_collection_dir
    add_collection create_segment init_shard save_config init_collection create drop delete
disks = tt

created : Toc demo
created = elim (create demo "films" "" toc []) [ none ↦ toc | some step ↦ step.1 ]

disk : demo.Disk
disk = elim (create demo "films" "" toc []) [ none ↦ [] | some step ↦ step.2 ]

created_lem : create demo "films" "" toc [] ≡ some (ok true, created, disk)
unfolding handlers disks created disk
created_lem = refl

create_again_example :
    create demo "films" "more" created disk ≡ some (err (path_exists_error "films"), created, disk)
create_again_example =
    create_again demo demo_disk "films" "" "more" toc created [] disk (ok true) refl created_lem

drop_lem_example :
    ((j : CollectionName)
      → lookup j (drop demo "films" created disk).1.collections
        ≡ (if "films" == j then none else lookup j created.collections))
    × (lookup "films" created.collections ≡ none
        → ((drop demo "films" created disk).0 ≢ ok true)
          × ((drop demo "films" created disk).2 ≡ disk))
    × ((c : Collection demo.Db demo.Ring)
        → lookup "films" created.collections ≡ some c
        → (drop demo "films" created disk).0 ≡ ok true
        → exists (drop demo "films" created disk).2 c.path ≡ false)
drop_lem_example = drop_lem demo demo_disk "films" created disk

parse-show_example : parse_uint u64_limit (show 120) ≡ some 120
parse-show_example = parse-show u64_limit 120 (omega arith)
