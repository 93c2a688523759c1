-- ===== src/Tests/Shards.antt =====
-- Examples on a collection with two shards, each on the node and on one peer.
use smoldb.Prelude.{
  ℕ, ◌≡◌, ◌≢◌, refl, sym, List, [], ◌∷◌, true, false, none, some, ok, All, HashMap, lookup, insert,
  collect, count_if, Unique, nat_eq,
}
use smoldb.Decimal.{show}
use smoldb.Channels.{get_or_create_channel, default_service}
use smoldb.Types.{ShardId}
use smoldb.Storage.Point.{PointId, Point, into_string, point_id_eq}
use smoldb.Storage.Segment
use smoldb.Storage.Segment.{Segment}
use smoldb.Storage.Segment.Writes.{RoundTrips, last_under, present, read_one-insert_points}
use smoldb.Storage.LocalShard
use smoldb.Storage.LocalShard.{LocalShard}
use smoldb.Storage.RemoteShard
use smoldb.Storage.Replicas
use smoldb.Storage.Replicas.{ReplicaSet, ReplicaHolder, new_replica_set, new_holder}
use smoldb.Storage.Collection
use smoldb.Storage.Collection.{Collection, upsert_points, get_points}
use smoldb.Storage.Collection.ReadBack.{get_points-upsert_points, get_points-upsert_points_ne}
use smoldb.Storage.Replicas.Routing.{grown, routed, select_shards-routed}
use smoldb.Tests.Demo.{demo, demo_sled, demo_order, route, assign, takes, differ}

unfoldable pub program : Unit {0}
unfolding route assign takes Segment.insert_point Segment.insert_each Segment.flush
    Segment.insert_points Segment.parse_point Segment.read_one Segment.read_each Segment.get_points
    LocalShard.get_points LocalShard.upsert_points RemoteShard.numeric_id
    RemoteShard.current_address RemoteShard.with_points_client RemoteShard.get_channel_service
    RemoteShard.to_grpc RemoteShard.upsert_request RemoteShard.upsert_points new_replica_set
    new_holder Replicas.add_nodes Replicas.num_replicas Replicas.execute_remotes
    Replicas.execute_cluster_operation Replicas.push Replicas.select_onto Replicas.select_shards
    Replicas.get_replica_set Collection.judge Collection.upsert_replicas Collection.upsert_shard
    Collection.upsert_groups Collection.upsert_points Collection.read_local Collection.read_groups
    Collection.get_points lookup insert collect count_if into_string show get_or_create_channel
    default_service
program = tt

abbrev pub empty_shard : ShardId → LocalShard demo.Db
empty_shard s = record { id = s; path = []; segments = (0, record { path = []; db = [] }) ∷ [] }

abbrev pub replicated : ShardId → ReplicaSet demo.Db
replicated s = new_replica_set (empty_shard s) (101 ∷ []) "books"

abbrev pub books : Collection demo.Db demo.Ring
books = record {
  id = "books";
  config = record { params = "" };
  replica_holder = new_holder demo ((0, replicated 0) ∷ (1, replicated 1) ∷ []);
  path = "storage" ∷ "collections" ∷ "books" ∷ [];
}

abbrev pub three : List (Point ℕ)
three =
    record { id = PointId.id 1; payload = 10 }
    ∷ record { id = PointId.id 2; payload = 20 }
    ∷ record { id = PointId.id 1; payload = 30 }
    ∷ []

after_write : Collection demo.Db demo.Ring
after_write = elim (upsert_points demo books three false 0) [ none ↦ books | some step ↦ step.1 ]

after_write_lem : upsert_points demo books three false 0 ≡ some (ok tt, after_write, 2)
unfolding program after_write
after_write_lem = refl

pub three-RoundTrips : All (RoundTrips demo) three
three-RoundTrips = (λ t e. sym e, (λ t e. sym e, (λ t e. sym e, tt)))

pub one_apart :
    All (λ (q : Point ℕ). into_string q.id ≡ into_string (PointId.id 1) → q.id ≡ PointId.id 1) three
unfolding into_string show
one_apart = (λ e. refl, (λ e. absurd (differ "2" "1" refl e), (λ e. refl, tt)))

seven_apart : All (λ (q : Point ℕ). into_string q.id ≢ into_string (PointId.id 7)) three
unfolding into_string show
seven_apart = (differ "1" "7" refl, (differ "2" "7" refl, (differ "1" "7" refl, tt)))

get_points-upsert_points_example :
    get_points demo after_write (some (PointId.id 1 ∷ [])) none true 0
    ≡ some (ok (record { id = PointId.id 1; payload = 30 } ∷ []), 0)
unfolding program
get_points-upsert_points_example =
    get_points-upsert_points demo demo_sled demo_order books after_write three three-RoundTrips
      false 0 2 after_write_lem (PointId.id 1) (record { id = PointId.id 1; payload = 30 }) true 0
      one_apart refl

get_points-upsert_points_ne_example :
    get_points demo after_write (some (PointId.id 7 ∷ [])) none true 0 ≡ some (ok [], 0)
unfolding program
get_points-upsert_points_ne_example =
    get_points-upsert_points_ne demo demo_sled demo_order books after_write three three-RoundTrips
      false 0 2 after_write_lem (PointId.id 7) [] true 0 seven_apart refl

after_insert : Segment demo.Db
after_insert = (Segment.insert_points demo (record { path = []; db = [] }) three).1

after_insert_lem :
    Segment.insert_points demo (record { path = []; db = [] }) three ≡ (ok tt, after_insert)
unfolding program after_insert
after_insert_lem = refl

read_one-insert_points_example :
    Segment.read_one demo after_insert.db (PointId.id 1)
    ≡ last_under "1" three (present demo) (ok none)
unfolding program
read_one-insert_points_example =
    read_one-insert_points demo demo_sled (record { path = []; db = [] }) after_insert three
      (PointId.id 1) three-RoundTrips after_insert_lem

groups : HashMap ShardId (List PointId)
groups = (1, PointId.id 1 ∷ PointId.id 1 ∷ []) ∷ (0, PointId.id 2 ∷ []) ∷ []

select_shards-routed_example :
    ((s : ShardId)
      → lookup s groups
        ≡ grown none (
            routed demo books.replica_holder.ring s
              (PointId.id 1 ∷ PointId.id 2 ∷ PointId.id 1 ∷ [])))
    × Unique groups
unfolding program groups
select_shards-routed_example =
    select_shards-routed demo books.replica_holder (PointId.id 1 ∷ PointId.id 2 ∷ PointId.id 1 ∷ [])
      groups refl
