-- ===== src/Tests/Reads.antt =====
-- Examples on reads of all points.
use smoldb.Prelude.{ℕ, ◌≡◌, refl, List, [], ◌∷◌, false, none, some}
use smoldb.Storage.Point.{PointId, Point}
use smoldb.Storage.PointOrder.{point_id_compare, insert_vacant, insert_all}
use smoldb.Storage.PointOrder.Laws.{IsSorted, find}
use smoldb.Storage.Segment
use smoldb.Storage.RemoteShard
use smoldb.Storage.Replicas.{ReplicaSet}
use smoldb.Storage.Collection
use smoldb.Storage.Collection.{Collection}
use smoldb.Storage.Collection.ReadAll.{gather, Gathered, get_points-all}
use smoldb.Storage.Collection.LocalFirst.{get_points-local_first}
use smoldb.Tests.Demo.{demo}
use smoldb.Tests.Shards.{program, books, replicated}

reads : Unit {0}
unfolding program Segment.read_all RemoteShard.get_points RemoteShard.get_request
    RemoteShard.from_grpc Collection.read_replicas Collection.flatten_results Collection.read_shards
    point_id_compare insert_vacant insert_all find gather
reads = tt

abbrev first_point : Point ℕ
first_point = record { id = PointId.id 1; payload = 30 }

abbrev second_point : Point ℕ
second_point = record { id = PointId.id 2; payload = 20 }

-- shard 0 with the second point, shard 1 with the first
abbrev zero_set : ReplicaSet demo.Db
zero_set = record (replicated 0) {
  local = record {
    id = 0;
    path = [];
    segments = (0, record { path = []; db = ("2", second_point) ∷ [] }) ∷ [];
  };
}

abbrev one_set : ReplicaSet demo.Db
one_set = record (replicated 1) {
  local = record {
    id = 1;
    path = [];
    segments = (0, record { path = []; db = ("1", first_point) ∷ [] }) ∷ [];
  };
}

abbrev stocked : Collection demo.Db demo.Ring
stocked = record books {
  replica_holder = record books.replica_holder { shards = (0, zero_set) ∷ (1, one_set) ∷ [] };
}

get_points-all_example :
    (points : List (Point ℕ)) × Gathered demo none false stocked.replica_holder.shards 0 points 2
    × IsSorted (first_point ∷ second_point ∷ [])
    × ((pid : PointId) → find pid (first_point ∷ second_point ∷ []) ≡ find pid points)
unfolding reads
get_points-all_example =
    get_points-all demo stocked none false (first_point ∷ second_point ∷ []) 0 2 refl

get_points-local_first_example : find (PointId.id 1) (first_point ∷ []) ≡ some first_point
unfolding reads
get_points-local_first_example =
    get_points-local_first demo stocked 1 one_set false (first_point ∷ []) (first_point ∷ []) 0 1
      (PointId.id 1) first_point refl refl refl refl
