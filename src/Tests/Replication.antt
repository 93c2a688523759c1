-- ===== src/Tests/Replication.antt =====
-- Examples on the replicas of a shard: the peers that are known to the program, and one that is not.
use smoldb.Prelude.{
  Bool-cases, nat_beq, ℕ, ◌+◌, ◌≤◌, ◌≡◌, ◌≢◌, refl, inl, inr, List, [], ◌∷◌, true, false, ◌||◌,
  Option, none, some, ok, is_ok, arith, lookup, count_if, filter_map, length, nat_eq, ◌==◌,
  if◌then◌else◌,
}
use mathlib.Core.Path.{subst}
use smoldb.Types.{ShardId, PeerId}
use smoldb.Storage.Error.{CollectionResult}
use smoldb.Storage.Point.{PointId, Point, point_id_eq}
use smoldb.Storage.Segment
use smoldb.Storage.LocalShard
use smoldb.Storage.LocalShard.{LocalShard}
use smoldb.Storage.RemoteShard.{RemoteShard, from_grpc, upsert_request}
use smoldb.Storage.RemoteShard.Wire.{IsKnownPeer, from_grpc-upsert_request}
use smoldb.Storage.Replicas.{ReplicaSet, add_remote_shards, has_peer, num_replicas}
use smoldb.Storage.Replicas.Execute.{Answered, execute-shape}
use smoldb.Storage.Replicas.Peers.{DistinctPeers, add_remote_shards_lem}
use smoldb.Storage.Replicas.RingRoutes.{IsRouted, new_holder-IsRouted}
use smoldb.Storage.Collection.{Collection, Shards, upsert_replicas, upsert_shard, upsert_points}
use smoldb.Storage.Collection.Quorum.{
  IsUnreachable, desired, upsert_shard-quorum, upsert_points-unreachable,
}
use smoldb.Storage.Collection.Success.{IsHealthy, HasSegments, upsert_points-ok}
use smoldb.Storage.Collection.ById.{by_id}
use smoldb.Tests.Demo.{demo, demo_ring, demo_order}
use smoldb.Tests.Shards.{program, books, three, replicated, empty_shard}

abbrev first_points : List (Point ℕ)
first_points = record { id = PointId.id 2; payload = 20 } ∷ []

after_shard : Shards demo
after_shard =
    elim (upsert_shard demo (by_id three) false 0 (PointId.id 2 ∷ []) books.replica_holder.shards
      0) [ none ↦ [] | some step ↦ step.1 ]

upsert_shard-quorum_example :
    (set : ReplicaSet demo.Db) × (set' : ReplicaSet demo.Db) × (results : List
      (CollectionResult (Unit {0})))
    × (lookup 0 books.replica_holder.shards ≡ some set)
    × (upsert_replicas demo set
          (filter_map (λ pid. lookup pid (by_id three)) (PointId.id 2 ∷ []))
          false
          0
        ≡ some (results, set', 1))
    × (desired false (num_replicas set) ≤ count_if is_ok results)
unfolding program after_shard
upsert_shard-quorum_example =
    upsert_shard-quorum demo (by_id three) false 0 (PointId.id 2 ∷ []) books.replica_holder.shards
      after_shard 0 1 refl

-- a collection whose only other replica is on peer 7
abbrev cold_set : ReplicaSet demo.Db
cold_set = record (replicated 0) {
  remotes = record { id = 0; collection = "books"; peer_id = 7 } ∷ [];
}

abbrev cold : Collection demo.Db demo.Ring
cold = record books { replica_holder = record { shards = (0, cold_set) ∷ []; ring = 0 ∷ [] } }

seven_unknown : ¬ IsKnownPeer 7
seven_unknown (inl e) = omega arith
seven_unknown (inr (inl e)) = omega arith
seven_unknown (inr (inr e)) = omega arith

cold_set-IsUnreachable : IsUnreachable demo cold_set
cold_set-IsUnreachable = record { remote = λ e. ground arith; unknown = (seven_unknown, tt) }

cold-IsUnreachable :
    (t : ShardId) (set : ReplicaSet demo.Db)
    → lookup t cold.replica_holder.shards ≡ some set
    → IsUnreachable demo set
unfolding lookup
cold-IsUnreachable t set e =
    let same : cold_set ≡ set = ground arith in
    subst (IsUnreachable demo) same cold_set-IsUnreachable

upsert_points-unreachable_example : upsert_points demo cold three false 0 ≢ some (ok tt, cold, 0)
upsert_points-unreachable_example =
    upsert_points-unreachable demo demo_order cold cold (record { id = PointId.id 1; payload = 10 })
      (record { id = PointId.id 2; payload = 20 } ∷ record { id = PointId.id 1; payload = 30 } ∷ [])
      0 0 cold-IsUnreachable

from_grpc-upsert_request_example :
    from_grpc demo
      (upsert_request demo (record { id = 0; collection = "books"; peer_id = 101 }) three).points
    ≡ some three
unfolding program from_grpc
from_grpc-upsert_request_example =
    from_grpc-upsert_request demo (record { id = 0; collection = "books"; peer_id = 101 }) three
      (refl, (refl, (refl, tt)))

abbrev counted : LocalShard demo.Db → CollectionResult ℕ × LocalShard demo.Db
counted local = (ok (LocalShard.count_points demo local), local)

abbrev called : RemoteShard → ℕ → Option (CollectionResult ℕ × ℕ)
called remote calls = some (ok remote.peer_id, calls + 1)

execute-shape_example :
    (rest : List (CollectionResult ℕ)) × (ok 0 ∷ ok 101 ∷ [] ≡ (counted (empty_shard 0)).0 ∷ rest)
    × (replicated 0 ≡ record (replicated 0) { local = (counted (empty_shard 0)).1 })
    × Answered counted called (replicated 0).remotes 0 rest 1
    × (length {A = CollectionResult ℕ} (ok 0 ∷ ok 101 ∷ []) ≡ num_replicas (replicated 0))
    × (false ≡ true → ◌≡◌ {A = ℕ} 1 0)
unfolding program LocalShard.count_points Segment.count_points
execute-shape_example =
    execute-shape counted called (replicated 0) (replicated 0) false 0 1 (ok 0 ∷ ok 101 ∷ []) refl

add_remote_shards_lem_example :
    (set' : ReplicaSet demo.Db) × (lookup 0
        (add_remote_shards 102 "books" books.replica_holder).shards
      ≡ some set')
    × ((q : PeerId) → has_peer q set'.remotes ≡ has_peer q (replicated 0).remotes || 102 == q)
    × (DistinctPeers (replicated 0).remotes → DistinctPeers set'.remotes)
    × (num_replicas set'
        ≡ num_replicas (replicated 0) + (if has_peer 102 (replicated 0).remotes then 0 else 1))
    × (set'.local ≡ (replicated 0).local)
    × ((add_remote_shards 102 "books" books.replica_holder).ring ≡ books.replica_holder.ring)
unfolding program
add_remote_shards_lem_example =
    add_remote_shards_lem 102 "books" books.replica_holder 0 (replicated 0) refl

books-IsRouted : IsRouted demo books.replica_holder
books-IsRouted = new_holder-IsRouted demo demo_ring 0 (replicated 0) ((1, replicated 1) ∷ [])

pub demo_health : IsHealthy demo
demo_health = record { serializes = λ p. (p, refl); inserts = λ db k t. refl; flushes = λ db. refl }

books-HasSegments : HasSegments demo books.replica_holder.shards
unfolding program
books-HasSegments = record {
  segment = λ s set at gone. elim (Bool-cases (nat_beq 0 s)) [
    | inl here ↦ ground (arith, at, gone)
    | inr apart ↦ ground (arith, at, gone)
  ];
}

upsert_points-ok_example :
    (c' : Collection demo.Db demo.Ring) × (upsert_points demo books three true 4
      ≡ some (ok tt, c', 4))
    × IsRouted demo c'.replica_holder
    × HasSegments demo c'.replica_holder.shards
upsert_points-ok_example =
    upsert_points-ok demo demo_health demo_order books three 4 books-IsRouted books-HasSegments
