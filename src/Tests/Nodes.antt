-- ===== src/Tests/Nodes.antt =====
-- Examples on the steps of a node and on sequences of requests.
use mathlib.Core.Path.{subst}
use smoldb.Prelude.{
  ℕ, ◌≡◌, refl, All, [], ◌∷◌, Bool, true, false, none, some, ok, arith, lookup, string_eq, nat_eq,
}
use smoldb.Storage.Point.{PointId, Point, into_string, point_id_eq}
use smoldb.Storage.Collection.ById.{by_id}
use smoldb.Storage.Collection
use smoldb.Storage.Collection.{Collection}
use smoldb.Storage.Toc.{
  Toc, PointsOperation, create_collection, create, perform_collection_meta_op, perform_points_op,
}
use smoldb.Consensus.State.{add_to_toc, add_to_collections}
use smoldb.Api.Helpers.{success}
use smoldb.Api.Points
use smoldb.Api.Points.History.{Table, replay, Shows, run, run_refines}
use smoldb.Node.{Reach, meta_op, points_op, peer_joins, start, next}
use smoldb.Node.Lifecycle.{AllSound}
use smoldb.Node.Invariant.{Reach-AllSound, Reach-upsert_points}
use smoldb.Storage.RemoteShard
use smoldb.Storage.RemoteShard.{RemoteShard, upsert_request}
use smoldb.Grpc.PointsService
use smoldb.Node.Replication.{get_point-upsert_request}
use smoldb.Tests.Demo.{demo, demo_ring, demo_sled, demo_order}
use smoldb.Tests.Shards.{books, three, three-RoundTrips, one_apart}
use smoldb.Tests.Handlers.{handlers, disks, toc, toc_after}
use smoldb.Tests.Replication.{demo_health}

abbrev no_collections : Toc demo
no_collections = record toc { collections = [] }

with_films : Toc demo
with_films = elim (create demo "films" "" no_collections []) [
  | none ↦ no_collections
  | some step ↦ step.1
]

films_disk : demo.Disk
films_disk = elim (create demo "films" "" no_collections []) [ none ↦ [] | some step ↦ step.2 ]

with_films_lem :
    perform_collection_meta_op demo no_collections (create_collection "films" "") []
    ≡ some (ok true, with_films, films_disk)
unfolding handlers disks with_films films_disk perform_collection_meta_op
with_films_lem = refl

with_points : Toc demo
with_points = elim (perform_points_op demo with_films "films" (PointsOperation.upsert three) 0) [
  | none ↦ with_films
  | some step ↦ step.1
]

with_points_lem :
    perform_points_op demo with_films "films" (PointsOperation.upsert three) 0
    ≡ some (ok true, with_points, 0)
unfolding handlers disks with_films with_points
with_points_lem = refl

steps : Reach demo no_collections (add_to_toc demo 102 with_points)
steps =
    next
      (next
        (next start (meta_op (create_collection "films" "") [] films_disk (ok true) with_films_lem))
        (points_op "films" (PointsOperation.upsert three) 0 0 (ok true) with_points_lem))
      (peer_joins 102 refl)

no_collections-AllSound : AllSound demo no_collections
no_collections-AllSound = record { sound = λ name c e. absurd (unfold lookup in ground arith) }

Reach-AllSound_example : AllSound demo (add_to_toc demo 102 with_points)
Reach-AllSound_example = Reach-AllSound demo demo_ring no_collections-AllSound steps

films : Collection demo.Db demo.Ring
films = elim (lookup "films" (add_to_toc demo 102 with_points).collections) [
  | none ↦ books
  | some c ↦ c
]

Reach-upsert_points_example :
    (c' : Collection demo.Db demo.Ring) × (Collection.upsert_points demo films three true 7
      ≡ some (ok tt, c', 7))
    × ((pid : PointId) (p : Point ℕ) (local_only : Bool) (net' : ℕ)
        → All (λ q. into_string q.id ≡ into_string pid → q.id ≡ pid) three
        → lookup pid (by_id three) ≡ some p
        → Collection.get_points demo c' (some (pid ∷ [])) none local_only net'
          ≡ some (ok (p ∷ []), net'))
unfolding handlers disks with_films with_points films add_to_toc add_to_collections
Reach-upsert_points_example =
    Reach-upsert_points demo demo_sled demo_ring demo_order demo_health refl steps "films" films
      three 7 refl three-RoundTrips

abbrev no_points : Table ℕ
no_points name pid = none

toc-Shows : Shows demo (PointId.id 1) toc no_points
unfolding handlers
toc-Shows = record {
  shown = λ name c net e.
      let same : books ≡ c = ground arith in
      subst
        (λ x.
          Collection.get_points demo x (some (PointId.id 1 ∷ [])) none false net
          ≡ some (ok [], net))
        same refl;
}

unfoldable requests : Unit {0}
unfolding handlers run replay
requests = tt

after_run : run demo (("books", three) ∷ []) toc 0 ≡ some (toc_after, 2)
unfolding requests toc_after
after_run = refl

written : Collection demo.Db demo.Ring
written = elim (lookup "books" toc_after.collections) [ none ↦ books | some c ↦ c ]

run_refines_example :
    Points.get_point demo "books" "1" toc_after 0
    ≡ some (
      success (record { result = record { point = record { id = PointId.id 1; payload = 30 } } }),
      0,
    )
unfolding requests toc_after written
run_refines_example =
    run_refines demo demo_sled demo_order 1 (("books", three) ∷ []) toc toc_after 0 2 0 no_points
      "books" written (omega arith) ((three-RoundTrips, one_apart), tt) toc-Shows after_run refl

abbrev replica : RemoteShard
replica = record { id = 0; collection = "books"; peer_id = 101 }

serving : Unit {0}
unfolding handlers PointsService.upsert_points RemoteShard.from_grpc
serving = tt

served : Toc demo
served = elim (PointsService.upsert_points demo toc (upsert_request demo replica three) 0) [
  | none ↦ toc
  | some step ↦ step.1
]

served_lem :
    PointsService.upsert_points demo toc (upsert_request demo replica three) 0
    ≡ some (ok (record { message = "Upsert operation completed" }), served, 0)
unfolding serving served
served_lem = refl

get_point-upsert_request_example :
    Points.get_point demo "books" "1" served 5
    ≡ some (
      success (record { result = record { point = record { id = PointId.id 1; payload = 30 } } }),
      5,
    )
unfolding serving served
get_point-upsert_request_example =
    get_point-upsert_request demo demo_sled demo_order replica three toc served 0 0 5
      (record { message = "Upsert operation completed" }) 1
      (record { id = PointId.id 1; payload = 30 }) (refl, (refl, (refl, tt))) three-RoundTrips
      (omega arith) refl served_lem
