-- ===== src/Node/Invariant.antt =====
-- A node's collections after any steps.
use mathlib.Core.Path.{subst}
use smoldb.Prelude.{
  ◌≡◌, refl, sym, All, inl, inr, List, [], ◌∷◌, Bool, true, false, none, some, Result, ok, arith,
  HashMap, lookup, insert, nat_eq, string_eq, ◌==◌, Option-cases, Result-cases, Bool-cases,
}
use smoldb.Types.{PeerId, CollectionName}
use smoldb.Storage.Error.{StorageError, CollectionResult}
use smoldb.Storage.Point.{PointId, Point, into_string, point_id_eq}
use smoldb.Storage.Replicas.{add_remote_shards}
use smoldb.Storage.Collection
use smoldb.Storage.Collection.{Collection, CollectionConfig}
use smoldb.Storage.Segment.Writes.{RoundTrips}
use smoldb.Storage.Collection.ById.{by_id}
use smoldb.Storage.Collection.ReadBack.{get_points-upsert_points}
use smoldb.Storage.Collection.Success.{IsHealthy, upsert_points-ok}
use smoldb.Storage.Collection.Sound.{IsSound, upsert_points-IsSound, add_remote_shards-IsSound}
use smoldb.Storage.Toc.{
  Toc, upsert, create_collection, delete_collection, drop, perform_collection_meta_op,
  perform_points_op,
}
use smoldb.Storage.RemoteShard.{from_grpc}
use smoldb.Grpc.Schema.{UpsertPointsRequest, UpsertPointsResponse}
use smoldb.Grpc.Status.{Answer}
use smoldb.Grpc.PointsService
use smoldb.Consensus.State.{add_to_toc, add_to_collections}
use smoldb.Node.{Step, Reach, meta_op, points_op, peer_upsert, peer_joins, start, next}
use smoldb.External.{Env, SledLaws, RingLaws, OrderLaws}
use smoldb.Node.Lifecycle.{AllSound, put-AllSound, drop-AllSound, create-AllSound}

module _ (env : Env) where
  open env use {Value, Text, Db, Ring, Net, Disk}

  written-AllSound :
      (t : Toc env) (name : CollectionName) (c : Collection Db Ring) (points : List (Point Value))
      (local_only : Bool) (net net' : Net) (r : CollectionResult (Unit {0}))
      (c' : Collection Db Ring)
      → AllSound env t
      → lookup name t.collections ≡ some c
      → Collection.upsert_points env c points local_only net ≡ some (r, c', net')
      → AllSound env (record t { collections = insert name c' t.collections })
  written-AllSound t name c points local_only net net' r c' h at done =
      put-AllSound env t name c' h
        (upsert_points-IsSound env c c' points local_only net net' r (h.sound name c at) done)

  points_op-AllSound :
      (t u : Toc env) (name : CollectionName) (points : List (Point Value)) (net net' : Net)
      (r : Result StorageError Bool)
      → AllSound env t
      → perform_points_op env t name (upsert points) net ≡ some (r, u, net')
      → AllSound env u
  unfolding perform_points_op
  points_op-AllSound t u name points net net' r h e =
      elim (Option-cases (lookup name t.collections)) [
        | inl q ↦ let same : t ≡ u = ground arith in subst (AllSound env) same h
        | inr (c, q) ↦ elim (Option-cases (Collection.upsert_points env c points false net)) [
          | inl q' ↦ absurd (ground arith)
          | inr (step, q') ↦
              let same : record t { collections = insert name step.1 t.collections } ≡ u =
                elim (Result-cases step.0) [
                  | inl (x, v) ↦ ground arith
                  | inr (x, v) ↦ ground arith
                ] in
              subst (AllSound env) same
                (written-AllSound t name c points false net step.2 step.0 step.1 h q q')
        ]
      ]

  peer_upsert-AllSound :
      (t u : Toc env) (request : UpsertPointsRequest Text) (net net' : Net)
      (r : Answer UpsertPointsResponse)
      → AllSound env t
      → PointsService.upsert_points env t request net ≡ some (r, u, net')
      → AllSound env u
  unfolding PointsService.upsert_points
  peer_upsert-AllSound t u request net net' r h e =
      let name = request.collection_name in
      elim (Option-cases (lookup name t.collections)) [
        | inl q ↦ let same : t ≡ u = ground arith in subst (AllSound env) same h
        | inr (c, q) ↦ elim (Option-cases (from_grpc env request.points)) [
          | inl q' ↦ absurd (ground arith)
          | inr (points, q') ↦
              elim (Option-cases (Collection.upsert_points env c points true net)) [
                | inl w ↦ absurd (ground arith)
                | inr (step, w) ↦
                    let same : record t { collections = insert name step.1 t.collections } ≡ u =
                      elim (Result-cases step.0) [
                        | inl (x, v) ↦ ground arith
                        | inr (x, v) ↦ ground arith
                      ] in
                    subst (AllSound env) same
                      (written-AllSound t name c points true net step.2 step.0 step.1 h q w)
              ]
        ]
      ]

  joined_from :
      (peer : PeerId) (collections : HashMap CollectionName (Collection Db Ring))
      (j : CollectionName) (c' : Collection Db Ring)
      → lookup j (add_to_collections env peer collections) ≡ some c'
      → (c : Collection Db Ring) × (lookup j collections ≡ some c)
        × (record c { replica_holder = add_remote_shards peer j c.replica_holder } ≡ c')
  unfolding lookup add_to_collections
  joined_from peer [] j c' at = absurd (ground arith)
  joined_from peer ((name, c) ∷ collections) j c' at = elim (Bool-cases (name == j)) [
    | inl same ↦
        let here : name ≡ j = (string_eq.beq_iff name j).0 same in
        let found : record c { replica_holder = add_remote_shards peer name c.replica_holder }
            ≡ c' =
          ground arith in
        (c, rw same refl, rw (← here) found)
    | inr apart ↦
        let (c0, before, now) = joined_from peer collections j c' (rw apart at at) in
        (c0, rw apart before, now)
  ]

  Step-AllSound :
      (laws : RingLaws env) (t u : Toc env) → AllSound env t → Step env t u → AllSound env u
  unfolding perform_collection_meta_op
  Step-AllSound laws t u h (meta_op (create_collection name params) d d' r e) =
      create-AllSound env laws name params t u d d' r h e
  Step-AllSound laws t u h (meta_op (delete_collection name) d d' r e) =
      let same : (drop env name t d).1 ≡ u = ground arith in
      subst (AllSound env) same (drop-AllSound env name t d h)
  Step-AllSound laws t u h (points_op name (upsert points) net net' r e) =
      points_op-AllSound t u name points net net' r h e
  Step-AllSound laws t u h (peer_upsert request net net' r e) =
      peer_upsert-AllSound t u request net net' r h e
  Step-AllSound laws t u h (peer_joins peer e) = subst (AllSound env) (sym e) (record {
    sound = λ j c' at.
        let (c, before, now) = joined_from peer t.collections j c' (unfold add_to_toc in at) in
        subst (IsSound env) now (add_remote_shards-IsSound env peer j c (h.sound j c before));
  })

  -- Whatever requests a node serves, failing ones included, and whatever peers join: if every
  -- collection of its table was sound, every collection is. Assumed: the laws of the ring.
  pub Reach-AllSound :
      (laws : RingLaws env) {t u : Toc env} → AllSound env t → Reach env t u → AllSound env u
  Reach-AllSound laws h start = h
  Reach-AllSound laws h (next {u} {v} r step) =
      Step-AllSound laws u v (Reach-AllSound laws h r) step

  -- A node that started with no collections, after any requests and joins: every collection in its
  -- table takes any points from a peer with no error and no call, if nothing fails below it, and a read
  -- of an id of the batch then gives the last point of the batch with that id, if no other id of the
  -- batch has the same key. Assumed: the texts of the points read back, and the laws of sled, of the
  -- ring and of the iteration order.
  pub Reach-upsert_points :
      (sled : SledLaws env) (laws : RingLaws env) (order : OrderLaws env) (health : IsHealthy env)
      {t u : Toc env}
      → t.collections ≡ []
      → Reach env t u
      → (name : CollectionName) (c : Collection Db Ring) (points : List (Point Value)) (net : Net)
      → lookup name u.collections ≡ some c
      → All (RoundTrips env) points
      → (c' : Collection Db Ring) × (Collection.upsert_points env c points true net
          ≡ some (ok tt, c', net))
        × ((pid : PointId) (p : Point Value) (local_only : Bool) (net' : Net)
            → All (λ q. into_string q.id ≡ into_string pid → q.id ≡ pid) points
            → lookup pid (by_id points) ≡ some p
            → Collection.get_points env c' (some (pid ∷ [])) none local_only net'
              ≡ some (ok (p ∷ []), net'))
  Reach-upsert_points sled laws order health {t} {u} empty r name c points net at trips =
      let none_yet : AllSound env t = record {
        sound = λ j c0 e. absurd (unfold lookup in ground arith);
      } in
      let good = (Reach-AllSound laws none_yet r).sound name c at in
      let (c', done, routes, segments) =
        upsert_points-ok env health order c points net good.routes good.segments in
      (c', done, get_points-upsert_points env sled order c c' points trips true net net done)
