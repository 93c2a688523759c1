-- ===== src/Storage/Collection/Sound.antt =====
-- The soundness of a collection: its points are routed to shards that are there, each local shard has
-- its segment 0, and no peer has two replicas of a shard.
use mathlib.Core.Path.{subst}
use smoldb.Prelude.{
  ◌≡◌, sym, ◌≢◌, inl, inr, List, [], map, Bool, none, some, arith, HashMap, lookup, nat_eq, collect,
  Option-cases, Result-cases,
}
use smoldb.Types.{ShardId, PeerId, CollectionName}
use smoldb.Storage.Error.{CollectionResult}
use smoldb.Storage.Point.{PointId, Point, point_id_eq}
use smoldb.Storage.Replicas.{ReplicaSet, add_remote, add_to_each, add_remote_shards, select_shards}
use smoldb.Storage.Replicas.Peers.{DistinctPeers, DistinctPeers-add_remote, lookup-add_to_each}
use smoldb.Storage.Replicas.RingRoutes.{IsRouted, add_remote_shards-IsRouted}
use smoldb.Storage.Collection.{Collection, Shards, upsert_groups, upsert_points, with_shards}
use smoldb.Storage.Collection.Success.{HasSegments}
use smoldb.External.{Env}
use smoldb.Storage.Collection.Keeps.{Keeps, upsert_groups-Keeps}

module _ (env : Env) where
  open env use {Value, Db, Ring, Net, arrange}

  pub record IsSound (c : Collection Db Ring) : Type 0 where
    pub routes : IsRouted env c.replica_holder
    pub segments : HasSegments env c.replica_holder.shards
    pub peers :
        (s : ShardId) (set : ReplicaSet Db)
        → lookup s c.replica_holder.shards ≡ some set
        → DistinctPeers set.remotes

  Keeps-IsSound :
      (c : Collection Db Ring) (shards : Shards env)
      → IsSound c
      → Keeps env c.replica_holder.shards shards
      → IsSound (with_shards env c shards)
  Keeps-IsSound c shards h k = record {
    routes = record {
      shard_of = λ pid. let (s, e, there) = h.routes.shard_of pid in (s, e, k.kept s there);
    };
    segments = record {
      segment = λ s set at.
          let (old, before, same, stays) = k.from_old s set at in
          stays (h.segments.segment s old before);
    };
    peers = λ s set at.
        let (old, before, same, stays) = k.from_old s set at in
        subst DistinctPeers (sym same) (h.peers s old before);
  }

  -- A write keeps the collection sound, whether it succeeds or fails.
  pub upsert_points-IsSound :
      (c c' : Collection Db Ring) (points : List (Point Value)) (local_only : Bool) (net net' : Net)
      (r : CollectionResult (Unit {0}))
      → IsSound c
      → upsert_points env c points local_only net ≡ some (r, c', net')
      → IsSound c'
  unfolding upsert_points
  upsert_points-IsSound c c' points local_only net net' r h e =
      let holder = c.replica_holder in
      let points_map : HashMap PointId (Point Value) = collect (map (λ p. (p.id, p)) points) [] in
      elim (Result-cases (select_shards env holder (map (λ p. p.id) points))) [
        | inr (x, q) ↦ let same : c ≡ c' = ground arith in subst IsSound same h
        | inl (groups, q) ↦
            elim (Option-cases
              (upsert_groups env points_map local_only (arrange groups) holder.shards net)) [
                | inl v ↦ absurd (ground arith)
                | inr (step, v) ↦
                    let same : with_shards env c step.1 ≡ c' = ground arith in
                    subst IsSound same (
                      Keeps-IsSound c step.1 h (
                        upsert_groups-Keeps env points_map local_only (arrange groups) holder.shards
                          step.1 net step.2 step.0 v))
              ]
      ]

  added_from :
      (peer : PeerId) (name : CollectionName) (shards : Shards env) (s : ShardId)
      (set' : ReplicaSet Db)
      → lookup s (add_to_each peer name shards) ≡ some set'
      → (set : ReplicaSet Db) × (lookup s shards ≡ some set) × (add_remote peer name s set ≡ set')
  added_from peer name shards s set' at =
      let now = lookup-add_to_each peer name s shards in
      elim (Option-cases (lookup s shards)) [
        | inl absent ↦ absurd (ground arith)
        | inr (set, q) ↦ (set, q, ground arith)
      ]

  -- A peer that joins keeps the collection sound.
  pub add_remote_shards-IsSound :
      (peer : PeerId) (name : CollectionName) (c : Collection Db Ring)
      → IsSound c
      → IsSound (record c { replica_holder = add_remote_shards peer name c.replica_holder })
  unfolding add_remote_shards
  add_remote_shards-IsSound peer name c h = record {
    routes = add_remote_shards-IsRouted env peer name c.replica_holder h.routes;
    segments = record {
      segment = λ s set' at.
          let (set, before, same) = added_from peer name c.replica_holder.shards s set' at in
          subst (λ (x : ReplicaSet Db). lookup 0 x.local.segments ≢ none) same
            (unfold add_remote in λ gone. h.segments.segment s set before (ground arith));
    };
    peers = λ s set' at.
        let (set, before, same) = added_from peer name c.replica_holder.shards s set' at in
        subst (λ (x : ReplicaSet Db). DistinctPeers x.remotes) same
          (DistinctPeers-add_remote peer name s set (h.peers s set before));
  }
