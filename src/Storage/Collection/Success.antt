-- ===== src/Storage/Collection/Success.antt =====
-- Upserts to the local shards where nothing fails.
use mathlib.Core.Path.{subst}
use smoldb.Prelude.{
  String, ◌≡◌, refl, ◌∙◌, ◌≢◌, inl, inr, List, [], ◌∷◌, map, true, none, some, ok, arith, All,
  filter_map, HashMap, lookup, insert, lookup-insert, count_if, nat_eq, nat_beq_iff, ◌==◌,
  Option-cases, Bool-cases,
}
use smoldb.Types.{ShardId}
use smoldb.Storage.Point.{PointId, Point, into_string, point_id_eq}
use smoldb.Storage.Segment.{Segment, insert_point, insert_each, flush, insert_points}
use smoldb.Storage.LocalShard
use smoldb.Storage.LocalShard.{LocalShard}
use smoldb.Storage.Replicas.{ReplicaSet, execute_cluster_operation}
use smoldb.Storage.Replicas.Routing.{grown, routed, select_shards-routed, select_shards-ok}
use smoldb.Storage.Replicas.RingRoutes.{IsRouted}
use smoldb.Storage.Collection.{
  Collection, Shards, judge, upsert_replicas, upsert_shard, upsert_groups, upsert_points,
  with_shards,
}
use smoldb.Storage.Collection.ById.{by_id}
use smoldb.External.{Env, OrderLaws}

module _ (env : Env) where
  open env use {Value, Text, Db, Ring, Net, point_to_text, db_insert, db_flush, arrange, ring_get}

  -- Nothing fails: every point has a text, and sled takes every write.
  pub record IsHealthy : Type 0 where
    pub serializes : (p : Point Value) → (t : Text) × (point_to_text p ≡ ok t)
    pub inserts : (db : Db) (k : String) (t : Text) → (db_insert db k t).0 ≡ ok tt
    pub flushes : (db : Db) → (db_flush db).0 ≡ ok tt

  -- The local shard of every set has its segment 0.
  pub record HasSegments (shards : Shards env) : Type 0 where
    pub segment :
        (s : ShardId) (set : ReplicaSet Db)
        → lookup s shards ≡ some set
        → lookup 0 set.local.segments ≢ none

  -- Each group is of a shard that is there.
  abbrev IsCovered : HashMap ShardId (List PointId) → Shards env → Type 0
  IsCovered groups shards = (s : ShardId) → lookup s groups ≢ none → lookup s shards ≢ none

  routes_each :
      (ring : Ring) (pids : List PointId)
      → ((pid : PointId) → ring_get ring pid ≢ none)
      → All (λ pid. ring_get ring pid ≢ none) pids
  routes_each ring [] h = tt
  routes_each ring (pid ∷ pids) h = (h pid, routes_each ring pids h)

  -- A shard with a group is the shard of some point.
  routed_source :
      (ring : Ring) (t : ShardId) (pids : List PointId)
      → grown none (routed env ring t pids) ≢ none
      → (pid : PointId) × (ring_get ring pid ≡ some t)
  unfolding routed
  routed_source ring t [] some_group = absurd (some_group refl)
  routed_source ring t (pid ∷ pids) some_group = elim (Option-cases (ring_get ring pid)) [
    | inl q ↦ routed_source ring t pids (λ gone. some_group (rw (q, routed) gone))
    | inr (s, q) ↦ elim (Bool-cases (s == t)) [
      | inl same ↦ (pid, ground (arith, nat_beq_iff s t))
      | inr apart ↦ routed_source ring t pids (λ gone. some_group (rw (q, apart, routed) gone))
    ]
  ]

  module _ (health : IsHealthy) where
    insert_each-ok : (db : Db) (ps : List (Point Value)) → (insert_each env db ps).0 ≡ ok tt
    unfolding insert_each insert_point
    insert_each-ok db [] = refl
    insert_each-ok db (p ∷ ps) =
        let (t, q) = health.serializes p in
        let here = health.inserts db (into_string p.id) t in
        ground (arith, q, here, insert_each-ok (db_insert db (into_string p.id) t).1 ps)

    insert_points-ok :
        (segment : Segment Db) (ps : List (Point Value)) → (insert_points env segment ps).0 ≡ ok tt
    unfolding insert_points flush
    insert_points-ok segment ps =
        ground
          (arith, insert_each-ok segment.db ps, health.flushes (insert_each env segment.db ps).1)

    local-ok :
        (local : LocalShard Db) (ps : List (Point Value))
        → lookup 0 local.segments ≢ none
        → ((LocalShard.upsert_points env local ps).0 ≡ ok tt)
          × (lookup 0 (LocalShard.upsert_points env local ps).1.segments ≢ none)
    unfolding LocalShard.upsert_points
    local-ok local ps there = elim (Option-cases (lookup 0 local.segments)) [
      | inl gone ↦ absurd (there gone)
      | inr (segment, q) ↦
          let done = insert_points-ok segment ps in
          let next = lookup-insert 0 0 (insert_points env segment ps).1 local.segments in
          (ground (arith, done), λ gone. ground (arith, next))
    ]

    module _ (points_map : HashMap PointId (Point Value)) (net : Net) where
      upsert_shard-ok :
          (s : ShardId) (pids : List PointId) (shards : Shards env)
          → HasSegments shards
          → lookup s shards ≢ none
          → (shards' : Shards env) × (upsert_shard env points_map true s pids shards net
              ≡ some (ok tt, shards', net))
            × HasSegments shards'
            × ((t : ShardId) → lookup t shards ≢ none → lookup t shards' ≢ none)
      unfolding upsert_shard upsert_replicas execute_cluster_operation judge count_if
      upsert_shard-ok s pids shards ready there = elim (Option-cases (lookup s shards)) [
        | inl gone ↦ absurd (there gone)
        | inr (set, q) ↦
            let ps = filter_map (λ pid. lookup pid points_map) pids in
            let (done, kept) = local-ok set.local ps (ready.segment s set q) in
            let set' : ReplicaSet Db = record set {
              local = (LocalShard.upsert_points env set.local ps).1;
            } in
            (
              insert s set' shards,
              ground (arith, q, done),
              record {
                segment = λ t other at. elim (Bool-cases (s == t)) [
                  | inl same ↦
                      let here : set' ≡ other = ground (arith, lookup-insert s t set' shards) in
                      subst (λ (x : ReplicaSet Db). lookup 0 x.local.segments ≢ none) here kept
                  | inr apart ↦
                      ready.segment t other (ground (arith, lookup-insert s t set' shards))
                ];
              },
              λ t old gone. ground (arith, lookup-insert s t set' shards),
            )
      ]

      upsert_groups-ok :
          (groups : HashMap ShardId (List PointId)) (shards : Shards env)
          → HasSegments shards
          → IsCovered groups shards
          → (shards' : Shards env) × (upsert_groups env points_map true groups shards net
              ≡ some (ok tt, shards', net))
            × HasSegments shards'
            × ((t : ShardId) → lookup t shards ≢ none → lookup t shards' ≢ none)
      unfolding upsert_groups
      upsert_groups-ok [] shards ready covered = (shards, refl, ready, λ t there. there)
      upsert_groups-ok ((s, pids) ∷ groups) shards ready covered =
          let head : lookup s shards ≢ none =
            covered s (λ gone. unfold lookup in ground (arith, nat_beq_iff s s)) in
          let (shards1, first, ready1, kept) = upsert_shard-ok s pids shards ready head in
          let tail : IsCovered groups shards1 = λ t some_group.
            kept t (covered t (λ gone. unfold lookup in ground (arith, nat_beq_iff s t))) in
          let (shards2, rest, ready2, kept2) = upsert_groups-ok groups shards1 ready1 tail in
          (shards2, ground (arith, first, rest), ready2, λ t there. kept2 t (kept t there))

    -- Where nothing fails, every point is routed to a shard that is there, and every local shard has its
    -- segment 0, an upsert to the local shards succeeds without a call to a peer, and all of this holds
    -- again afterwards.
    -- Assumed: the laws of the iteration order.
    pub upsert_points-ok :
        (order : OrderLaws env) (c : Collection Db Ring) (points : List (Point Value)) (net : Net)
        → IsRouted env c.replica_holder
        → HasSegments c.replica_holder.shards
        → (c' : Collection Db Ring) × (upsert_points env c points true net ≡ some (ok tt, c', net))
          × IsRouted env c'.replica_holder
          × HasSegments c'.replica_holder.shards
    unfolding upsert_points
    upsert_points-ok order c points net routes ready =
        let holder = c.replica_holder in
        let pids : List PointId = map (λ p. p.id) points in
        let (groups, q) = select_shards-ok env holder pids (
          routes_each holder.ring pids
            (λ pid gone. let (s, e, there) = routes.shard_of pid in ground (arith, gone, e))) in
        let (group, unique) = select_shards-routed env holder pids groups q in
        let covered : IsCovered (arrange groups) holder.shards = λ t some_group gone.
          let (pid, e) =
            routed_source holder.ring t pids
              (λ empty. some_group (order.lookup_arranged groups t ∙ group t ∙ empty)) in
          let (s, e', there) = routes.shard_of pid in there (ground (arith, e, e', gone)) in
        let (shards', done, ready', kept) =
          upsert_groups-ok (by_id points) net (arrange groups) holder.shards ready covered in
        (
          with_shards env c shards',
          ground (arith, q, done),
          record {
            shard_of = λ pid. let (s, e, there) = routes.shard_of pid in (s, e, kept s there);
          },
          ready',
        )
