-- ===== src/Storage/Collection/Quorum.antt =====
-- When an upsert may succeed: how many replicas must have taken the points.
use smoldb.Prelude.{
  ℕ, ◌+◌, ◌≤◌, ◌≡◌, refl, ◌∙◌, sym, ◌≢◌, inl, inr, List, [], ◌∷◌, map, Bool, false, Option, none,
  some, ok, err, is_ok, arith, All, filter_map, HashMap, lookup, count_if, length, min, nat_eq,
  nat_beq_iff, Option-cases, Result-cases, if◌then◌else◌,
}
use smoldb.Types.{ShardId}
use smoldb.Storage.Error.{CollectionResult}
use smoldb.Storage.Point.{PointId, Point, point_id_eq}
use smoldb.Storage.LocalShard
use smoldb.Storage.RemoteShard
use smoldb.Storage.RemoteShard.{RemoteShard}
use smoldb.Storage.RemoteShard.Wire.{IsKnownPeer, upsert_points-unknown_peer}
use smoldb.Storage.Collection.ById.{by_id}
use smoldb.Storage.Replicas.Routing.{routed, select_shards-routed}
use smoldb.Storage.Replicas.{
  ReplicaSet, ReplicaHolder, select_onto, num_replicas, execute_remotes, execute_cluster_operation,
  select_shards,
}
use smoldb.Storage.Collection.{
  Collection, Shards, judge, default_consistency_factor, upsert_replicas, upsert_shard,
  upsert_groups, upsert_points,
}
use smoldb.External.{Env, OrderLaws}

-- The successes that an upsert of one shard needs.
abbrev pub desired : Bool → ℕ → ℕ
desired local_only replicas = if local_only then 1 else min replicas default_consistency_factor

judge_sound :
    (results : List (CollectionResult (Unit {0}))) (local_only : Bool) (n : ℕ) (s : ShardId)
    → judge results local_only n s ≡ some (ok tt)
    → desired local_only n ≤ count_if is_ok results
unfolding judge
judge_sound [] local_only n s e = absurd (ground arith)
judge_sound (err x ∷ results) local_only n s e = absurd (ground arith)
judge_sound (ok u ∷ results) local_only n s e = ground arith

module _ (env : Env) where
  open env use {Value, Db, Ring, Net, ring_get, arrange}

  -- The step on a shard succeeds only if the shard is there, and enough of the results of its
  -- replicas are successes.
  pub upsert_shard-quorum :
      (points_map : HashMap PointId (Point Value)) (local_only : Bool) (s : ShardId)
      (pids : List PointId) (shards shards' : Shards env) (net net' : Net)
      → upsert_shard env points_map local_only s pids shards net ≡ some (ok tt, shards', net')
      → (set : ReplicaSet Db) × (set' : ReplicaSet Db) × (results : List
          (CollectionResult (Unit {0})))
        × (lookup s shards ≡ some set)
        × (upsert_replicas env set (filter_map (λ pid. lookup pid points_map) pids) local_only net
            ≡ some (results, set', net'))
        × (desired local_only (num_replicas set) ≤ count_if is_ok results)
  unfolding upsert_shard
  upsert_shard-quorum points_map local_only s pids shards shards' net net' e =
      elim (Option-cases (lookup s shards)) [
        | inl q ↦ absurd (ground arith)
        | inr (set, q) ↦
            let points = filter_map (λ pid. lookup pid points_map) pids in
            elim (Option-cases (upsert_replicas env set points local_only net)) [
              | inl q' ↦ absurd (ground arith)
              | inr (step, q') ↦
                  elim (Option-cases (judge step.0 local_only (num_replicas set) s)) [
                    | inl v ↦ absurd (ground arith)
                    | inr (verdict, v) ↦ (
                      set,
                      step.1,
                      step.0,
                      q,
                      ground arith,
                      judge_sound step.0 local_only (num_replicas set) s (ground arith),
                    )
                  ]
            ]
      ]

  -- A set with remote replicas, none on a peer with a known address.
  pub record IsUnreachable (set : ReplicaSet Db) : Type 0 where
    pub remote : set.remotes ≢ []
    pub unknown : All (λ r. ¬ IsKnownPeer r.peer_id) set.remotes

  module _ (points : List (Point Value)) where
    abbrev on_local :
        LocalShard.LocalShard Db → CollectionResult (Unit {0}) × LocalShard.LocalShard Db
    on_local local = LocalShard.upsert_points env local points

    abbrev on_remote : RemoteShard → Net → Option (CollectionResult (Unit {0}) × Net)
    on_remote remote n = RemoteShard.upsert_points env remote points n

    remotes_fail :
        (remotes : List RemoteShard) (net net' : Net) (results : List (CollectionResult (Unit {0})))
        → All (λ r. ¬ IsKnownPeer r.peer_id) remotes
        → execute_remotes on_local on_remote remotes net ≡ some (results, net')
        → count_if is_ok results ≡ 0
    unfolding execute_remotes count_if
    remotes_fail [] net net' results h e = ground arith
    remotes_fail (r ∷ remotes) net net' results h e = elim (Option-cases (on_remote r net)) [
      | inl q ↦ absurd (ground arith)
      | inr (step, q) ↦ elim (Option-cases (execute_remotes on_local on_remote remotes step.1)) [
        | inl q' ↦ absurd (ground arith)
        | inr (rest, q') ↦
            let failed = upsert_points-unknown_peer env r points net step.1 step.0 h.0 q in
            let others = remotes_fail remotes step.1 rest.1 rest.0 h.1 q' in ground arith
      ]
    ]

    unreachable_replicas :
        (set set' : ReplicaSet Db) (net net' : Net) (results : List (CollectionResult (Unit {0})))
        → IsUnreachable set
        → upsert_replicas env set points false net ≡ some (results, set', net')
        → (count_if is_ok results ≤ 1) × (2 ≤ num_replicas set)
    unfolding upsert_replicas execute_cluster_operation count_if num_replicas
    unreachable_replicas set set' net net' results h e =
        elim (Option-cases (execute_remotes on_local on_remote set.remotes net)) [
          | inl q ↦ absurd (ground arith)
          | inr (rest, q) ↦
              let failed = remotes_fail set.remotes net rest.1 rest.0 h.unknown q in
              (ground arith, two set.remotes h.remote)
        ]
      where
        two : (remotes : List RemoteShard) → remotes ≢ [] → 2 ≤ length remotes + 1
        two [] absent = absurd (absent refl)
        two (r ∷ remotes) absent = omega arith

  unreachable_shard :
      (points_map : HashMap PointId (Point Value)) (s : ShardId) (pids : List PointId)
      (shards shards' : Shards env) (net net' : Net)
      → ((t : ShardId) (set : ReplicaSet Db) → lookup t shards ≡ some set → IsUnreachable set)
      → upsert_shard env points_map false s pids shards net ≢ some (ok tt, shards', net')
  unreachable_shard points_map s pids shards shards' net net' h e =
      let (set, set', results, there, ran, enough) =
        upsert_shard-quorum points_map false s pids shards shards' net net' e in
      let (few, many) =
        unreachable_replicas (filter_map (λ pid. lookup pid points_map) pids) set set' net net'
          results (h s set there) ran in
      omega arith

  unreachable_groups :
      (points_map : HashMap PointId (Point Value)) (groups : HashMap ShardId (List PointId))
      (s : ShardId) (shards shards' : Shards env) (net net' : Net)
      → lookup s groups ≢ none
      → ((t : ShardId) (set : ReplicaSet Db) → lookup t shards ≡ some set → IsUnreachable set)
      → upsert_groups env points_map false groups shards net ≢ some (ok tt, shards', net')
  unfolding upsert_groups
  unreachable_groups points_map [] s shards shards' net net' one h e = one (unfold lookup in refl)
  unreachable_groups points_map ((t, pids) ∷ groups) s shards shards' net net' one h e =
      elim (Option-cases (upsert_shard env points_map false t pids shards net)) [
        | inl q ↦ ground arith
        | inr (step, q) ↦ elim (Result-cases step.0) [
          | inr (x, v) ↦ ground arith
          | inl (u, v) ↦
              unreachable_shard points_map t pids shards step.1 net step.2 h (ground arith)
        ]
      ]

  first_group :
      (holder : ReplicaHolder Db Ring) (pid : PointId) (pids : List PointId)
      (groups : HashMap ShardId (List PointId))
      → select_shards env holder (pid ∷ pids) ≡ ok groups
      → (s : ShardId) × (lookup s groups ≢ none)
  first_group holder pid pids groups e =
      let (group, unique) = select_shards-routed env holder (pid ∷ pids) groups e in
      elim (Option-cases (ring_get holder.ring pid)) [
        | inl q ↦ absurd (unfold select_shards select_onto in ground arith)
        | inr (s, q) ↦ (
          s,
          λ gone.
              let mine = sym (group s) ∙ gone in unfold routed in ground (arith, nat_beq_iff s s),
        )
      ]

  -- If every replica set has a remote replica and all its remote replicas are on peers other than
  -- those with a written address, then no upsert of at least one point to the cluster succeeds, even
  -- though each local replica may take its points.
  -- Assumed: the laws of the iteration order.
  pub upsert_points-unreachable :
      (order : OrderLaws env) (c c' : Collection Db Ring) (p : Point Value)
      (points : List (Point Value)) (net net' : Net)
      → ((t : ShardId) (set : ReplicaSet Db)
          → lookup t c.replica_holder.shards ≡ some set
          → IsUnreachable set)
      → upsert_points env c (p ∷ points) false net ≢ some (ok tt, c', net')
  unfolding upsert_points
  upsert_points-unreachable order c c' p points net net' h e =
      let holder = c.replica_holder in
      let pids : List PointId = map (λ q. q.id) (p ∷ points) in
      let points_map = by_id (p ∷ points) in
      elim (Result-cases (select_shards env holder pids)) [
        | inr (x, q) ↦ absurd (ground arith)
        | inl (groups, q) ↦
            let (s, some_group) = first_group holder p.id (map (λ q. q.id) points) groups q in
            elim (Option-cases
              (upsert_groups env points_map false (arrange groups) holder.shards net)) [
                | inl v ↦ absurd (ground arith)
                | inr (step, v) ↦
                    unreachable_groups points_map (arrange groups) s holder.shards step.1 net step.2
                      (rw order.lookup_arranged some_group) h (ground arith)
              ]
      ]
