-- ===== src/Storage/Replicas/RingRoutes.antt =====
-- The routes of the ring, and the shards that are there.
use smoldb.Prelude.{
  ◌≡◌, sym, ◌∙◌, ◌≢◌, ◌⊎◌, inl, inr, [], ◌∷◌, none, some, arith, HashMap, lookup, nat_eq,
  nat_beq_iff, ◌==◌, Option-cases, Bool-cases,
}
use smoldb.Types.{ShardId, PeerId, CollectionName}
use smoldb.Storage.Point.{PointId}
use smoldb.Storage.Replicas.{ReplicaSet, ReplicaHolder, add_nodes, new_holder, add_remote_shards}
use smoldb.Storage.Replicas.Peers.{lookup-add_to_each}
use smoldb.External.{Env, RingLaws}

module _ (env : Env) where
  open env use {Db, Ring, ring_new, ring_add, ring_get}

  -- Each point is routed, and to a shard of the holder.
  pub record IsRouted (holder : ReplicaHolder Db Ring) : Type 0 where
    pub shard_of :
        (pid : PointId)
        → (s : ShardId) × (ring_get holder.ring pid ≡ some s) × (lookup s holder.shards ≢ none)

  module _ (laws : RingLaws env) where
    add_nodes-routes :
        (shards : HashMap ShardId (ReplicaSet Db)) (ring : Ring) (pid : PointId) (s : ShardId)
        → ring_get (add_nodes env ring shards) pid ≡ some s
        → (lookup s shards ≢ none) ⊎ (ring_get ring pid ≡ some s)
    unfolding add_nodes lookup
    add_nodes-routes [] ring pid s e = inr e
    add_nodes-routes ((t, set) ∷ shards) ring pid s e = elim (Bool-cases (t == s)) [
      | inl same ↦ inl (λ gone. ground arith)
      | inr other ↦ elim (add_nodes-routes shards (ring_add ring t) pid s e) [
        | inl there ↦ inl (λ gone. there (rw other at gone))
        | inr before ↦ elim (laws.moves ring t pid) [
          | inl moved ↦ inl (λ gone. ground (arith, nat_beq_iff t s))
          | inr kept ↦ inr (sym kept ∙ before)
        ]
      ]
    ]

    add_nodes-total :
        (shards : HashMap ShardId (ReplicaSet Db)) (ring : Ring) (t : ShardId) (pid : PointId)
        → ring_get (add_nodes env (ring_add ring t) shards) pid ≢ none
    unfolding add_nodes
    add_nodes-total [] ring t pid = laws.total ring t pid
    add_nodes-total ((u, set) ∷ shards) ring t pid = add_nodes-total shards (ring_add ring t) u pid

    -- A holder that was made of at least one shard routes every point to one of them.
    -- Assumed: at least one shard, and the laws of the ring.
    pub new_holder-IsRouted :
        (s : ShardId) (set : ReplicaSet Db) (shards : HashMap ShardId (ReplicaSet Db))
        → IsRouted (new_holder env ((s, set) ∷ shards))
    unfolding new_holder add_nodes
    new_holder-IsRouted s set shards = record {
      shard_of = λ pid.
          elim (Option-cases (ring_get (add_nodes env (ring_add ring_new s) shards) pid)) [
            | inl gone ↦ absurd (add_nodes-total shards ring_new s pid gone)
            | inr (t, e) ↦ elim (add_nodes-routes ((s, set) ∷ shards) ring_new pid t e) [
              | inl there ↦ (t, e, there)
              | inr old ↦ absurd (ground (arith, laws.empty pid))
            ]
          ];
    }

  -- A new peer moves no point.
  pub add_remote_shards-IsRouted :
      (peer : PeerId) (collection : CollectionName) (holder : ReplicaHolder Db Ring)
      → IsRouted holder
      → IsRouted (add_remote_shards peer collection holder)
  unfolding add_remote_shards
  add_remote_shards-IsRouted peer collection holder h = record {
    shard_of = λ pid.
        let (s, e, there) = h.shard_of pid in
        (
          s,
          e,
          λ gone. elim (Option-cases (lookup s holder.shards)) [
            | inl absent ↦ there absent
            | inr (set, q) ↦ (ground (arith, lookup-add_to_each peer collection s holder.shards))
          ],
        );
  }
