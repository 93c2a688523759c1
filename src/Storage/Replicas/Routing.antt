-- ===== src/Storage/Replicas/Routing.antt =====
-- How `select_shards` groups the points: by the shard that the ring gives for each.
use mathlib.Core.List.{append_assoc}
use mathlib.Core.Path.{subst}
use smoldb.Prelude.{
  ◌≡◌, refl, ◌∙◌, ◌≢◌, inl, inr, List, [], ◌∷◌, ◌++◌, Option, none, some, ok, arith, HashMap,
  lookup, lookup-insert, Unique, insert-Unique, nat_eq, nat_beq_iff, ◌==◌, or_empty, Option-cases,
  All, Bool-cases, ok-injective, if◌then◌else◌,
}
use smoldb.Types.{ShardId}
use smoldb.Storage.Point.{PointId}
use smoldb.Storage.Replicas.{ReplicaHolder, push, select_onto, select_shards}
use smoldb.External.{Env}

-- The entry of a map once some points were pushed to it: no push makes no entry.
abbrev pub grown : Option (List PointId) → List PointId → Option (List PointId)
grown old [] = old
grown old (p ∷ ps) = some (or_empty old ++ p ∷ ps)

grown-cons :
    (old : Option (List PointId)) (p : PointId) (ps : List PointId)
    → grown (some (or_empty old ++ p ∷ [])) ps ≡ grown old (p ∷ ps)
grown-cons old p [] = refl
grown-cons old p (q ∷ ps) = rw (append_assoc (or_empty old) (p ∷ []) (q ∷ ps))

grown-push :
    (t s : ShardId) (p : PointId) (m : HashMap ShardId (List PointId)) (ps : List PointId)
    → grown (lookup s (push t p m)) ps ≡ grown (lookup s m) (if t == s then p ∷ ps else ps)
unfolding push
grown-push t s p m ps = elim (Bool-cases (t == s)) [
  | inl same ↦
      let here : t ≡ s = (nat_beq_iff t s).0 same in
      rw (lookup-insert, same, here) (grown-cons (lookup s m) p ps)
  | inr other ↦ rw (lookup-insert, other)
]

push-Unique :
    (t : ShardId) (p : PointId) (m : HashMap ShardId (List PointId))
    → Unique m
    → Unique (push t p m)
unfolding push
push-Unique t p m h = insert-Unique t _ m h

module _ (env : Env) where
  open env use {Db, Ring, ring_get}

  -- The points that the ring sends to a shard, in their order.
  unfoldable pub routed : Ring → ShardId → List PointId → List PointId
  routed ring s [] = []
  routed ring s (pid ∷ pids) =
      let rest = routed ring s pids in
      elim (ring_get ring pid) [ none ↦ rest | some t ↦ if t == s then pid ∷ rest else rest ]

  lookup-select_onto :
      (ring : Ring) (m m' : HashMap ShardId (List PointId)) (pids : List PointId) (s : ShardId)
      → select_onto env ring m pids ≡ ok m'
      → lookup s m' ≡ grown (lookup s m) (routed ring s pids)
  unfolding select_onto routed
  lookup-select_onto ring m m' [] s e = ground arith
  lookup-select_onto ring m m' (pid ∷ pids) s e = elim (Option-cases (ring_get ring pid)) [
    | inl q ↦ absurd (ground arith)
    | inr (t, q) ↦
        let ih = lookup-select_onto ring (push t pid m) m' pids s (ground arith) in
        rw (q, routed) (ih ∙ grown-push t s pid m (routed ring s pids))
  ]

  select_onto-Unique :
      (ring : Ring) (m m' : HashMap ShardId (List PointId)) (pids : List PointId)
      → Unique m
      → select_onto env ring m pids ≡ ok m'
      → Unique m'
  unfolding select_onto
  select_onto-Unique ring m m' [] h e = subst Unique (ok-injective e) h
  select_onto-Unique ring m m' (pid ∷ pids) h e = elim (Option-cases (ring_get ring pid)) [
    | inl q ↦ absurd (ground arith)
    | inr (t, q) ↦
        select_onto-Unique ring (push t pid m) m' pids (push-Unique t pid m h) (ground arith)
  ]

  select_onto-ok :
      (ring : Ring) (m : HashMap ShardId (List PointId)) (pids : List PointId)
      → All (λ pid. ring_get ring pid ≢ none) pids
      → (m' : HashMap ShardId (List PointId)) × (select_onto env ring m pids ≡ ok m')
  unfolding select_onto
  select_onto-ok ring m [] h = (m, refl)
  select_onto-ok ring m (pid ∷ pids) h = elim (Option-cases (ring_get ring pid)) [
    | inl q ↦ absurd (h.0 q)
    | inr (t, q) ↦
        let (m', e) = select_onto-ok ring (push t pid m) pids h.1 in (m', rw (q, select_onto) e)
  ]

  module _ (holder : ReplicaHolder Db Ring) where
    -- `select_shards` gives each shard exactly the points that the ring sends there, in the order of
    -- the request, has no group without points and no shard twice.
    pub select_shards-routed :
        (pids : List PointId) (groups : HashMap ShardId (List PointId))
        → select_shards env holder pids ≡ ok groups
        → ((s : ShardId) → lookup s groups ≡ grown none (routed holder.ring s pids)) × Unique groups
    unfolding select_shards lookup
    select_shards-routed pids groups e = (
      λ s. lookup-select_onto holder.ring [] groups pids s e,
      select_onto-Unique holder.ring [] groups pids tt e,
    )

    -- It fails only if the ring gives no shard for some point.
    pub select_shards-ok :
        (pids : List PointId)
        → All (λ pid. ring_get holder.ring pid ≢ none) pids
        → (groups : HashMap ShardId (List PointId)) × (select_shards env holder pids ≡ ok groups)
    unfolding select_shards
    select_shards-ok pids h = select_onto-ok holder.ring [] pids h
