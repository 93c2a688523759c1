-- ===== src/Storage/Collection/Writes.antt =====
-- What the local shards of a collection hold after an upsert that succeeded.
use mathlib.Core.Option
use mathlib.Core.Path.{subst}
use smoldb.Prelude.{
  ℕ, ◌≡◌, refl, ◌∙◌, ap, sym, ◌≢◌, inl, inr, List, [], ◌∷◌, Bool, Option, none, some, ok, err,
  arith, HashMap, lookup, insert, lookup-insert, Unique, nat_eq, nat_beq_iff, ◌==◌, or_empty,
  filter_map, Option-cases, Bool-cases, Result-cases, All, if◌then◌else◌,
}
use smoldb.Types.{ShardId}
use smoldb.Storage.Error.{CollectionResult}
use smoldb.Storage.Point.{PointId, Point, point_id_eq}
use smoldb.Storage.LocalShard
use smoldb.Storage.RemoteShard
use smoldb.Storage.Segment.Writes.{Read, RoundTrips, last_under}
use smoldb.Storage.LocalShard.Writes.{shard_read, overwrite, shard_read-upsert_points}
use smoldb.Storage.Replicas.{ReplicaSet, num_replicas}
use smoldb.Storage.Replicas.Execute.{execute-shape}
use smoldb.Storage.Collection.{judge, Shards, upsert_replicas, upsert_shard, upsert_groups}
use smoldb.External.{Env, SledLaws}

judge-ok :
    (r : CollectionResult (Unit {0})) (rest : List (CollectionResult (Unit {0})))
    (local_only : Bool) (n : ℕ) (s : ShardId)
    → judge (r ∷ rest) local_only n s ≡ some (ok tt)
    → r ≡ ok tt
unfolding judge
judge-ok (ok u) rest local_only n s e = refl
judge-ok (err x) rest local_only n s e = absurd (ground arith)

-- The points of a batch that go to a shard.
abbrev pub batch : {V : Type 0} → HashMap PointId (Point V) → List PointId → List (Point V)
batch points_map pids = filter_map (λ pid. lookup pid points_map) pids

module _ (env : Env) where
  open env use {Value, Db, Net}

  -- What is stored under an id in the local replica of a shard.
  unfoldable pub stored : Shards env → ShardId → PointId → Option (Read env)
  stored shards s pid = elim (lookup s shards) [
    | none ↦ none
    | some set ↦ shard_read env set.local pid
  ]

  overwrite-nil : (pid : PointId) (o : Option (Read env)) → Option.map (overwrite env pid []) o ≡ o
  unfolding last_under
  overwrite-nil pid none = refl
  overwrite-nil pid (some r) = refl

  module _ (laws : SledLaws env) (points_map : HashMap PointId (Point Value))
      (trips : (pid : PointId) (p : Point Value)
        → lookup pid points_map ≡ some p
        → RoundTrips env p)
      (local_only : Bool) where
    batch_trips : (pids : List PointId) → All (RoundTrips env) (batch points_map pids)
    batch_trips [] = tt
    batch_trips (pid ∷ pids) = elim (Option-cases (lookup pid points_map)) [
      | inl q ↦ rw q (batch_trips pids)
      | inr (p, q) ↦ rw q (trips pid p q, batch_trips pids)
    ]

    local_written :
        (set set' : ReplicaSet Db) (points : List (Point Value)) (net net' : Net) (s : ShardId)
        (results : List (CollectionResult (Unit {0})))
        → upsert_replicas env set points local_only net ≡ some (results, set', net')
        → judge results local_only (num_replicas set) s ≡ some (ok tt)
        → LocalShard.upsert_points env set.local points ≡ (ok tt, set'.local)
    unfolding upsert_replicas
    local_written set set' points net net' s results e v =
        let (rest, shape, after, calls, count, quiet) =
          execute-shape (λ local. LocalShard.upsert_points env local points)
            (λ remote n. RemoteShard.upsert_points env remote points n) set set' local_only net net'
            results e in
        let fine =
          judge-ok (LocalShard.upsert_points env set.local points).0 rest local_only
            (num_replicas set) s (rw shape at v) in
        let same : set'.local ≡ (LocalShard.upsert_points env set.local points).1 =
          ap (λ (x : ReplicaSet Db). x.local) after in
        ground arith

    upsert_shard_inv :
        (s : ShardId) (pids : List PointId) (shards shards' : Shards env) (net net' : Net)
        → upsert_shard env points_map local_only s pids shards net ≡ some (ok tt, shards', net')
        → (set : ReplicaSet Db) × (set' : ReplicaSet Db) × (lookup s shards ≡ some set)
          × (LocalShard.upsert_points env set.local (batch points_map pids) ≡ (ok tt, set'.local))
          × (shards' ≡ insert s set' shards)
    unfolding upsert_shard
    upsert_shard_inv s pids shards shards' net net' e = elim (Option-cases (lookup s shards)) [
      | inl q ↦ absurd (ground arith)
      | inr (set, q) ↦
          elim (Option-cases (upsert_replicas env set (batch points_map pids) local_only net)) [
            | inl q' ↦ absurd (ground arith)
            | inr (step, q') ↦ elim (Option-cases (judge step.0 local_only (num_replicas set) s)) [
              | inl v ↦ absurd (ground arith)
              | inr (verdict, v) ↦ (
                set,
                step.1,
                q,
                local_written set step.1 (batch points_map pids) net step.2 s step.0 q'
                    (ground arith),
                ground arith,
              )
            ]
          ]
    ]

    -- The step on one shard overwrites what that shard holds, and no other.
    stored-upsert_shard :
        (s t : ShardId) (pids : List PointId) (shards shards' : Shards env) (net net' : Net)
        (pid : PointId)
        → upsert_shard env points_map local_only s pids shards net ≡ some (ok tt, shards', net')
        → (stored shards' t pid
            ≡ Option.map
                (overwrite env pid (if s == t then batch points_map pids else []))
                (stored shards t pid))
          × (stored shards' s pid ≢ none)
    unfolding stored last_under
    stored-upsert_shard s t pids shards shards' net net' pid e =
        let (set, set', q, written, after) = upsert_shard_inv s pids shards shards' net net' e in
        let (r, old, new) =
          shard_read-upsert_points env laws set.local set'.local (batch points_map pids) pid
            (batch_trips pids) written in
        (
          ground (arith, lookup-insert s t set' shards, nat_beq_iff s t),
          λ gone. ground (arith, lookup-insert s s set' shards, nat_beq_iff s s),
        )

    abbrev Overwritten :
        Shards env → Shards env → PointId → ShardId → Option (List PointId) → Type 0
    Overwritten shards shards' pid t pids =
        (stored shards' t pid
          ≡ Option.map (overwrite env pid (batch points_map (or_empty pids))) (stored shards t pid))
        × (pids ≢ none → stored shards' t pid ≢ none)

    combine :
        (s t : ShardId) (pids : List PointId) (groups : HashMap ShardId (List PointId))
        (shards between shards' : Shards env) (pid : PointId)
        → lookup s groups ≡ none
        → (stored between t pid
            ≡ Option.map
                (overwrite env pid (if s == t then batch points_map pids else []))
                (stored shards t pid))
          × (stored between s pid ≢ none)
        → Overwritten between shards' pid t (lookup t groups)
        → Overwritten shards shards' pid t (if s == t then some pids else lookup t groups)
    combine s t pids groups shards between shards' pid absent step rest =
        elim (Bool-cases (s == t)) [
          | inl same ↦
              let here : s ≡ t = (nat_beq_iff s t).0 same in
              let gone : lookup t groups ≡ none = rw here at absent in
              let last = (rw gone at rest.0) ∙ overwrite-nil pid (stored between t pid) in
              rw same (
                last ∙ (rw same at step.0),
                λ _ e. subst (λ x. stored between x pid ≢ none) here step.1 (sym last ∙ e),
              )
          | inr other ↦ rw other (
            rest.0
                ∙ ap
                    (Option.map (overwrite env pid (batch points_map (or_empty (lookup t groups)))))
                    ((rw other at step.0) ∙ overwrite-nil pid (stored shards t pid)),
            rest.1,
          )
        ]

    -- The loop overwrites each shard by the points of its group.
    pub stored-upsert_groups :
        (groups : HashMap ShardId (List PointId)) (shards shards' : Shards env) (net net' : Net)
        (pid : PointId) (t : ShardId)
        → Unique groups
        → upsert_groups env points_map local_only groups shards net ≡ some (ok tt, shards', net')
        → Overwritten shards shards' pid t (lookup t groups)
    unfolding upsert_groups lookup
    stored-upsert_groups [] shards shards' net net' pid t h e =
        let same : shards ≡ shards' = ground arith in
        (rw (overwrite-nil, same), λ some_group. absurd (some_group refl))
    stored-upsert_groups ((s, pids) ∷ groups) shards shards' net net' pid t h e =
        elim (Option-cases (upsert_shard env points_map local_only s pids shards net)) [
          | inl q ↦ absurd (ground arith)
          | inr (step, q) ↦ elim (Result-cases step.0) [
            | inr (x, v) ↦ absurd (ground arith)
            | inl (u, v) ↦
                combine s t pids groups shards step.1 shards' pid h.0
                  (stored-upsert_shard s t pids shards step.1 net step.2 pid (ground arith))
                  (stored-upsert_groups groups step.1 shards' step.2 net' pid t h.1 (ground arith))
          ]
        ]
