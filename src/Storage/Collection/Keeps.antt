-- ===== src/Storage/Collection/Keeps.antt =====
-- What a write leaves of the shards of a collection.
use mathlib.Core.Path.{subst}
use smoldb.Prelude.{
  ◌≡◌, refl, ◌∙◌, ap, sym, ◌≢◌, inl, inr, List, [], ◌∷◌, Bool, none, some, arith, HashMap, lookup,
  insert, lookup-insert, nat_eq, nat_beq_iff, ◌==◌, filter_map, Option-cases, Result-cases,
  Bool-cases,
}
use smoldb.Types.{ShardId}
use smoldb.Storage.Error.{CollectionResult}
use smoldb.Storage.Point.{PointId, Point, point_id_eq}
use smoldb.Storage.Segment
use smoldb.Storage.LocalShard
use smoldb.Storage.LocalShard.{LocalShard}
use smoldb.Storage.RemoteShard
use smoldb.Storage.Replicas.{ReplicaSet, num_replicas}
use smoldb.Storage.Replicas.Execute.{execute-shape}
use smoldb.Storage.Collection.{Shards, judge, upsert_replicas, upsert_shard, upsert_groups}
use smoldb.External.{Env}

module _ (env : Env) where
  open env use {Value, Db, Ring, Net, arrange}

  -- What a write may do to the shards: no shard is lost, and what a shard's replica set was made of
  -- stays.
  pub record Keeps (shards shards' : Shards env) : Type 0 where
    pub kept : (s : ShardId) → lookup s shards ≢ none → lookup s shards' ≢ none
    pub from_old :
        (s : ShardId) (set' : ReplicaSet Db)
        → lookup s shards' ≡ some set'
        → (set : ReplicaSet Db) × (lookup s shards ≡ some set)
          × (set'.remotes ≡ set.remotes)
          × (lookup 0 set.local.segments ≢ none → lookup 0 set'.local.segments ≢ none)

  Keeps-refl : (shards : Shards env) → Keeps shards shards
  Keeps-refl shards = record {
    kept = λ s there. there;
    from_old = λ s set at. (set, at, refl, λ there. there);
  }

  Keeps-trans : (a b c : Shards env) → Keeps a b → Keeps b c → Keeps a c
  Keeps-trans a b c h k = record {
    kept = λ s there. k.kept s (h.kept s there);
    from_old = λ s set at.
        let (set1, at1, same1, segment1) = k.from_old s set at in
        let (set0, at0, same0, segment0) = h.from_old s set1 at1 in
        (set0, at0, same1 ∙ same0, λ there. segment1 (segment0 there));
  }

  segment_stays :
      (local : LocalShard Db) (ps : List (Point Value))
      → lookup 0 local.segments ≢ none
      → lookup 0 (LocalShard.upsert_points env local ps).1.segments ≢ none
  unfolding LocalShard.upsert_points
  segment_stays local ps there gone = elim (Option-cases (lookup 0 local.segments)) [
    | inl absent ↦ there absent
    | inr (segment, q) ↦
        let next = lookup-insert 0 0 (Segment.insert_points env segment ps).1 local.segments in
        ground (arith, next)
  ]

  module _ (points_map : HashMap PointId (Point Value)) (local_only : Bool) where
    upsert_shard-Keeps :
        (s : ShardId) (pids : List PointId) (shards shards' : Shards env) (net net' : Net)
        (r : CollectionResult (Unit {0}))
        → upsert_shard env points_map local_only s pids shards net ≡ some (r, shards', net')
        → Keeps shards shards'
    unfolding upsert_shard upsert_replicas
    upsert_shard-Keeps s pids shards shards' net net' r e = elim (Option-cases (lookup s shards)) [
      | inl q ↦
          let same : shards ≡ shards' = ground arith in
          subst (λ x. Keeps shards x) same (Keeps-refl shards)
      | inr (set, q) ↦
          let ps = filter_map (λ pid. lookup pid points_map) pids in
          elim (Option-cases (upsert_replicas env set ps local_only net)) [
            | inl q' ↦ absurd (ground arith)
            | inr (step, q') ↦ elim (Option-cases (judge step.0 local_only (num_replicas set) s)) [
              | inl v ↦ absurd (ground arith)
              | inr (verdict, v) ↦
                  let (rest, shape, after, calls, count, quiet) =
                    execute-shape (λ local. LocalShard.upsert_points env local ps)
                      (λ remote n. RemoteShard.upsert_points env remote ps n) set step.1 local_only
                      net step.2 step.0 q' in
                  let now : insert s step.1 shards ≡ shards' = ground arith in
                  let same_remotes : step.1.remotes ≡ set.remotes =
                    ap (λ (x : ReplicaSet Db). x.remotes) after in
                  let new_local : step.1.local ≡ (LocalShard.upsert_points env set.local ps).1 =
                    ap (λ (x : ReplicaSet Db). x.local) after in
                  subst (λ x. Keeps shards x) now
                    (record {
                      kept = λ t there gone. ground (arith, lookup-insert s t step.1 shards);
                      from_old = λ t set' at. elim (Bool-cases (s == t)) [
                        | inl here ↦
                            let same : s ≡ t = (nat_beq_iff s t).0 here in
                            let found : step.1 ≡ set' =
                              ground (arith, lookup-insert s t step.1 shards) in
                            (
                              set,
                              rw same at q,
                              ap (λ (x : ReplicaSet Db). x.remotes) (sym found) ∙ same_remotes,
                              λ there.
                                  subst (λ (x : ReplicaSet Db). lookup 0 x.local.segments ≢ none)
                                    found
                                    (subst (λ (l : LocalShard Db). lookup 0 l.segments ≢ none)
                                      (sym new_local) (segment_stays set.local ps there)),
                            )
                        | inr apart ↦ (
                          set',
                          ground (arith, lookup-insert s t step.1 shards),
                          refl,
                          λ there. there,
                        )
                      ];
                    })
            ]
          ]
    ]

    pub upsert_groups-Keeps :
        (groups : HashMap ShardId (List PointId)) (shards shards' : Shards env) (net net' : Net)
        (r : CollectionResult (Unit {0}))
        → upsert_groups env points_map local_only groups shards net ≡ some (r, shards', net')
        → Keeps shards shards'
    unfolding upsert_groups
    upsert_groups-Keeps [] shards shards' net net' r e =
        let same : shards ≡ shards' = ground arith in
        subst (λ x. Keeps shards x) same (Keeps-refl shards)
    upsert_groups-Keeps ((s, pids) ∷ groups) shards shards' net net' r e =
        elim (Option-cases (upsert_shard env points_map local_only s pids shards net)) [
          | inl q ↦ absurd (ground arith)
          | inr (step, q) ↦
              let first = upsert_shard-Keeps s pids shards step.1 net step.2 step.0 q in
              elim (Result-cases step.0) [
                | inr (x, v) ↦
                    let same : step.1 ≡ shards' = ground arith in
                    subst (λ x. Keeps shards x) same first
                | inl (u, v) ↦
                    Keeps-trans shards step.1 shards' first
                      (upsert_groups-Keeps groups step.1 shards' step.2 net' r (ground arith))
              ]
        ]
