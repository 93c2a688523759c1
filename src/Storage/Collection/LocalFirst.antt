-- ===== src/Storage/Collection/LocalFirst.antt =====
-- Reads of all points of one shard, and the points of the local replica.
use smoldb.Prelude.{
  ◌≡◌, ◌∙◌, ap, inl, inr, List, [], ◌∷◌, ◌++◌, Bool, Option, none, some, ok, err, arith, lookup,
  nat_eq, ◌==◌, Option-cases, Result-cases, Bool-cases,
}
use mathlib.Core.List.{append_assoc}
use smoldb.Types.{ShardId}
use smoldb.Storage.Point.{PointId, Point}
use smoldb.Storage.PointOrder.Laws.{find, first, find-++}
use smoldb.Storage.LocalShard
use smoldb.Storage.RemoteShard
use smoldb.Storage.RemoteShard.{RemoteShard}
use smoldb.Storage.Replicas.{ReplicaSet, execute_cluster_operation}
use smoldb.Storage.Replicas.Execute.{execute-shape}
use smoldb.Storage.Collection.{Collection, Shards, flatten_results, read_replicas, get_points}
use smoldb.External.{Env}
use smoldb.Storage.Collection.ReadAll.{Answer, prepended, gather, get_points-gather}

module _ (env : Env) where
  open env use {Value, Db, Ring, Net}

  find-prepend :
      (pid : PointId) (p : Point Value) (ps qs : List (Point Value))
      → find pid ps ≡ some p
      → find pid (ps ++ qs) ≡ some p
  find-prepend pid p ps qs at = find-++ pid ps qs ∙ ap (λ o. first o (find pid qs)) at

  flatten-ok :
      (points answer : List (Point Value)) (results : List (Answer env))
      → flatten_results (ok points ∷ results) ≡ ok answer
      → (rest : List (Point Value)) × (answer ≡ points ++ rest)
  unfolding flatten_results
  flatten-ok points answer results e = elim (Result-cases (flatten_results results)) [
    | inl (rest, q) ↦ (rest, ground arith)
    | inr (f, q) ↦ absurd (ground arith)
  ]

  prepended-ok :
      (points answer : List (Point Value)) (more : Option (Answer env × Net)) (net : Net)
      → prepended env points more ≡ some (ok answer, net)
      → (rest : List (Point Value)) × (answer ≡ points ++ rest)
  prepended-ok points answer none net e = absurd (ground arith)
  prepended-ok points answer (some (err f, n)) net e = absurd (ground arith)
  prepended-ok points answer (some (ok rest, n)) net e = (rest, ground arith)

  -- What a replica set answers begins with what its local shard answers.
  read_replicas-local :
      (set : ReplicaSet Db) (local_only : Bool) (points answer : List (Point Value))
      (net net' : Net)
      → LocalShard.get_points env set.local none ≡ ok points
      → read_replicas env set local_only net ≡ some (ok answer, net')
      → (rest : List (Point Value)) × (answer ≡ points ++ rest)
  unfolding read_replicas
  read_replicas-local set local_only points answer net net' local e =
      let on_local : LocalShard.LocalShard Db → Answer env × LocalShard.LocalShard Db =
        λ shard. (LocalShard.get_points env shard none, shard) in
      let on_remote : RemoteShard → Net → Option (Answer env × Net) =
        λ remote n. RemoteShard.get_points env remote none n in
      elim (Option-cases (execute_cluster_operation on_local on_remote set local_only net)) [
        | inl q ↦ absurd (ground arith)
        | inr ((results, set', n), q) ↦
            let (rest, shape, others, remote, count, calls) =
              execute-shape on_local on_remote set set' local_only net n results q in
            flatten-ok points answer rest (ground arith)
      ]

  gather-local :
      (s : ShardId) (set : ReplicaSet Db) (local_only : Bool) (shards : Shards env)
      (points answer : List (Point Value)) (net net' : Net)
      → lookup s shards ≡ some set
      → LocalShard.get_points env set.local none ≡ ok points
      → gather env (some s) local_only shards net ≡ some (ok answer, net')
      → (rest : List (Point Value)) × (answer ≡ points ++ rest)
  unfolding gather lookup
  gather-local s set local_only [] points answer net net' at local e = absurd (ground arith)
  gather-local s set local_only ((t, here) ∷ shards) points answer net net' at local e =
      elim (Bool-cases (t == s)) [
        | inr other ↦
            gather-local s set local_only shards points answer net net' (ground arith) local
              (ground arith)
        | inl same ↦
            let it : here ≡ set = ground arith in
            let local' =
              ap (λ (r : ReplicaSet Db). LocalShard.get_points env r.local none) it ∙ local in
            elim (Option-cases (read_replicas env here local_only net)) [
              | inl q ↦ absurd (ground arith)
              | inr ((err f, n), q) ↦ absurd (ground arith)
              | inr ((ok own, n), q) ↦
                  let (others, begins) =
                    read_replicas-local here local_only points own net n local' q in
                  let (rest, more) =
                    prepended-ok own answer (gather env (some s) local_only shards n) net'
                      (ground arith) in
                  (
                    others ++ rest,
                    more ∙ ap (λ ps. ps ++ rest) begins ∙ append_assoc points others rest,
                  )
            ]
      ]

  -- Where all points of one shard are read and the local replica has a point with an id, it is the
  -- one that is read, whatever the remote replicas answer.
  pub get_points-local_first :
      (c : Collection Db Ring) (s : ShardId) (set : ReplicaSet Db) (local_only : Bool)
      (points found : List (Point Value)) (net net' : Net) (pid : PointId) (p : Point Value)
      → lookup s c.replica_holder.shards ≡ some set
      → LocalShard.get_points env set.local none ≡ ok points
      → get_points env c none (some s) local_only net ≡ some (ok found, net')
      → find pid points ≡ some p
      → find pid found ≡ some p
  get_points-local_first c s set local_only points found net net' pid p at local e here =
      let (answer, gathered, sorted, same) =
        get_points-gather env c (some s) local_only found net net' e in
      let (rest, begins) =
        gather-local s set local_only c.replica_holder.shards points answer net net' at local
          gathered in
      same pid ∙ ap (find pid) begins ∙ find-prepend pid p points rest here
