-- ===== src/Storage/Collection/ReadAll.antt =====
-- Reads of all points, and the answers of the replicas one after another.
use smoldb.Prelude.{
  ◌≡◌, refl, ◌∙◌, ap, sym, ◌>>=◌, inl, inr, List, [], ◌∷◌, ◌++◌, Bool, true, false, Option, none,
  some, ok, err, arith, nat_eq, map, Option-cases, Bool-cases, Result-cases,
}
use mathlib.Core.Path.{subst}
use mathlib.Core.List.{flatten}
use smoldb.Types.{ShardId}
use smoldb.Storage.Error.{CollectionResult}
use smoldb.Storage.Point.{PointId, Point}
use smoldb.Storage.LocalShard
use smoldb.Storage.RemoteShard
use smoldb.Storage.Replicas.{ReplicaSet, execute_cluster_operation}
use smoldb.Storage.PointOrder.{insert_vacant, insert_all}
use smoldb.Storage.PointOrder.Laws.{IsSorted, find, find-insert_all, insert_all-IsSorted}
use smoldb.Storage.Collection.{
  Collection, Shards, flatten_results, read_replicas, is_desired, read_shards, get_points,
}
use smoldb.External.{Env}

module _ (env : Env) where
  open env use {Value, Db, Ring, Net}

  abbrev pub Answer : Type 0
  Answer = CollectionResult (List (Point Value))

  abbrev pub prepend : List (Point Value) → Answer → Answer
  prepend points (ok rest) = ok (points ++ rest)
  prepend points (err e) = err e

  abbrev pub merge : List (Point Value) → Answer → Answer
  merge found (ok points) = ok (insert_all points found)
  merge found (err e) = err e

  abbrev pub prepended : List (Point Value) → Option (Answer × Net) → Option (Answer × Net)
  prepended points none = none
  prepended points (some (rest, net)) = some (prepend points rest, net)

  -- The answers of the replicas of the shards that are asked for, one after another.
  unfoldable pub gather : Option ShardId → Bool → Shards env → Net → Option (Answer × Net)
  gather asked local_only [] net = some (ok [], net)
  gather asked local_only ((s, set) ∷ shards) net = elim (is_desired env asked s) [
    | false ↦ gather asked local_only shards net
    | true ↦ (do
      (answer, net') ← read_replicas env set local_only net
      elim answer [
        | err e ↦ some (err e, net')
        | ok points ↦ prepended points (gather asked local_only shards net')
      ])
  ]

  -- The answers of all replicas of one shard, errors included.
  abbrev replica_results : ReplicaSet Db → Bool → Net → Option (List Answer × ReplicaSet Db × Net)
  replica_results set local_only net =
      execute_cluster_operation (λ local. (LocalShard.get_points env local none, local))
        (λ remote n. RemoteShard.get_points env remote none n) set local_only net

  -- Every replica of every shard that is asked for answered with points, one shard after another, and
  -- these points stand one after another in the order of the answers.
  pub data Gathered (asked : Option ShardId) (local_only : Bool)
      : Shards env → Net → List (Point Value) → Net → Type 0 where
    no_shard : {net : Net} → Gathered asked local_only [] net [] net
    passed_over :
        {s : ShardId} {set : ReplicaSet Db} {shards : Shards env} {net net' : Net}
        {points : List (Point Value)}
        → is_desired env asked s ≡ false
        → Gathered asked local_only shards net points net'
        → Gathered asked local_only ((s, set) ∷ shards) net points net'
    answered :
        {s : ShardId} {set set' : ReplicaSet Db} {shards : Shards env} {net net1 net' : Net}
        {points : List (Point Value)} (answers : List (List (Point Value)))
        → is_desired env asked s ≡ true
        → replica_results set local_only net ≡ some (map ok answers, set', net1)
        → Gathered asked local_only shards net1 points net'
        → Gathered asked local_only ((s, set) ∷ shards) net (flatten answers ++ points) net'

  flatten_results_inv :
      (results : List Answer) (points : List (Point Value))
      → flatten_results results ≡ ok points
      → (answers : List (List (Point Value))) × (results ≡ map ok answers)
        × (flatten answers ≡ points)
  unfolding flatten_results flatten
  flatten_results_inv [] points e = ([], refl, ground arith)
  flatten_results_inv (err x ∷ results) points e = absurd (ground arith)
  flatten_results_inv (ok first ∷ results) points e =
      elim (Result-cases (flatten_results results)) [
        | inr (x, q) ↦ absurd (ground arith)
        | inl (rest, q) ↦
            let (answers, all, joined) = flatten_results_inv results rest q in
            (first ∷ answers, ap (◌∷◌ (ok first)) all, ground arith)
      ]

  gather-Gathered :
      (asked : Option ShardId) (local_only : Bool) (shards : Shards env) (net net' : Net)
      (points : List (Point Value))
      → gather asked local_only shards net ≡ some (ok points, net')
      → Gathered asked local_only shards net points net'
  unfolding gather read_replicas
  gather-Gathered asked local_only [] net net' points e =
      subst {A = List (Point Value) × Net} (λ x. Gathered asked local_only [] net x.0 x.1)
        (ground arith) no_shard
  gather-Gathered asked local_only ((s, set) ∷ shards) net net' points e =
      elim (Bool-cases (is_desired env asked s)) [
        | inr other ↦
            passed_over other
              (gather-Gathered asked local_only shards net net' points (ground arith))
        | inl wanted ↦ elim (Option-cases (replica_results set local_only net)) [
          | inl panics ↦ absurd (ground arith)
          | inr ((results, set', net1), q) ↦ elim (Result-cases (flatten_results results)) [
            | inr (x, failed) ↦ absurd (ground arith)
            | inl (first, flat) ↦ elim (Option-cases (gather asked local_only shards net1)) [
              | inl panics ↦ absurd (ground arith)
              | inr ((err x, n), r) ↦ absurd (ground arith)
              | inr ((ok rest, n), r) ↦
                  let (answers, all, joined) = flatten_results_inv results first flat in
                  subst {A = List (Point Value) × Net}
                    (λ x. Gathered asked local_only ((s, set) ∷ shards) net x.0 x.1) (ground arith)
                    (answered answers wanted (q ∙ ap (λ x. some (x, set', net1)) all)
                      (gather-Gathered asked local_only shards net1 n rest r))
            ]
          ]
        ]
      ]

  insert_all-++ :
      (ps qs found : List (Point Value))
      → insert_all (ps ++ qs) found ≡ insert_all qs (insert_all ps found)
  unfolding insert_all
  insert_all-++ [] qs found = refl
  insert_all-++ (p ∷ ps) qs found = insert_all-++ ps qs (insert_vacant p found)

  merge-prepend :
      (points found : List (Point Value)) (rest : Answer)
      → merge (insert_all points found) rest ≡ merge found (prepend points rest)
  merge-prepend points found (ok qs) = ap ok (sym (insert_all-++ points qs found))
  merge-prepend points found (err e) = refl

  abbrev pub merged : List (Point Value) → Option (Answer × Net) → Option (Answer × Net)
  merged found none = none
  merged found (some (answer, net)) = some (merge found answer, net)

  merged-prepended :
      (points found : List (Point Value)) (rest : Option (Answer × Net))
      → merged (insert_all points found) rest ≡ merged found (prepended points rest)
  merged-prepended points found none = refl
  merged-prepended points found (some (rest, net)) =
      ap (λ a. some (a, net)) (merge-prepend points found rest)

  -- A read is a merge of what is gathered.
  read_shards-gather :
      (asked : Option ShardId) (local_only : Bool) (shards : Shards env)
      (found : List (Point Value)) (net : Net)
      → read_shards env asked local_only shards found net
        ≡ merged found (gather asked local_only shards net)
  unfolding read_shards gather insert_all
  read_shards-gather asked local_only [] found net = refl
  read_shards-gather asked local_only ((s, set) ∷ shards) found net =
      elim (Bool-cases (is_desired env asked s)) [
        | inr skipped ↦
            rw (read_shards, gather, skipped) (read_shards-gather asked local_only shards found net)
        | inl wanted ↦ elim (Option-cases (read_replicas env set local_only net)) [
          | inl panics ↦ rw (read_shards, gather, wanted, panics) refl
          | inr ((err e, net'), read) ↦ rw (read_shards, gather, wanted, read) refl
          | inr ((ok points, net'), read) ↦
              rw (read_shards, gather, wanted, read)
                (read_shards-gather asked local_only shards (insert_all points found) net'
                  ∙ merged-prepended points found (gather asked local_only shards net'))
        ]
      ]

  -- A read that succeeds gathered some points and merged them.
  pub get_points-gather :
      (c : Collection Db Ring) (asked : Option ShardId) (local_only : Bool)
      (found : List (Point Value)) (net net' : Net)
      → get_points env c none asked local_only net ≡ some (ok found, net')
      → (points : List (Point Value)) × (gather asked local_only c.replica_holder.shards net
          ≡ some (ok points, net'))
        × IsSorted found
        × ((pid : PointId) → find pid found ≡ find pid points)
  unfolding get_points find
  get_points-gather c asked local_only found net net' e =
      let shards = c.replica_holder.shards in
      let e' = sym (read_shards-gather asked local_only shards [] net) ∙ e in
      elim (Option-cases (gather asked local_only shards net)) [
        | inl panics ↦ ground arith
        | inr ((err e, n), q) ↦ ground arith
        | inr ((ok points, n), q) ↦
            let same : some (ok (insert_all points []), n) ≡ some (ok found, net') =
              sym (ap (merged []) q) ∙ e' in
            let at : insert_all points [] ≡ found = ground arith in
            (
              points,
              ground arith,
              subst IsSorted at (insert_all-IsSorted points [] tt),
              λ pid. ap (find pid) (sym at) ∙ find-insert_all pid points [] tt,
            )
      ]

  -- If a read of all points succeeds, then every replica of the shards that are asked for answered with
  -- points, the remote ones included, and what it gives is in the order of the ids, no id twice, and has under each id the first point that
  -- the replicas answered with.
  pub get_points-all :
      (c : Collection Db Ring) (asked : Option ShardId) (local_only : Bool)
      (found : List (Point Value)) (net net' : Net)
      → get_points env c none asked local_only net ≡ some (ok found, net')
      → (points : List (Point Value)) × Gathered asked local_only c.replica_holder.shards net points
          net'
        × IsSorted found
        × ((pid : PointId) → find pid found ≡ find pid points)
  get_points-all c asked local_only found net net' e =
      let (points, q, sorted, same) = get_points-gather c asked local_only found net net' e in
      (
        points,
        gather-Gathered asked local_only c.replica_holder.shards net net' points q,
        sorted,
        same,
      )
