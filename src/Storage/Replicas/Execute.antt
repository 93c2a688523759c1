-- ===== src/Storage/Replicas/Execute.antt =====
-- The results of an operation on a replica set.
use mathlib.Core.Path.{subst}
use smoldb.Prelude.{
  ◌≡◌, inl, inr, List, [], ◌∷◌, Bool, true, false, Option, some, arith, length, Option-cases,
  if◌then◌else◌,
}
use smoldb.Storage.Error.{CollectionResult}
use smoldb.Storage.LocalShard.{LocalShard}
use smoldb.Storage.RemoteShard.{RemoteShard}
use smoldb.Storage.Replicas.{ReplicaSet, num_replicas, execute_remotes, execute_cluster_operation}

module _ {D N A : Type 0} (on_local : LocalShard D → CollectionResult A × LocalShard D)
    (on_remote : RemoteShard → N → Option (CollectionResult A × N)) where
  -- The remote shards are called one after another, each once, with these answers.
  pub data Answered : List RemoteShard → N → List (CollectionResult A) → N → Type 0 where
    none_left : {net : N} → Answered [] net [] net
    answered :
        {remote : RemoteShard} {remotes : List RemoteShard} {net net1 net' : N}
        {result : CollectionResult A} {results : List (CollectionResult A)}
        → on_remote remote net ≡ some (result, net1)
        → Answered remotes net1 results net'
        → Answered (remote ∷ remotes) net (result ∷ results) net'

  execute_remotes-Answered :
      (remotes : List RemoteShard) (net net' : N) (results : List (CollectionResult A))
      → execute_remotes on_local on_remote remotes net ≡ some (results, net')
      → Answered remotes net results net'
  unfolding execute_remotes
  execute_remotes-Answered [] net net' results e =
      subst {A = List (CollectionResult A) × N} (λ x. Answered [] net x.0 x.1) (ground arith)
        none_left
  execute_remotes-Answered (remote ∷ remotes) net net' results e =
      elim (Option-cases (on_remote remote net)) [
        | inl q ↦ absurd (ground arith)
        | inr (step, q) ↦ elim (Option-cases (execute_remotes on_local on_remote remotes step.1)) [
          | inl q' ↦ absurd (ground arith)
          | inr (rest, q') ↦
              subst {A = List (CollectionResult A) × N}
                (λ x. Answered (remote ∷ remotes) net x.0 x.1) (ground arith)
                (answered q (execute_remotes-Answered remotes step.1 rest.1 rest.0 q'))
        ]
      ]

  length-execute_remotes :
      (remotes : List RemoteShard) (net net' : N) (results : List (CollectionResult A))
      → execute_remotes on_local on_remote remotes net ≡ some (results, net')
      → length results ≡ length remotes
  unfolding execute_remotes
  length-execute_remotes [] net net' results e = ground arith
  length-execute_remotes (remote ∷ remotes) net net' results e =
      elim (Option-cases (on_remote remote net)) [
        | inl q ↦ absurd (ground arith)
        | inr (step, q) ↦ elim (Option-cases (execute_remotes on_local on_remote remotes step.1)) [
          | inl q' ↦ absurd (ground arith)
          | inr (rest, q') ↦ ground (arith, length-execute_remotes remotes step.1 rest.1 rest.0 q')
        ]
      ]

  -- The results are that of the local shard and then, in order, what each remote shard answered when it
  -- was called, once and after those before it; if `local_only`, there is only the local one, and
  -- no peer is called. The remote shards stay as they are.
  pub execute-shape :
      (set set' : ReplicaSet D) (local_only : Bool) (net net' : N)
      (results : List (CollectionResult A))
      → execute_cluster_operation on_local on_remote set local_only net ≡ some (results, set', net')
      → (rest : List (CollectionResult A)) × (results ≡ (on_local set.local).0 ∷ rest)
        × (set' ≡ record set { local = (on_local set.local).1 })
        × Answered (if local_only then [] else set.remotes) net rest net'
        × (length results ≡ (if local_only then 1 else num_replicas set))
        × (local_only ≡ true → net' ≡ net)
  unfolding execute_cluster_operation num_replicas
  execute-shape set set' true net net' results e = (
    [],
    ground arith,
    ground arith,
    subst (Answered [] net []) (ground arith) none_left,
    ground arith,
    λ _. ground arith,
  )
  execute-shape set set' false net net' results e =
      elim (Option-cases (execute_remotes on_local on_remote set.remotes net)) [
        | inl q ↦ absurd (ground arith)
        | inr (rest, q) ↦
            let count = length-execute_remotes set.remotes net rest.1 rest.0 q in
            let calls = execute_remotes-Answered set.remotes net rest.1 rest.0 q in
            (
              rest.0,
              ground arith,
              ground arith,
              subst (Answered set.remotes net rest.0) (ground arith) calls,
              ground arith,
              λ h. cc,
            )
      ]
