-- ===== src/Storage/Recovery/Reload.antt =====
-- A collection whose directories are as they were made is loaded.
use mathlib.Core.Path.{subst}
use smoldb.Prelude.{
  lookup-insert, ◌≡◌, refl, ◌∙◌, ap, ◌⊎◌, inl, inr, String, List, [], ◌∷◌, map, true, false, some,
  ok, arith, All, insert, nat_eq, string_eq, ◌==◌, Bool-cases,
}
use smoldb.Types.{FilePath, CollectionName, join}
use smoldb.Storage.LocalShard.{LocalShard}
use smoldb.Storage.Replicas.{new_replica_set}
use smoldb.Storage.Collection.{Shards}
use smoldb.Storage.Recovery.{load_shard, load_shards}
use smoldb.Storage.Recovery.Listing.{All-of_Mem}
use smoldb.Storage.Collection.Success.{HasSegments}
use smoldb.Storage.Recovery.Tree.{IsShardName, in_collection, root}
use smoldb.External.{Env, DiskLaws, DirLaws}
use smoldb.External.Tree.{TreeLaws, IsWorking, PathOrderLaws}
use smoldb.Storage.Recovery.Tidy.{IsTidy, IsTidy-shard, Succeeds, HasZero, load_shard-ok}

module _ (env : Env) (id : CollectionName) where
  open env use {Db, Disk, is_dir, path_exists, read_dir}

  -- An entry of the collection's directory.
  abbrev pub IsEntry : FilePath → Type 0
  IsEntry p =
      (p ≡ in_collection env id "config.json")
      ⊎ ((s : String) × IsShardName s × (p ≡ in_collection env id s))

  module _ (files : DiskLaws env) (dirs : DirLaws env) (laws : TreeLaws env)
      (working : IsWorking env) (order : PathOrderLaws env) where
    insert-HasSegments :
        (name : CollectionName) (local : LocalShard Db) (replicas : Shards env)
        → HasZero env id local.segments
        → HasSegments env replicas
        → HasSegments env (insert local.id (new_replica_set local [] name) replicas)
    unfolding new_replica_set
    insert-HasSegments name local replicas zero old = record {
      segment = λ s set at. elim (Bool-cases (local.id == s)) [
        | inl same ↦
            let here : new_replica_set local [] name ≡ set =
              ground (arith, lookup-insert local.id s (new_replica_set local [] name) replicas) in
            subst (λ x. HasZero env id x.local.segments) here zero
        | inr other ↦
            old.segment s set
              (ground (arith, lookup-insert local.id s (new_replica_set local [] name) replicas))
      ];
    }

    pub load_shards-ok :
        (name : CollectionName) (paths : List FilePath) (replicas : Shards env) (d : Disk)
        → All (IsEntry) paths
        → HasSegments env replicas
        → IsTidy env id d
        → Succeeds env id (HasSegments env) (load_shards env name (map ok paths) replicas d)
    unfolding load_shards
    load_shards-ok name [] replicas d es held h = (replicas, d, refl, h, held)
    load_shards-ok name (path ∷ paths) replicas d es held h = elim es.0 [
      | inl config ↦
          let file : is_dir d path ≡ false = ap (is_dir d) config ∙ h.bounded.config_file in
          let (shards, d', rest, h', held') = load_shards-ok name paths replicas d es.1 held h in
          (shards, d', ground (arith, file, rest), h', held')
      | inr (s, shard, at) ↦
          let dir : is_dir d path ≡ true =
            ap (is_dir d) at ∙ (IsTidy-shard env id s d shard h).dir in
          let (local, d1, first, h1, zero) =
            load_shard-ok env id files dirs laws working order s d shard h in
          let loaded : load_shard env path d ≡ some (ok local, d1) =
            ap (λ x. load_shard env x d) at ∙ first in
          let (shards, d', rest, h', held') =
            load_shards-ok name paths (insert local.id (new_replica_set local [] name) replicas) d1
              es.1 (insert-HasSegments name local replicas zero held) h1 in
          (shards, d', ground (arith, dir, loaded, rest), h', held')
    ]

    pub root-IsEntry :
        (d : Disk) (paths : List FilePath)
        → IsTidy env id d
        → read_dir d (root env id) ≡ ok (map ok paths)
        → All IsEntry paths
    unfolding join
    root-IsEntry d paths h e = All-of_Mem IsEntry paths λ p m.
        let (name, at, there) = laws.listing d (root env id) p paths e m in
        elim (h.bounded.names name (subst (λ x. path_exists d x ≡ true) at there)) [
          | inl config ↦ inl (at ∙ ap (in_collection env id) config)
          | inr shard ↦ inr (name, shard, at)
        ]
