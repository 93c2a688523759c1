-- ===== src/Storage/Recovery/Restored.antt =====
-- The shards that are loaded, and the entries of the directory.
use mathlib.Core.Path.{subst}
use mathlib.Core.List.Memᴰ
use mathlib.Core.List.{Memᴰ}
use smoldb.Prelude.{
  ◌≡◌, refl, ◌∙◌, ap, sym, ◌≢◌, inl, inr, List, [], ◌∷◌, true, none, some, Result, ok, err, arith,
  String, lookup, insert, lookup-insert, nat_eq, nat_beq_iff, ◌==◌, Option-cases, Bool-cases,
}
use smoldb.Types.{ShardId, CollectionName, FilePath}
use smoldb.Storage.LocalShard.{LocalShard}
use smoldb.Storage.Replicas.{ReplicaSet, new_replica_set}
use smoldb.Storage.Collection.{Shards}
use smoldb.Storage.Recovery.{shard_dir_id, load_shard, load_shards}
use smoldb.Storage.Recovery.Keeps.{load_shard-keeps}
use smoldb.External.{Env, DirLaws}

module _ (env : Env) where
  open env use {Db, Ring, Disk, is_dir, read_dir, create_dir_all, arrange_paths}

  abbrev pub Entries : Type 0
  Entries = List (Result String FilePath)

  -- A shard with no remote replica, in a directory of its number, which is one of the entries.
  abbrev pub IsOf : Entries → ShardId → ReplicaSet Db → Type 0
  IsOf entries s set =
      (set.remotes ≡ [])
      × (set.local.id ≡ s)
      × (shard_dir_id set.local.path ≡ ok s)
      × Memᴰ (ok set.local.path) entries

  abbrev pub IsFrom : Entries → Shards env → Type 0
  IsFrom entries shards =
      (s : ShardId) (set : ReplicaSet Db) → lookup s shards ≡ some set → IsOf entries s set

  load_shard-path :
      (path : FilePath) (disk disk' : Disk) (shard : LocalShard Db)
      → load_shard env path disk ≡ some (ok shard, disk')
      → (shard.path ≡ path) × (shard_dir_id path ≡ ok shard.id)
  unfolding load_shard
  load_shard-path path disk disk' shard e = ground arith

  insert-IsFrom :
      (all : Entries) (name : CollectionName) (shard : LocalShard Db) (path : FilePath)
      (replicas : Shards env)
      → IsFrom all replicas
      → shard.path ≡ path
      → shard_dir_id path ≡ ok shard.id
      → Memᴰ (ok path) all
      → IsFrom all (insert shard.id (new_replica_set shard [] name) replicas)
  unfolding new_replica_set
  insert-IsFrom all name shard path replicas old at named listed s set e =
      elim (Bool-cases (shard.id == s)) [
        | inr other ↦
            old s set
              (ground (arith, lookup-insert shard.id s (new_replica_set shard [] name) replicas))
        | inl same ↦
            let number : shard.id ≡ s = (nat_beq_iff shard.id s).0 same in
            let here : new_replica_set shard [] name ≡ set =
              ground (arith, lookup-insert shard.id s (new_replica_set shard [] name) replicas) in
            subst (IsOf all s) here (
              refl,
              number,
              ap shard_dir_id at ∙ named ∙ ap ok number,
              subst (λ p. Memᴰ (ok p) all) (sym at) listed,
            )
      ]

  pub load_shards-IsFrom :
      (all entries : Entries) (name : CollectionName) (replicas shards : Shards env)
      (disk disk' : Disk)
      → ((p : FilePath) → Memᴰ (ok p) entries → Memᴰ (ok p) all)
      → IsFrom all replicas
      → load_shards env name entries replicas disk ≡ some (ok shards, disk')
      → IsFrom all shards
  unfolding load_shards
  load_shards-IsFrom all [] name replicas shards disk disk' listed old e =
      subst (IsFrom all) (ground arith) old
  load_shards-IsFrom all (err f ∷ entries) name replicas shards disk disk' listed old e =
      absurd (ground arith)
  load_shards-IsFrom all (ok path ∷ entries) name replicas shards disk disk' listed old e =
      elim (Bool-cases (is_dir disk path)) [
        | inr skipped ↦
            load_shards-IsFrom all entries name replicas shards disk disk'
              (λ p m. listed p (Memᴰ.tail m)) old (ground arith)
        | inl dir ↦ elim (Option-cases (load_shard env path disk)) [
          | inl panics ↦ absurd (ground arith)
          | inr ((err f, d), q) ↦ absurd (ground arith)
          | inr ((ok shard, d), q) ↦
              let (at, named) = load_shard-path path disk d shard q in
              load_shards-IsFrom all entries name
                (insert shard.id (new_replica_set shard [] name) replicas) shards d disk'
                (λ p m. listed p (Memᴰ.tail m))
                (insert-IsFrom all name shard path replicas old at named
                  (listed path (Memᴰ.head refl)))
                (ground arith)
        ]
      ]

  -- Loading loses no shard.
  load_shards-kept :
      (entries : Entries) (name : CollectionName) (replicas shards : Shards env) (disk disk' : Disk)
      (s : ShardId)
      → load_shards env name entries replicas disk ≡ some (ok shards, disk')
      → lookup s replicas ≢ none
      → lookup s shards ≢ none
  unfolding load_shards
  load_shards-kept [] name replicas shards disk disk' s e there = λ gone. there (ground arith)
  load_shards-kept (err f ∷ entries) name replicas shards disk disk' s e there =
      absurd (ground arith)
  load_shards-kept (ok path ∷ entries) name replicas shards disk disk' s e there =
      elim (Bool-cases (is_dir disk path)) [
        | inr skipped ↦
            load_shards-kept entries name replicas shards disk disk' s (ground arith) there
        | inl dir ↦ elim (Option-cases (load_shard env path disk)) [
          | inl panics ↦ absurd (ground arith)
          | inr ((err f, d), q) ↦ absurd (ground arith)
          | inr ((ok shard, d), q) ↦
              let set = new_replica_set shard [] name in
              load_shards-kept entries name (insert shard.id set replicas) shards d disk' s
                (ground arith) λ gone. there (ground (arith, lookup-insert shard.id s set replicas))
        ]
      ]

  module _ (dirs : DirLaws env) where
    -- Every entry that is a directory becomes a shard.
    pub load_shards-all :
        (entries : Entries) (name : CollectionName) (replicas shards : Shards env)
        (disk disk' : Disk) (p : FilePath)
        → load_shards env name entries replicas disk ≡ some (ok shards, disk')
        → Memᴰ (ok p) entries
        → is_dir disk p ≡ true
        → (s : ShardId) × (shard_dir_id p ≡ ok s) × (lookup s shards ≢ none)
    unfolding load_shards
    load_shards-all [] name replicas shards disk disk' p e m h = absurd (Memᴰ.not-nil m)
    load_shards-all (err f ∷ entries) name replicas shards disk disk' p e m h =
        absurd (ground arith)
    load_shards-all (ok path ∷ entries) name replicas shards disk disk' p e m h =
        elim (Bool-cases (is_dir disk path)) [
          | inr skipped ↦ elim (Memᴰ.cases_cons m) [
            | inl here ↦ absurd (ground arith)
            | inr later ↦
                load_shards-all entries name replicas shards disk disk' p (ground arith) later h
          ]
          | inl dir ↦ elim (Option-cases (load_shard env path disk)) [
            | inl panics ↦ absurd (ground arith)
            | inr ((err f, d), q) ↦ absurd (ground arith)
            | inr ((ok shard, d), q) ↦
                let set = new_replica_set shard [] name in
                let rest : load_shards env name entries (insert shard.id set replicas) d
                    ≡ some (ok shards, disk') =
                  ground arith in
                elim (Memᴰ.cases_cons m) [
                  | inl here ↦
                      let same : p ≡ path = ground arith in
                      (
                        shard.id,
                        ap shard_dir_id same ∙ (load_shard-path path disk d shard q).1,
                        load_shards-kept entries name (insert shard.id set replicas) shards d disk'
                            shard.id rest
                            λ gone. ground (
                              arith,
                              lookup-insert shard.id shard.id set replicas,
                              nat_beq_iff shard.id shard.id,
                            ),
                      )
                  | inr later ↦
                      load_shards-all entries name (insert shard.id set replicas) shards d disk' p
                        rest later
                        (load_shard-keeps env (λ x. is_dir x p)
                          (λ x at. dirs.create_dir_keeps x at p) (λ x at. dirs.open_keeps x at p)
                          path disk d shard q h)
                ]
          ]
        ]
