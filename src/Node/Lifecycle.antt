-- ===== src/Node/Lifecycle.antt =====
-- Creations and deletions, and the soundness of the collections of the table.
use mathlib.Core.Path.{subst}
use smoldb.Prelude.{
  ◌≡◌, ◌≢◌, inl, inr, String, [], ◌∷◌, Bool, none, some, Result, ok, arith, lookup, insert,
  lookup-insert, lookup-remove, contains_key, nat_eq, string_eq, ◌==◌, Option-cases, Result-cases,
  Bool-cases,
}
use smoldb.Types.{ShardId, CollectionName, FilePath, join}
use smoldb.Storage.Error.{StorageError}
use smoldb.Storage.Replicas.{new_holder, new_replica_set}
use smoldb.Storage.Replicas.RingRoutes.{new_holder-IsRouted}
use smoldb.Storage.LocalShard.{LocalShard}
use smoldb.Storage.Collection.{Collection, CollectionConfig}
use smoldb.Storage.Collection.Sound.{IsSound}
use smoldb.Storage.Setup.{init_shard, save_config, init_collection}
use smoldb.Storage.Toc.{Toc, mkdir_collection_dir, add_collection, create, drop}
use smoldb.External.{Env, RingLaws}

module _ (env : Env) where
  open env use {Value, Text, Db, Ring, Net, Disk}

  -- Every collection of the table is sound.
  pub record AllSound (t : Toc env) : Type 0 where
    pub sound :
        (name : CollectionName) (c : Collection Db Ring)
        → lookup name t.collections ≡ some c
        → IsSound env c

  pub put-AllSound :
      (t : Toc env) (name : CollectionName) (c : Collection Db Ring)
      → AllSound t
      → IsSound env c
      → AllSound (record t { collections = insert name c t.collections })
  put-AllSound t name c h s = record {
    sound = λ j c' at. elim (Bool-cases (name == j)) [
      | inl same ↦
          let here : c ≡ c' = ground (arith, lookup-insert name j c t.collections) in
          subst (IsSound env) here s
      | inr apart ↦ h.sound j c' (ground (arith, lookup-insert name j c t.collections))
    ];
  }

  init_shard-segment :
      (path : FilePath) (id : ShardId) (d d' : Disk) (shard : LocalShard Db)
      → init_shard env path id d ≡ some (shard, d')
      → lookup 0 shard.segments ≢ none
  unfolding init_shard lookup
  init_shard-segment path id d d' shard e gone = ground arith

  two_shards-IsSound :
      (laws : RingLaws env) (name : CollectionName) (config : CollectionConfig) (path : FilePath)
      (shard0 shard1 : LocalShard Db)
      → lookup 0 shard0.segments ≢ none
      → lookup 0 shard1.segments ≢ none
      → IsSound env (record {
        id = name;
        config = config;
        replica_holder =
            new_holder env
              ((0, new_replica_set shard0 [] name) ∷ (1, new_replica_set shard1 [] name) ∷ []);
        path = path;
      })
  two_shards-IsSound laws name config path shard0 shard1 h0 h1 = record {
    routes =
        new_holder-IsRouted env laws 0 (new_replica_set shard0 [] name)
          ((1, new_replica_set shard1 [] name) ∷ []);
    segments = record {
      segment = λ s set at.
          unfold new_holder lookup new_replica_set in λ gone. ground (arith, at, gone, h0, h1);
    };
    peers = λ s set at.
        let none_remote : set.remotes ≡ [] =
          unfold new_holder lookup new_replica_set in ground (arith, at) in
        rw none_remote tt;
  }

  init_collection-IsSound :
      (laws : RingLaws env) (name : CollectionName) (config : CollectionConfig) (path : FilePath)
      (d d' : Disk) (c : Collection Db Ring)
      → init_collection env name config path d ≡ some (ok c, d')
      → IsSound env c
  unfolding init_collection
  init_collection-IsSound laws name config path d d' c e =
      let saved = save_config env config path d in
      elim (Result-cases saved.0) [
        | inr (x, v) ↦ absurd (ground arith)
        | inl (u, v) ↦ elim (Option-cases (init_shard env (join path "0") 0 saved.1)) [
          | inl w ↦ absurd (ground arith)
          | inr (s0, w) ↦ elim (Option-cases (init_shard env (join path "1") 1 s0.1)) [
            | inl w' ↦ absurd (ground arith)
            | inr (s1, w') ↦
                let first = init_shard-segment (join path "0") 0 saved.1 s0.1 s0.0 w in
                let second = init_shard-segment (join path "1") 1 s0.1 s1.1 s1.0 w' in
                let same : record {
                  id = name;
                  config = config;
                  replica_holder =
                      new_holder env (
                        (0, new_replica_set s0.0 [] name) ∷ (1, new_replica_set s1.0 [] name) ∷ []);
                  path = path;
                }
                    ≡ c =
                  ground arith in
                subst (IsSound env) same
                  (two_shards-IsSound laws name config path s0.0 s1.0 first second)
          ]
        ]
      ]

  pub drop-AllSound :
      (name : CollectionName) (t : Toc env) (d : Disk) → AllSound t → AllSound (drop env name t d).1
  drop-AllSound name t d h = record {
    sound = λ j c at. elim (Option-cases (lookup name t.collections)) [
      | inl q ↦ h.sound j c (unfold drop in ground arith)
      | inr (c0, q) ↦
          let out = lookup-remove name j t.collections in
          elim (Bool-cases (name == j)) [
            | inl same ↦ absurd (unfold drop in ground (arith, out))
            | inr apart ↦ h.sound j c (unfold drop in ground (arith, out))
          ]
    ];
  }

  pub create-AllSound :
      (laws : RingLaws env) (name : CollectionName) (params : String) (t u : Toc env) (d d' : Disk)
      (r : Result StorageError Bool)
      → AllSound t
      → create env name params t d ≡ some (r, u, d')
      → AllSound u
  unfolding create add_collection
  create-AllSound laws name params t u d d' r h e =
      let made = mkdir_collection_dir env name d in
      elim (Result-cases made.0) [
        | inr (x, v) ↦ let same : t ≡ u = ground arith in subst AllSound same h
        | inl (path, v) ↦
            elim (Option-cases
              (init_collection env name (record { params = params }) path made.1)) [
                | inl w ↦ absurd (ground arith)
                | inr (step, w) ↦ elim (Result-cases step.0) [
                  | inr (x, v') ↦ let same : t ≡ u = ground arith in subst AllSound same h
                  | inl (c, v') ↦ elim (Bool-cases (contains_key name t.collections)) [
                    | inl old ↦ let same : t ≡ u = ground arith in subst AllSound same h
                    | inr new ↦
                        let same : record t { collections = insert name c t.collections } ≡ u =
                          ground arith in
                        subst AllSound same (
                          put-AllSound t name c h (
                            init_collection-IsSound laws name (record { params = params }) path
                              made.1 step.1 c (ground arith)))
                  ]
                ]
              ]
      ]
  -- A write puts the collection of after the write back, whatever its result.
