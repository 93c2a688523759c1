-- ===== src/Storage/Recovery/Created.antt =====
-- A creation of a collection succeeds, and leaves its directories as they should be.
use smoldb.Prelude.{
  ◌≡◌, refl, ◌≢◌, ◌↔◌, ◌⊎◌, inl, inr, [], ◌∷◌, none, some, ok, arith, lookup, nat_eq, nat_beq_iff,
  ◌==◌, string_eq, Bool-cases,
}
use smoldb.Types.{CollectionName, ShardId, join}
use smoldb.Storage.Replicas.{ReplicaSet, new_replica_set, new_holder}
use smoldb.Storage.Collection.{Collection, CollectionConfig, Shards}
use smoldb.Storage.Setup.{init_collection}
use smoldb.Storage.Recovery.Tree.{root}
use smoldb.Storage.Recovery.Tidy.{IsTidy}
use smoldb.External.{Env, DiskLaws, DirLaws}
use smoldb.External.Tree.{TreeLaws, ConfigLaws, IsWorking}
use smoldb.Storage.Recovery.Made.{
  IsEmpty, HasConfig, with_config, with_shard, config-IsBounded, shard-IsBounded, shard-HasShard,
  shard-keeps, shard-HasConfig, init_shard-ok, save_config-ok,
}

module _ (env : Env) (id : CollectionName) where
  open env use {Db, Ring, Disk}

  abbrev insert_two : ReplicaSet Db → ReplicaSet Db → Shards env
  insert_two set0 set1 = (0, set0) ∷ (1, set1) ∷ []

  -- The two shards of a creation, and no other.
  abbrev pub HasShards : Collection Db Ring → Type 0
  HasShards c = (s : ShardId) → (lookup s c.replica_holder.shards ≢ none) ↔ ((s ≡ 0) ⊎ (s ≡ 1))

  module _ (files : DiskLaws env) (dirs : DirLaws env) (laws : TreeLaws env)
      (configs : ConfigLaws env) (working : IsWorking env) where
    two_shards :
        (set0 set1 : ReplicaSet Db) (s : ShardId)
        → (lookup s (insert_two set0 set1) ≢ none) ↔ ((s ≡ 0) ⊎ (s ≡ 1))
    unfolding lookup
    two_shards set0 set1 s = (
      λ there. elim (Bool-cases (0 == s)) [
        | inl zero ↦ inl (ground (arith, nat_beq_iff 0 s))
        | inr apart ↦ elim (Bool-cases (1 == s)) [
          | inl one ↦ inr (ground (arith, nat_beq_iff 1 s))
          | inr other ↦ absurd (there (ground arith))
        ]
      ],
      λ which gone. elim which [ inl zero ↦ ground arith | inr one ↦ ground arith ],
    )

    -- A creation in an empty directory succeeds, and leaves the disk tidy.
    pub init_collection-ok :
        (config : CollectionConfig) (d : Disk)
        → IsEmpty env id d
        → (c : Collection Db Ring) × (d' : Disk) × (init_collection env id config (root env id) d
            ≡ some (ok c, d'))
          × (c.id ≡ id)
          × (c.path ≡ root env id)
          × (c.config ≡ config)
          × HasShards c
          × IsTidy env id d'
          × HasConfig env id config d'
    unfolding init_collection join new_holder
    init_collection-ok config d h =
        let (t, saved, configured) =
          save_config-ok env id files dirs laws configs working config d h in
        let d1 = with_config env id t d in
        let d2 = with_shard env id "0" d1 in
        let h1 = config-IsBounded env id files dirs laws configs working t d h in
        let h2 = shard-IsBounded env id files dirs laws configs working "0" d1 (inl refl) h1 in
        let (local0, made0) =
          init_shard-ok env id files dirs laws configs working "0" 0 d1 (inl refl) h1 in
        let (local1, made1) =
          init_shard-ok env id files dirs laws configs working "1" 1 d2 (inr refl) h2 in
        let shards = insert_two (new_replica_set local0 [] id) (new_replica_set local1 [] id) in
        (
          record {
            id = id;
            config = config;
            replica_holder = new_holder env shards;
            path = root env id;
          },
          with_shard env id "1" d2,
          ground (arith, saved, made0, made1),
          refl,
          refl,
          refl,
          two_shards (new_replica_set local0 [] id) (new_replica_set local1 [] id),
          record {
            bounded = shard-IsBounded env id files dirs laws configs working "1" d2 (inr refl) h2;
            zero =
                shard-keeps env id files dirs laws configs working "1" "0" d2
                  (shard-HasShard env id files dirs laws configs working "0" d1 (inl refl) h1);
            one = shard-HasShard env id files dirs laws configs working "1" d2 (inr refl) h2;
          },
          shard-HasConfig env id files dirs laws configs working config "1" d2
              (shard-HasConfig env id files dirs laws configs working config "0" d1 configured),
        )
