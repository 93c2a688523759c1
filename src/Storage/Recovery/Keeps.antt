-- ===== src/Storage/Recovery/Keeps.antt =====
-- What loading does to the disk, by way of the directories that it makes and the databases that it
-- opens.
use mathlib.Core.Path.{subst}
use smoldb.Prelude.{
  ◌≡◌, inl, inr, List, [], ◌∷◌, Bool, true, some, Result, ok, err, arith, String, HashMap, insert,
  collect, filter_map, nat_eq, Option-cases, Result-cases, Bool-cases,
}
use smoldb.Types.{SegmentId, CollectionName, FilePath, join}
use smoldb.Storage.Segment.{Segment}
use smoldb.Storage.LocalShard.{LocalShard}
use smoldb.Storage.Replicas.{new_replica_set, new_holder}
use smoldb.Storage.Collection.{Collection, Shards}
use smoldb.Storage.Setup.{segments_dir, collection_config_file}
use smoldb.Storage.Recovery.{
  shard_dir_id, segment_entry, load_segment, load_segments, load_shard, load_shards, load_config,
  load_collection,
}
use smoldb.External.{Env}

module _ (env : Env) where
  open env use {
    Db, Ring, Disk, is_dir, read_dir, create_dir_all, open_db, arrange_paths, path_exists,
  }

  pub load_collection-holder :
      (id : CollectionName) (path : FilePath) (disk disk' : Disk) (c : Collection Db Ring)
      → load_collection env id path disk ≡ some (ok c, disk')
      → (entries : List (Result String FilePath)) × (shards : Shards env) × (read_dir disk path
          ≡ ok entries)
        × (load_shards env id entries [] disk ≡ some (ok shards, disk'))
        × (load_config env (join path collection_config_file) disk ≡ ok c.config)
        × (c.id ≡ id)
        × (c.path ≡ path)
        × (c.replica_holder ≡ new_holder env shards)
  unfolding load_collection
  load_collection-holder id path disk disk' c e =
      elim (Bool-cases (path_exists disk (join path collection_config_file))) [
        | inr absent ↦ absurd (ground arith)
        | inl there ↦
            elim (Result-cases (load_config env (join path collection_config_file) disk)) [
              | inr (f, q) ↦ absurd (ground arith)
              | inl (config, q) ↦ elim (Result-cases (read_dir disk path)) [
                | inr (f, q1) ↦ absurd (ground arith)
                | inl (entries, q1) ↦ elim (Option-cases (load_shards env id entries [] disk)) [
                  | inl panics ↦ absurd (ground arith)
                  | inr ((err f, d), q2) ↦ absurd (ground arith)
                  | inr ((ok shards, d), q2) ↦ (
                    entries,
                    shards,
                    q1,
                    ground arith,
                    ground arith,
                    ground arith,
                    ground arith,
                    ground arith,
                  )
                ]
              ]
            ]
      ]

  module _ (holds : Disk → Bool)
      (created : (d : Disk) (p : FilePath) → holds d ≡ true → holds (create_dir_all d p).1 ≡ true)
      (opened : (d : Disk) (p : FilePath) → holds d ≡ true → holds (open_db d p).1 ≡ true) where
    load_segments-keeps :
        (paths : HashMap SegmentId FilePath) (old segments : HashMap SegmentId (Segment Db))
        (disk disk' : Disk)
        → load_segments env paths old disk ≡ some (ok segments, disk')
        → holds disk ≡ true
        → holds disk' ≡ true
    unfolding load_segments load_segment
    load_segments-keeps [] old segments disk disk' e h = ground arith
    load_segments-keeps ((id, path) ∷ paths) old segments disk disk' e h =
        elim (Option-cases (load_segment env path disk)) [
          | inl panics ↦ absurd (ground arith)
          | inr ((err f, d), q) ↦ absurd (ground arith)
          | inr ((ok segment, d), q) ↦
              load_segments-keeps paths (insert id segment old) segments d disk' (ground arith)
                (ground (arith, opened disk path h))
        ]

    pub load_shard-keeps :
        (path : FilePath) (disk disk' : Disk) (shard : LocalShard Db)
        → load_shard env path disk ≡ some (ok shard, disk')
        → holds disk ≡ true
        → holds disk' ≡ true
    unfolding load_shard
    load_shard-keeps path disk disk' shard e h =
        let dir = join path segments_dir in
        let disk1 = (create_dir_all disk dir).1 in
        let h1 : holds disk1 ≡ true = created disk dir h in
        elim (Result-cases (create_dir_all disk dir).0) [
          | inr (f, q) ↦ absurd (ground arith)
          | inl (u, q) ↦ elim (Result-cases (read_dir disk1 dir)) [
            | inr (f, q1) ↦ absurd (ground arith)
            | inl (entries, q1) ↦
                let paths = arrange_paths (collect (filter_map segment_entry entries) []) in
                elim (Result-cases (shard_dir_id path)) [
                  | inr (f, q2) ↦ absurd (ground arith)
                  | inl (s, q2) ↦ elim (Option-cases (load_segments env paths [] disk1)) [
                    | inl panics ↦ absurd (ground arith)
                    | inr ((err f, d), q3) ↦ absurd (ground arith)
                    | inr ((ok segments, d), q3) ↦
                        let last : d ≡ disk' = ground arith in
                        subst (λ x. holds x ≡ true) last
                          (load_segments-keeps paths [] segments disk1 d q3 h1)
                  ]
                ]
          ]
        ]

    load_shards-keeps :
        (entries : List (Result String FilePath)) (name : CollectionName)
        (replicas shards : Shards env) (disk disk' : Disk)
        → load_shards env name entries replicas disk ≡ some (ok shards, disk')
        → holds disk ≡ true
        → holds disk' ≡ true
    unfolding load_shards
    load_shards-keeps [] name replicas shards disk disk' e h = ground arith
    load_shards-keeps (err f ∷ entries) name replicas shards disk disk' e h = absurd (ground arith)
    load_shards-keeps (ok path ∷ entries) name replicas shards disk disk' e h =
        elim (Bool-cases (is_dir disk path)) [
          | inr skipped ↦ load_shards-keeps entries name replicas shards disk disk' (ground arith) h
          | inl dir ↦ elim (Option-cases (load_shard env path disk)) [
            | inl panics ↦ absurd (ground arith)
            | inr ((err f, d), q) ↦ absurd (ground arith)
            | inr ((ok shard, d), q) ↦
                load_shards-keeps entries name
                  (insert shard.id (new_replica_set shard [] name) replicas) shards d disk'
                  (ground arith) (load_shard-keeps path disk d shard q h)
          ]
        ]

    pub load_collection-keeps :
        (id : CollectionName) (path : FilePath) (disk disk' : Disk) (c : Collection Db Ring)
        → load_collection env id path disk ≡ some (ok c, disk')
        → holds disk ≡ true
        → holds disk' ≡ true
    load_collection-keeps id path disk disk' c e h =
        let (entries, shards, listed, loaded, config, named, at, held) =
          load_collection-holder id path disk disk' c e in
        load_shards-keeps entries id [] shards disk disk' loaded h
