-- ===== src/Storage/Toc/Lifecycle.antt =====
-- Creation and deletion of collections: the table and the directories.
use smoldb.Prelude.{
  ◌≡◌, ◌≢◌, inl, inr, String, [], ◌∷◌, Bool, true, false, none, some, Result, ok, err, arith,
  lookup, lookup-remove, string_eq, ◌==◌, format, Option-cases, Result-cases, Bool-cases,
  if◌then◌else◌,
}
use smoldb.Types.{FilePath, ShardId, CollectionName, join, display}
use smoldb.Storage.Error.{StorageError}
use smoldb.Storage.Segment.{Segment}
use smoldb.Storage.LocalShard.{LocalShard}
use smoldb.Storage.Collection.{Collection, CollectionConfig}
use smoldb.Storage.Setup.{create_segment, init_shard, save_config, init_collection, delete}
use smoldb.Storage.Toc.{Toc, collection_path, mkdir_collection_dir, create, drop}
use smoldb.External.{Env, DiskLaws}

-- The refusal of a creation whose directory is there.
abbrev pub path_exists_error : CollectionName → StorageError
path_exists_error name =
    StorageError.bad_input
      (format ("Collection path already exists: " ∷ display (collection_path name) ∷ []))

module _ (env : Env) (laws : DiskLaws env) where
  open env use {
    Db, Ring, Disk, path_exists, create_dir_all, create_file, write_all, open_db, config_to_text,
  }

  module _ (q : FilePath) where
    create_segment_keeps :
        (dir : FilePath) (d d' : Disk) (r : Result StorageError (Segment Db))
        → create_segment env dir d ≡ some (r, d')
        → path_exists d q ≡ true
        → path_exists d' q ≡ true
    unfolding create_segment
    create_segment_keeps dir d d' r e h =
        let path = join dir "0" in
        let made = create_dir_all d path in
        let kept = laws.create_dir_keeps d path q h in
        let opened = laws.open_keeps made.1 path q kept in
        elim (Result-cases made.0) [
          | inr (x, v) ↦ absurd (ground arith)
          | inl (u, v) ↦ elim (Result-cases (open_db made.1 path).0) [
            | inr (x, w) ↦ ground arith
            | inl (db, w) ↦ ground arith
          ]
        ]

    save_config_keeps :
        (config : CollectionConfig) (dir : FilePath) (d : Disk)
        → path_exists d q ≡ true
        → path_exists (save_config env config dir d).1 q ≡ true
    unfolding save_config
    save_config_keeps config dir d h = elim (Result-cases (config_to_text config.params)) [
      | inr (x, v) ↦ ground arith
      | inl (text, v) ↦
          let path = join dir "config.json" in
          let kept = laws.create_file_keeps d path q h in
          let written = laws.write_keeps (create_file d path).1 path q text kept in
          elim (Result-cases (create_file d path).0) [
            | inr (x, w) ↦ ground arith
            | inl (u, w) ↦ ground arith
          ]
    ]

    init_shard_keeps :
        (dir : FilePath) (id : ShardId) (d d' : Disk) (shard : LocalShard Db)
        → init_shard env dir id d ≡ some (shard, d')
        → path_exists d q ≡ true
        → path_exists d' q ≡ true
    unfolding init_shard
    init_shard_keeps dir id d d' shard e h =
        let segments = join dir "segments" in
        let made = create_dir_all d segments in
        let kept = laws.create_dir_keeps d segments q h in
        elim (Option-cases (create_segment env segments made.1)) [
          | inl v ↦ absurd (ground arith)
          | inr (step, v) ↦
              let after = create_segment_keeps segments made.1 step.1 step.0 v kept in ground arith
        ]

    init_collection_keeps :
        (name : CollectionName) (config : CollectionConfig) (path : FilePath) (d d' : Disk)
        (r : Result StorageError (Collection Db Ring))
        → init_collection env name config path d ≡ some (r, d')
        → path_exists d q ≡ true
        → path_exists d' q ≡ true
    unfolding init_collection
    init_collection_keeps name config path d d' r e h =
        let saved = save_config env config path d in
        let kept = save_config_keeps config path d h in
        elim (Result-cases saved.0) [
          | inr (x, v) ↦ ground arith
          | inl (u, v) ↦ elim (Option-cases (init_shard env (join path "0") 0 saved.1)) [
            | inl w ↦ absurd (ground arith)
            | inr (s0, w) ↦
                let kept0 = init_shard_keeps (join path "0") 0 saved.1 s0.1 s0.0 w kept in
                elim (Option-cases (init_shard env (join path "1") 1 s0.1)) [
                  | inl w' ↦ absurd (ground arith)
                  | inr (s1, w') ↦
                      let kept1 = init_shard_keeps (join path "1") 1 s0.1 s1.1 s1.0 w' kept0 in
                      ground arith
                ]
          ]
        ]

  -- Once its directory was made, a creation leaves the directory there, whatever becomes of it.
  created_path :
      (name : CollectionName) (params : String) (toc toc' : Toc env) (d d' : Disk)
      (r : Result StorageError Bool)
      → (create_dir_all d (collection_path name)).0 ≡ ok tt
      → create env name params toc d ≡ some (r, toc', d')
      → path_exists d' (collection_path name) ≡ true
  unfolding create mkdir_collection_dir
  created_path name params toc toc' d d' r made e =
      let path = collection_path name in
      let there = laws.created d path made in
      let d1 = (create_dir_all d path).1 in
      elim (Bool-cases (path_exists d path)) [
        | inl old ↦ ground arith
        | inr new ↦
            elim (Option-cases (init_collection env name (record { params = params }) path d1)) [
              | inl v ↦ absurd (ground arith)
              | inr (step, v) ↦
                  let kept =
                    init_collection_keeps path name (record { params = params }) path d1 step.1
                      step.0 v there in
                  elim (Result-cases step.0) [
                    | inr (x, w) ↦ ground arith
                    | inl (c, w) ↦ ground arith
                  ]
            ]
      ]

  -- After a creation whose directory could be made, whether the creation then succeeded or failed,
  -- every further creation of the name is refused and changes neither the table nor the disk.
  -- Assumed: the laws of the file system.
  pub create_again :
      (name : CollectionName) (params params' : String) (toc toc' : Toc env) (d d' : Disk)
      (r : Result StorageError Bool)
      → (create_dir_all d (collection_path name)).0 ≡ ok tt
      → create env name params toc d ≡ some (r, toc', d')
      → create env name params' toc' d' ≡ some (err (path_exists_error name), toc', d')
  create_again name params params' toc toc' d d' r made e =
      let there = created_path name params toc toc' d d' r made e in
      unfold create mkdir_collection_dir in ground arith

  -- A deletion takes the collection, and no other, out of the table, whether it succeeds or fails;
  -- it fails if the name is not in the table, and then leaves the disk as it is. If it succeeds, the
  -- collection's directory is gone.
  -- Assumed: the laws of the file system.
  pub drop_lem :
      (name : CollectionName) (toc : Toc env) (d : Disk)
      → ((j : CollectionName)
          → lookup j (drop env name toc d).1.collections
            ≡ (if name == j then none else lookup j toc.collections))
        × (lookup name toc.collections ≡ none
            → ((drop env name toc d).0 ≢ ok true) × ((drop env name toc d).2 ≡ d))
        × ((c : Collection Db Ring)
            → lookup name toc.collections ≡ some c
            → (drop env name toc d).0 ≡ ok true
            → path_exists (drop env name toc d).2 c.path ≡ false)
  drop_lem name toc d = (table, missing, gone)
    where
      table :
          (j : CollectionName)
          → lookup j (drop env name toc d).1.collections
            ≡ (if name == j then none else lookup j toc.collections)
      table j = elim (Option-cases (lookup name toc.collections)) [
        | inl q ↦ unfold drop in ground (arith, string_eq.beq_iff name j)
        | inr (c, q) ↦
            let out = lookup-remove name j toc.collections in
            elim (Result-cases (delete env c d).0) [
              | inr (x, v) ↦ unfold drop in ground arith
              | inl (u, v) ↦ unfold drop in ground arith
            ]
      ]

      missing :
          lookup name toc.collections ≡ none
          → ((drop env name toc d).0 ≢ ok true) × ((drop env name toc d).2 ≡ d)
      missing q = (λ e. unfold drop in ground arith, unfold drop in ground arith)

      gone :
          (c : Collection Db Ring)
          → lookup name toc.collections ≡ some c
          → (drop env name toc d).0 ≡ ok true
          → path_exists (drop env name toc d).2 c.path ≡ false
      gone c q e =
          let left = laws.removed d c.path in
          elim (Bool-cases (path_exists d c.path)) [
            | inr absent ↦ absurd (unfold drop delete in ground arith)
            | inl there ↦ elim (Result-cases (env.remove_dir_all d c.path).0) [
              | inr (x, v) ↦ absurd (unfold drop delete in ground arith)
              | inl (u, v) ↦ let empty = left v in unfold drop delete in ground arith
            ]
          ]
