-- ===== src/Storage/Recovery/Made.antt =====
-- The disk while a collection is created.
use mathlib.Core.Path.{subst}
use smoldb.Prelude.{
  ◌≡◌, ◌∙◌, sym, ap, inl, inr, String, [], ◌∷◌, ◌++◌, true, false, some, ok, arith, nat_eq,
  string_eq, beq_refl, Bool-cases,
}
use smoldb.Types.{FilePath, CollectionName, ShardId, join}
use smoldb.Storage.LocalShard.{LocalShard}
use smoldb.Storage.Collection.{CollectionConfig}
use smoldb.Storage.Setup.{create_segment, init_shard, save_config}
use smoldb.Storage.Recovery.Tree.{
  IsShardName, config-apart, root, in_collection, segments_of, segment_of, IsBounded, HasShard,
  HasShard-made, HasShard-opened, HasShard-new, IsBounded-opened, IsBounded-made_segments,
  IsBounded-made_segment,
}
use smoldb.External.{Env, DiskLaws, DirLaws}
use smoldb.External.Tree.{Holds, is_prefix, TreeLaws, ConfigLaws, IsWorking, IsClear}
use smoldb.Storage.Recovery.Clear.{IsClear-shorter, prefix_cases}

module _ (env : Env) (id : CollectionName) where
  open env use {
    Db, Ring, Disk, Text, path_exists, is_dir, read_dir, create_dir_all, create_file, write_all,
    open_db,
  }

  -- The directory of the collection is there, with nothing in it.
  pub record IsEmpty (d : Disk) : Type 0 where
    pub dir : is_dir d (root env id) ≡ true
    pub empty :
        (name : String) (rest : FilePath) → path_exists d (root env id ++ name ∷ rest) ≡ false

  -- The disk after a shard was made.
  abbrev pub with_shard : String → Disk → Disk
  with_shard s d =
      (open_db
        (create_dir_all (create_dir_all d (segments_of env id s)).1 (segment_of env id s "0")).1
        (segment_of env id s "0")).1

  abbrev pub with_config : Text → Disk → Disk
  with_config t d =
      (write_all (create_file d (in_collection env id "config.json")).1
        (in_collection env id "config.json") t).1

  -- The configuration is there and reads back.
  abbrev pub HasConfig : CollectionConfig → Disk → Type 0
  HasConfig config d =
      (path_exists d (in_collection env id "config.json") ≡ true)
      × Holds env d (in_collection env id "config.json") config.params

  module _ (files : DiskLaws env) (dirs : DirLaws env) (laws : TreeLaws env)
      (configs : ConfigLaws env) (working : IsWorking env) where
    config-IsClear :
        (t : Text) (d : Disk) (s : String)
        → IsShardName s
        → IsEmpty d
        → IsClear env (with_config t d) (segment_of env id s "0")
    unfolding is_prefix
    config-IsClear t d s shard h q on_way there =
        let p = in_collection env id "config.json" in
        let d1 = (create_file d p).1 in
        let same_dirs = laws.write_is_dir d1 p q t ∙ laws.file_is_dir d p q in
        let apart = config-apart s shard in
        elim (laws.file_exists d p q (sym (laws.write_exists d1 p q t) ∙ there)) [
          | inl config ↦
              let here : is_prefix p (segment_of env id s "0") ≡ true =
                subst (λ x. is_prefix x (segment_of env id s "0") ≡ true) config on_way in
              absurd (ground arith)
          | inr old ↦ elim (prefix_cases (root env id) (s ∷ "segments" ∷ "0" ∷ []) q on_way) [
            | inl above ↦ same_dirs ∙ laws.above d (root env id) q h.dir above
            | inr (n, rest, below) ↦
                absurd (ground (arith, h.empty n rest, ap (path_exists d) below))
          ]
        ]

    pub config-IsBounded : (t : Text) (d : Disk) → IsEmpty d → IsBounded env id (with_config t d)
    config-IsBounded t d h =
        let p = in_collection env id "config.json" in
        let d1 = (create_file d p).1 in
        record {
          names = λ n e.
              elim (laws.file_exists d p (in_collection env id n)
                (sym (laws.write_exists d1 p (in_collection env id n) t) ∙ e)) [
                  | inl same ↦ inl (cc)
                  | inr there ↦ absurd (ground (arith, h.empty n []))
                ];
          config_file =
              laws.write_is_dir d1 p p t ∙ laws.file_is_dir d p p ∙ elim (Bool-cases (is_dir d p)) [
                | inl there ↦
                    absurd (ground (arith, laws.dir_exists d p there, h.empty "config.json" []))
                | inr absent ↦ absent
              ];
          only = λ s n e.
              elim (laws.file_exists d p (segment_of env id s n)
                (sym (laws.write_exists d1 p (segment_of env id s n) t) ∙ e)) [
                  | inl same ↦ absurd (ground arith)
                  | inr there ↦ absurd (ground (arith, h.empty s ("segments" ∷ n ∷ [])))
                ];
          dir = laws.write_is_dir d1 p (root env id) t ∙ laws.file_is_dir d p (root env id) ∙ h.dir;
          clear = λ s shard. config-IsClear t d s shard h;
        }

    -- The way to a shard's segment, once the directory of its segments was made.
    made-IsBounded :
        (s : String) (d : Disk)
        → IsShardName s
        → IsBounded env id d
        → IsBounded env id (create_dir_all d (segments_of env id s)).1
    made-IsBounded s d shard h = IsBounded-made_segments env id files dirs laws working s d shard h

    new-HasShard :
        (s : String) (d : Disk)
        → IsShardName s
        → IsBounded env id d
        → HasShard env id s
            (create_dir_all (create_dir_all d (segments_of env id s)).1 (segment_of env id s "0")).1
    new-HasShard s d shard h =
        HasShard-new env id files dirs laws working s (create_dir_all d (segments_of env id s)).1
          ((made-IsBounded s d shard h).clear s shard)

    pub shard-IsBounded :
        (s : String) (d : Disk)
        → IsShardName s
        → IsBounded env id d
        → IsBounded env id (with_shard s d)
    shard-IsBounded s d shard h =
        let d1 = (create_dir_all d (segments_of env id s)).1 in
        IsBounded-opened env id files dirs laws s (create_dir_all d1 (segment_of env id s "0")).1
          (new-HasShard s d shard h).segment_dir
          (IsBounded-made_segment env id files dirs laws working s d1 shard
            (made-IsBounded s d shard h))

    pub shard-HasShard :
        (s : String) (d : Disk)
        → IsShardName s
        → IsBounded env id d
        → HasShard env id s (with_shard s d)
    shard-HasShard s d shard h =
        let d1 = (create_dir_all d (segments_of env id s)).1 in
        HasShard-opened env id files dirs s (create_dir_all d1 (segment_of env id s "0")).1
          (segment_of env id s "0") (new-HasShard s d shard h)

    pub shard-keeps :
        (s t : String) (d : Disk) → HasShard env id t d → HasShard env id t (with_shard s d)
    shard-keeps s t d h =
        let d1 = (create_dir_all d (segments_of env id s)).1 in
        let seg = segment_of env id s "0" in
        HasShard-opened env id files dirs t (create_dir_all d1 seg).1 seg (
          HasShard-made env id files dirs t d1 seg
            (HasShard-made env id files dirs t d (segments_of env id s) h))

    pub shard-HasConfig :
        (config : CollectionConfig) (s : String) (d : Disk)
        → HasConfig config d
        → HasConfig config (with_shard s d)
    unfolding is_prefix
    shard-HasConfig config s d (there, h) =
        let p = in_collection env id "config.json" in
        let seg = segment_of env id s "0" in
        let d1 = (create_dir_all d (segments_of env id s)).1 in
        let d2 = (create_dir_all d1 seg).1 in
        (
          files.open_keeps d2 seg p (
              files.create_dir_keeps d1 seg p
                (files.create_dir_keeps d (segments_of env id s) p there)),
          configs.open_keeps d2 p seg config.params (ground (arith, beq_refl id)) (
              configs.mkdir_keeps d1 p seg config.params
                (configs.mkdir_keeps d p (segments_of env id s) config.params h)),
        )

    pub init_shard-ok :
        (s : String) (k : ShardId) (d : Disk)
        → IsShardName s
        → IsBounded env id d
        → (local : LocalShard Db) × (init_shard env (in_collection env id s) k d
            ≡ some (local, with_shard s d))
    unfolding init_shard create_segment join
    init_shard-ok s k d shard h =
        let dir = segments_of env id s in
        let seg = segment_of env id s "0" in
        let d1 = (create_dir_all d dir).1 in
        let (db, opened) =
          working.opened (create_dir_all d1 seg).1 seg (new-HasShard s d shard h).segment_dir in
        let first = working.made d dir (IsClear-shorter env d dir ("0" ∷ []) (h.clear s shard)) in
        let second = working.made d1 seg ((made-IsBounded s d shard h).clear s shard) in
        (
          record {
            id = k;
            path = in_collection env id s;
            segments = (0, record { path = seg; db = db }) ∷ [];
          },
          ground (arith, first, second, opened),
        )

    pub save_config-ok :
        (config : CollectionConfig) (d : Disk)
        → IsEmpty d
        → (t : Text) × (save_config env config (root env id) d ≡ (ok tt, with_config t d))
          × HasConfig config (with_config t d)
    unfolding save_config join
    save_config-ok config d h =
        let p = in_collection env id "config.json" in
        let (t, text) = working.text config.params in
        let absent : is_dir d p ≡ false = elim (Bool-cases (is_dir d p)) [
          | inl there ↦ absurd (ground (arith, laws.dir_exists d p there, h.empty "config.json" []))
          | inr gone ↦ gone
        ] in
        let made : (create_file d p).0 ≡ ok tt =
          working.file d (root env id) "config.json" h.dir absent in
        let d1 = (create_file d p).1 in
        let done =
          working.written d1 p t (laws.file_made d p made) (laws.file_is_dir d p p ∙ absent) in
        (
          t,
          ground (arith, text, made, done),
          (
            laws.write_exists d1 p p t ∙ laws.file_made d p made,
            configs.written d p config.params t text made done,
          ),
        )
