-- ===== src/Storage/Recovery/Tree.antt =====
-- The directories of a collection with two shards, and what keeps them.
use mathlib.Core.Path.{subst}
use smoldb.Prelude.{
  ◌≡◌, refl, ◌∙◌, sym, ◌⊎◌, inl, inr, String, [], ◌∷◌, true, false, arith, string_eq, beq_refl,
  ◌==◌, Bool-cases,
}
use smoldb.Types.{FilePath, CollectionName}
use smoldb.External.{Env, DiskLaws, DirLaws}
use smoldb.External.Tree.{is_prefix, TreeLaws, IsWorking, IsClear}
use smoldb.Storage.Recovery.Clear.{IsClear-shorter, IsClear-made, IsClear-opened}

abbrev pub IsShardName : String → Type 0
IsShardName s = (s ≡ "0") ⊎ (s ≡ "1")

pub config-apart : (s : String) → IsShardName s → ("config.json" == s) ≡ false
config-apart s (inl e) = rw e refl
config-apart s (inr e) = rw e refl

module _ (env : Env) (id : CollectionName) where
  open env use {Disk, path_exists, is_dir, create_dir_all, open_db}

  abbrev pub root : FilePath
  root = "storage" ∷ "collections" ∷ id ∷ []

  abbrev pub in_collection : String → FilePath
  in_collection n = "storage" ∷ "collections" ∷ id ∷ n ∷ []

  abbrev pub segments_of : String → FilePath
  segments_of s = "storage" ∷ "collections" ∷ id ∷ s ∷ "segments" ∷ []

  abbrev pub segment_of : String → String → FilePath
  segment_of s n = "storage" ∷ "collections" ∷ id ∷ s ∷ "segments" ∷ n ∷ []

  -- Nothing is in the directory but a configuration and the two shards, and of a shard's segments
  -- there is only segment 0.
  pub record IsBounded (d : Disk) : Type 0 where
    pub names :
        (n : String) → path_exists d (in_collection n) ≡ true → (n ≡ "config.json") ⊎ IsShardName n
    pub config_file : is_dir d (in_collection "config.json") ≡ false
    pub only : (t n : String) → path_exists d (segment_of t n) ≡ true → n ≡ "0"
    pub dir : is_dir d root ≡ true
    pub clear : (s : String) → IsShardName s → IsClear env d (segment_of s "0")

  -- A shard and its segment 0 are there.
  pub record HasShard (s : String) (d : Disk) : Type 0 where
    pub there : path_exists d (in_collection s) ≡ true
    pub dir : is_dir d (in_collection s) ≡ true
    pub segments : is_dir d (segments_of s) ≡ true
    pub segment : path_exists d (segment_of s "0") ≡ true
    pub segment_dir : is_dir d (segment_of s "0") ≡ true

  module _ (files : DiskLaws env) (dirs : DirLaws env) where
    pub HasShard-made :
        (s : String) (d : Disk) (p : FilePath) → HasShard s d → HasShard s (create_dir_all d p).1
    HasShard-made s d p h = record {
      there = files.create_dir_keeps d p (in_collection s) h.there;
      dir = dirs.create_dir_keeps d p (in_collection s) h.dir;
      segments = dirs.create_dir_keeps d p (segments_of s) h.segments;
      segment = files.create_dir_keeps d p (segment_of s "0") h.segment;
      segment_dir = dirs.create_dir_keeps d p (segment_of s "0") h.segment_dir;
    }

    pub HasShard-opened :
        (s : String) (d : Disk) (p : FilePath) → HasShard s d → HasShard s (open_db d p).1
    HasShard-opened s d p h = record {
      there = files.open_keeps d p (in_collection s) h.there;
      dir = dirs.open_keeps d p (in_collection s) h.dir;
      segments = dirs.open_keeps d p (segments_of s) h.segments;
      segment = files.open_keeps d p (segment_of s "0") h.segment;
      segment_dir = dirs.open_keeps d p (segment_of s "0") h.segment_dir;
    }

    module _ (laws : TreeLaws env) where
      pub IsBounded-opened :
          (s : String) (d : Disk)
          → is_dir d (segment_of s "0") ≡ true
          → IsBounded d
          → IsBounded (open_db d (segment_of s "0")).1
      unfolding is_prefix
      IsBounded-opened s d here h = record {
        names = λ n e. h.names n (
            sym (
              laws.open_exists d (segment_of s "0") (in_collection n) here
                (ground (arith, beq_refl id)))
            ∙ e);
        config_file =
            laws.open_is_dir d (segment_of s "0") (in_collection "config.json") here
              (ground (arith, beq_refl id))
            ∙ h.config_file;
        only = λ t n e. elim (Bool-cases ("0" == n)) [
          | inl zero ↦ sym ((string_eq.beq_iff "0" n).0 zero)
          | inr other ↦ h.only t n (
              sym (
                laws.open_exists d (segment_of s "0") (segment_of t n) here
                  (ground (arith, beq_refl id)))
              ∙ e)
        ];
        dir = dirs.open_keeps d (segment_of s "0") root h.dir;
        clear = λ t shard.
            IsClear-opened env dirs laws d (segment_of t "0") (segment_of s "0") here refl
              (h.clear t shard);
      }

      module _ (working : IsWorking env) where
        pub IsBounded-made_segments :
            (s : String) (d : Disk)
            → IsShardName s
            → IsBounded d
            → IsBounded (create_dir_all d (segments_of s)).1
        unfolding is_prefix
        IsBounded-made_segments s d shard h =
            let done =
              working.made d (segments_of s)
                (IsClear-shorter env d (segments_of s) ("0" ∷ []) (h.clear s shard)) in
            let apart = config-apart s shard in
            record {
              names = λ n e. elim (Bool-cases (n == s)) [
                | inl same ↦ inr (subst IsShardName (sym ((string_eq.beq_iff n s).0 same)) shard)
                | inr other ↦ h.names n (
                    ground (
                      arith,
                      laws.mkdir_exists d (segments_of s) (in_collection n) done,
                      beq_refl id,
                    ))
              ];
              config_file = ground (
                arith,
                laws.mkdir_is_dir d (segments_of s) (in_collection "config.json") done,
                h.config_file,
                beq_refl id,
              );
              only = λ t n e. h.only t n (
                  ground (
                    arith,
                    laws.mkdir_exists d (segments_of s) (segment_of t n) done,
                    beq_refl id,
                  ));
              dir = dirs.create_dir_keeps d (segments_of s) root h.dir;
              clear = λ t other.
                  IsClear-made env dirs laws d (segment_of t "0") (segments_of s) done
                    (h.clear t other);
            }

        pub IsBounded-made_segment :
            (s : String) (d : Disk)
            → IsShardName s
            → IsBounded d
            → IsBounded (create_dir_all d (segment_of s "0")).1
        unfolding is_prefix
        IsBounded-made_segment s d shard h =
            let done = working.made d (segment_of s "0") (h.clear s shard) in
            let apart = config-apart s shard in
            record {
              names = λ n e. elim (Bool-cases (n == s)) [
                | inl same ↦ inr (subst IsShardName (sym ((string_eq.beq_iff n s).0 same)) shard)
                | inr other ↦ h.names n (
                    ground (
                      arith,
                      laws.mkdir_exists d (segment_of s "0") (in_collection n) done,
                      beq_refl id,
                    ))
              ];
              config_file = ground (
                arith,
                laws.mkdir_is_dir d (segment_of s "0") (in_collection "config.json") done,
                h.config_file,
                beq_refl id,
              );
              only = λ t n e. elim (Bool-cases (n == "0")) [
                | inl zero ↦ (string_eq.beq_iff n "0").0 zero
                | inr other ↦ h.only t n (
                    ground (
                      arith,
                      laws.mkdir_exists d (segment_of s "0") (segment_of t n) done,
                      beq_refl id,
                    ))
              ];
              dir = dirs.create_dir_keeps d (segment_of s "0") root h.dir;
              clear = λ t other.
                  IsClear-made env dirs laws d (segment_of t "0") (segment_of s "0") done
                    (h.clear t other);
            }

        pub HasShard-new :
            (s : String) (d : Disk)
            → IsClear env d (segment_of s "0")
            → HasShard s (create_dir_all d (segment_of s "0")).1
        unfolding is_prefix
        HasShard-new s d way =
            let p = segment_of s "0" in
            let done = working.made d p way in
            record {
              there =
                  ground
                    (arith, laws.mkdir_exists d p (in_collection s) done, beq_refl id, beq_refl s);
              dir =
                  ground
                    (arith, laws.mkdir_is_dir d p (in_collection s) done, beq_refl id, beq_refl s);
              segments =
                  ground
                    (arith, laws.mkdir_is_dir d p (segments_of s) done, beq_refl id, beq_refl s);
              segment =
                  ground
                    (arith, laws.mkdir_exists d p (segment_of s "0") done, beq_refl id, beq_refl s);
              segment_dir =
                  ground
                    (arith, laws.mkdir_is_dir d p (segment_of s "0") done, beq_refl id, beq_refl s);
            }
