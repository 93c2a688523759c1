-- ===== src/Storage/Recovery/Tidy.antt =====
-- A shard whose directories are as they were made is loaded.
use mathlib.Core.Path.{subst}
use mathlib.Core.List.Memᴰ
use mathlib.Core.List.{Memᴰ}
use smoldb.Prelude.{
  ◌≢◌, lookup, lookup-insert, nat_beq_iff, ◌≡◌, refl, ◌∙◌, sym, ap, ◌⊎◌, inl, inr, String, List, [],
  ◌∷◌, map, true, Option, none, some, Result, ok, arith, All, HashMap, insert, collect, filter_map,
  nat_eq, string_eq,
}
use smoldb.Types.{FilePath, CollectionName, SegmentId, ShardId, join}
use smoldb.Decimal.{parse_uint, parse_digits, to_digit, checked_mul, checked_add}
use smoldb.Storage.Error.{StorageError}
use smoldb.Storage.Segment.{Segment}
use smoldb.Storage.Recovery.{
  segment_entry, shard_dir_id, file_name, load_segment, load_segments, load_shard,
}
use smoldb.Storage.Recovery.Listing.{
  All-of_Mem, Mem-of_All, collect-All, collect-ne, entries-All, entries-ne,
}
use smoldb.Storage.Recovery.Tree.{
  IsShardName, in_collection, segments_of, segment_of, IsBounded, HasShard, HasShard-made,
  HasShard-opened, IsBounded-opened, IsBounded-made_segments,
}
use smoldb.Storage.Recovery.Clear.{IsClear-shorter}
use smoldb.External.{Env, DiskLaws, DirLaws}
use smoldb.External.Tree.{TreeLaws, IsWorking, PathOrderLaws}

module _ (env : Env) (id : CollectionName) where
  open env use {Db, Disk, path_exists, is_dir, read_dir, create_dir_all, open_db, arrange_paths}

  -- The two shards stand, and nothing else does.
  pub record IsTidy (d : Disk) : Type 0 where
    pub bounded : IsBounded env id d
    pub zero : HasShard env id "0" d
    pub one : HasShard env id "1" d

  pub IsTidy-shard : (s : String) (d : Disk) → IsShardName s → IsTidy d → HasShard env id s d
  IsTidy-shard s d (inl e) h = subst (λ x. HasShard env id x d) (sym e) h.zero
  IsTidy-shard s d (inr e) h = subst (λ x. HasShard env id x d) (sym e) h.one

  -- The load of something succeeds, gives what is wanted and leaves the directories tidy.
  abbrev pub Succeeds : {A : Type 0} → (A → Type 0) → Option (Result StorageError A × Disk) → Type 0
  Succeeds {A} Wanted result =
      (a : A) × (d : Disk) × (result ≡ some (ok a, d)) × IsTidy d × Wanted a

  -- Segment 0 is there.
  abbrev pub HasZero : HashMap SegmentId (Segment Db) → Type 0
  HasZero segments = lookup 0 segments ≢ none

  module _ (files : DiskLaws env) (dirs : DirLaws env) (laws : TreeLaws env)
      (working : IsWorking env) (order : PathOrderLaws env) where
    IsTidy-opened :
        (s : String) (d : Disk)
        → IsShardName s
        → IsTidy d
        → IsTidy (open_db d (segment_of env id s "0")).1
    IsTidy-opened s d shard h = record {
      bounded =
          IsBounded-opened env id files dirs laws s d (IsTidy-shard s d shard h).segment_dir
            h.bounded;
      zero = HasShard-opened env id files dirs "0" d (segment_of env id s "0") h.zero;
      one = HasShard-opened env id files dirs "1" d (segment_of env id s "0") h.one;
    }

    IsTidy-made :
        (s : String) (d : Disk)
        → IsShardName s
        → IsTidy d
        → IsTidy (create_dir_all d (segments_of env id s)).1
    IsTidy-made s d shard h = record {
      bounded = IsBounded-made_segments env id files dirs laws working s d shard h.bounded;
      zero = HasShard-made env id files dirs "0" d (segments_of env id s) h.zero;
      one = HasShard-made env id files dirs "1" d (segments_of env id s) h.one;
    }

    load_segment-ok :
        (s : String) (d : Disk)
        → IsShardName s
        → IsTidy d
        → Succeeds (λ segment. Unit {0}) (load_segment env (segment_of env id s "0") d)
    unfolding load_segment
    load_segment-ok s d shard h =
        let path = segment_of env id s "0" in
        let here : path_exists d path ≡ true = (IsTidy-shard s d shard h).segment in
        let (db, opened) = working.opened d path (IsTidy-shard s d shard h).segment_dir in
        (
          record { path = path; db = db },
          (open_db d path).1,
          ground (arith, here, opened),
          IsTidy-opened s d shard h,
          tt,
        )

    load_segments-ok :
        (s : String) (paths : HashMap SegmentId FilePath) (old : HashMap SegmentId (Segment Db))
        (d : Disk)
        → All (λ e. e ≡ (0, segment_of env id s "0")) paths
        → (paths ≢ []) ⊎ HasZero old
        → IsShardName s
        → IsTidy d
        → Succeeds HasZero (load_segments env paths old d)
    unfolding load_segments
    load_segments-ok s [] old d at (inl full) shard h = absurd (full refl)
    load_segments-ok s [] old d at (inr zero) shard h = (old, d, refl, h, zero)
    load_segments-ok s ((k, path) ∷ paths) old d at start shard h =
        let (segment, d1, first, h1, _) = load_segment-ok s d shard h in
        let here : path ≡ segment_of env id s "0" = ap (λ e. e.1) at.0 in
        let loaded : load_segment env path d ≡ some (ok segment, d1) =
          ap (λ x. load_segment env x d) here ∙ first in
        let number : k ≡ 0 = ap (λ e. e.0) at.0 in
        let zero : HasZero (insert k segment old) =
          λ gone. ground (arith, lookup-insert k 0 segment old, nat_beq_iff k 0) in
        let (segments, d2, rest, h2, held) =
          load_segments-ok s paths (insert k segment old) d1 at.1 (inr zero) shard h1 in
        (segments, d2, ground (arith, loaded, rest), h2, held)

    shard_number :
        (s : String)
        → IsShardName s
        → (k : ShardId) × (shard_dir_id (in_collection env id s) ≡ ok k)
    unfolding shard_dir_id file_name parse_uint parse_digits to_digit checked_mul checked_add
    shard_number s (inl e) = (0, rw e refl)
    shard_number s (inr e) = (1, rw e refl)

    arranged_lem :
        (m : HashMap SegmentId FilePath) (P : SegmentId × FilePath → Type 0)
        → All P m
        → m ≢ []
        → All P (arrange_paths m) × (arrange_paths m ≢ [])
    arranged_lem [] P all full = absurd (full refl)
    arranged_lem (e ∷ m) P all full = (
      All-of_Mem P (arrange_paths (e ∷ m))
          (λ x here. Mem-of_All P (e ∷ m) all x (order.arranged (e ∷ m) x here)),
      λ empty. Memᴰ.not-nil (subst (Memᴰ e) empty (order.kept (e ∷ m) e (Memᴰ.head refl))),
    )

    segment_zero :
        (s : String)
        → segment_entry (ok (segment_of env id s "0")) ≡ some (0, segment_of env id s "0")
    unfolding segment_entry file_name parse_uint parse_digits to_digit checked_mul checked_add
    segment_zero s = refl

    -- The segments that are loaded: segment 0, and nothing else.
    segment_paths :
        (s : String) (d : Disk) (paths : List FilePath)
        → IsShardName s
        → IsTidy d
        → read_dir d (segments_of env id s) ≡ ok (map ok paths)
        → All
            (λ e. e ≡ (0, segment_of env id s "0"))
            (arrange_paths (collect (filter_map segment_entry (map ok paths)) []))
          × (arrange_paths (collect (filter_map segment_entry (map ok paths)) []) ≢ [])
    unfolding join
    segment_paths s d paths shard h e =
        let path = segment_of env id s "0" in
        let each : (p : FilePath) → Memᴰ p paths → p ≡ path = λ p m.
          let (name, at, there) = laws.listing d (segments_of env id s) p paths e m in
          let zero : name ≡ "0" =
            h.bounded.only s name (subst (λ x. path_exists d x ≡ true) at there) in
          at ∙ ap (segment_of env id s) zero in
        let same = All-of_Mem (λ p. p ≡ path) paths each in
        let entries = filter_map segment_entry (map ok paths) in
        let all =
          collect-All (λ x. x ≡ (0, path)) entries []
            (entries-All path 0 (segment_zero s) paths same) tt in
        let full =
          entries-ne path 0 (segment_zero s) paths same
            (laws.listed d (segments_of env id s) paths "0" e (IsTidy-shard s d shard h).segment) in
        arranged_lem (collect entries []) (λ x. x ≡ (0, path)) all
          (collect-ne entries [] (inl full))

    pub load_shard-ok :
        (s : String) (d : Disk)
        → IsShardName s
        → IsTidy d
        → Succeeds (λ shard. HasZero shard.segments) (load_shard env (in_collection env id s) d)
    unfolding load_shard join
    load_shard-ok s d shard h =
        let dir = segments_of env id s in
        let d1 = (create_dir_all d dir).1 in
        let way = IsClear-shorter env d dir ("0" ∷ []) (h.bounded.clear s shard) in
        let h1 = IsTidy-made s d shard h in
        let (paths, listed) = working.read d1 dir (IsTidy-shard s d1 shard h1).segments in
        let (k, number) = shard_number s shard in
        let (all, full) = segment_paths s d1 paths shard h1 listed in
        let (segments, d2, loaded, h2, zero) =
          load_segments-ok s (arrange_paths (collect (filter_map segment_entry (map ok paths)) []))
            [] d1 all (inl full) shard h1 in
        (
          record { id = k; path = in_collection env id s; segments = segments },
          d2,
          ground (arith, working.made d dir way, listed, number, loaded),
          h2,
          zero,
        )
