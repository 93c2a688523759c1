-- ===== src/External/Tree.antt =====
-- The file system as a tree of directories, for what is written on the disk and read again later.
use mathlib.Core.List.{Memᴰ}
use smoldb.Prelude.{
  String, ◌≡◌, ◌⊎◌, Bool, true, false, ◌||◌, ◌&&◌, List, [], ◌∷◌, map, ok, HashMap, string_eq, ◌==◌,
}
use smoldb.Types.{SegmentId, FilePath, join}
use smoldb.External.{Env}

-- `q.starts_with(p)`
unfoldable pub is_prefix : FilePath → FilePath → Bool
is_prefix [] q = true
is_prefix (x ∷ p) [] = false
is_prefix (x ∷ p) (y ∷ q) = x == y && is_prefix p q

-- A configuration file that reads back.
abbrev pub Holds : (env : Env) → env.Disk → FilePath → String → Type 0
Holds env d p params =
    (f : env.File) × (env.open_file d p ≡ ok f) × (env.config_from_reader f ≡ ok params)

-- What exists after each call, and what a directory lists. A database that is opened in a directory writes
-- only below it.
pub record TreeLaws (env : Env) : Type 0 where
  pub dir_exists :
      (d : env.Disk) (p : FilePath) → env.is_dir d p ≡ true → env.path_exists d p ≡ true
  pub above :
      (d : env.Disk) (p q : FilePath)
      → env.is_dir d p ≡ true
      → is_prefix q p ≡ true
      → env.is_dir d q ≡ true
  pub mkdir_exists :
      (d : env.Disk) (p q : FilePath)
      → (env.create_dir_all d p).0 ≡ ok tt
      → env.path_exists (env.create_dir_all d p).1 q ≡ (is_prefix q p || env.path_exists d q)
  pub mkdir_is_dir :
      (d : env.Disk) (p q : FilePath)
      → (env.create_dir_all d p).0 ≡ ok tt
      → env.is_dir (env.create_dir_all d p).1 q ≡ (is_prefix q p || env.is_dir d q)
  pub file_made :
      (d : env.Disk) (p : FilePath)
      → (env.create_file d p).0 ≡ ok tt
      → env.path_exists (env.create_file d p).1 p ≡ true
  pub file_exists :
      (d : env.Disk) (p q : FilePath)
      → env.path_exists (env.create_file d p).1 q ≡ true
      → (q ≡ p) ⊎ (env.path_exists d q ≡ true)
  pub file_is_dir :
      (d : env.Disk) (p q : FilePath) → env.is_dir (env.create_file d p).1 q ≡ env.is_dir d q
  pub write_exists :
      (d : env.Disk) (p q : FilePath) (t : env.Text)
      → env.path_exists (env.write_all d p t).1 q ≡ env.path_exists d q
  pub write_is_dir :
      (d : env.Disk) (p q : FilePath) (t : env.Text)
      → env.is_dir (env.write_all d p t).1 q ≡ env.is_dir d q
  pub open_exists :
      (d : env.Disk) (p q : FilePath)
      → env.is_dir d p ≡ true
      → is_prefix p q ≡ false
      → env.path_exists (env.open_db d p).1 q ≡ env.path_exists d q
  pub open_is_dir :
      (d : env.Disk) (p q : FilePath)
      → env.is_dir d p ≡ true
      → is_prefix p q ≡ false
      → env.is_dir (env.open_db d p).1 q ≡ env.is_dir d q
  pub listed :
      (d : env.Disk) (p : FilePath) (paths : List FilePath) (name : String)
      → env.read_dir d p ≡ ok (map ok paths)
      → env.path_exists d (join p name) ≡ true
      → Memᴰ (join p name) paths
  pub listing :
      (d : env.Disk) (p q : FilePath) (paths : List FilePath)
      → env.read_dir d p ≡ ok (map ok paths)
      → Memᴰ q paths
      → (name : String) × (q ≡ join p name) × (env.path_exists d q ≡ true)

-- A configuration that is written reads back, and stays as it is while directories are made and
-- databases are opened elsewhere.
pub record ConfigLaws (env : Env) : Type 0 where
  pub written :
      (d : env.Disk) (p : FilePath) (params : String) (t : env.Text)
      → env.config_to_text params ≡ ok t
      → (env.create_file d p).0 ≡ ok tt
      → (env.write_all (env.create_file d p).1 p t).0 ≡ ok tt
      → Holds env (env.write_all (env.create_file d p).1 p t).1 p params
  pub mkdir_keeps :
      (d : env.Disk) (p q : FilePath) (params : String)
      → Holds env d p params
      → Holds env (env.create_dir_all d q).1 p params
  pub open_keeps :
      (d : env.Disk) (p q : FilePath) (params : String)
      → is_prefix q p ≡ false
      → Holds env d p params
      → Holds env (env.open_db d q).1 p params

-- What stands on the way to a path is a directory.
abbrev pub IsClear : (env : Env) → env.Disk → FilePath → Type 0
IsClear env d p =
    (q : FilePath) → is_prefix q p ≡ true → env.path_exists d q ≡ true → env.is_dir d q ≡ true

-- The disk works: a file is created in a directory that is there, under a name that no directory has, and
-- written once it is there; directories are made where no file is in the way; a database is opened
-- in a directory that is there, and a directory that is there can be listed. A configuration has a
-- text.
pub record IsWorking (env : Env) : Type 0 where
  pub text : (params : String) → (t : env.Text) × (env.config_to_text params ≡ ok t)
  pub file :
      (d : env.Disk) (p : FilePath) (name : String)
      → env.is_dir d p ≡ true
      → env.is_dir d (join p name) ≡ false
      → (env.create_file d (join p name)).0 ≡ ok tt
  pub written :
      (d : env.Disk) (p : FilePath) (t : env.Text)
      → env.path_exists d p ≡ true
      → env.is_dir d p ≡ false
      → (env.write_all d p t).0 ≡ ok tt
  pub made : (d : env.Disk) (p : FilePath) → IsClear env d p → (env.create_dir_all d p).0 ≡ ok tt
  pub opened :
      (d : env.Disk) (p : FilePath)
      → env.is_dir d p ≡ true
      → (db : env.Db) × ((env.open_db d p).0 ≡ ok db)
  pub read :
      (d : env.Disk) (p : FilePath)
      → env.is_dir d p ≡ true
      → (paths : List FilePath) × (env.read_dir d p ≡ ok (map ok paths))

-- `HashMap`: iteration over paths visits the entries of the map.
pub record PathOrderLaws (env : Env) : Type 0 where
  pub arranged :
      (m : HashMap SegmentId FilePath) (e : SegmentId × FilePath)
      → Memᴰ e (env.arrange_paths m)
      → Memᴰ e m
  pub kept :
      (m : HashMap SegmentId FilePath) (e : SegmentId × FilePath)
      → Memᴰ e m
      → Memᴰ e (env.arrange_paths m)
