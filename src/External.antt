-- ===== src/External.antt =====
-- The crates and services that smoldb calls, as parameters: serde_json, sled, hashring, http, tonic
-- and the peers behind it, and the order in which a `HashMap` is iterated.
pub mod Tree
use smoldb.Prelude.{
  ℕ, String, ◌≡◌, ◌≢◌, ◌⊎◌, Bool, true, false, List, Option, none, some, Result, ok, HashMap,
  lookup, Unique, Eq, nat_eq, string_eq, ◌==◌, if◌then◌else◌,
}
use smoldb.Types.{SegmentId, ShardId, FilePath}
use smoldb.Storage.Point.{PointId, Point}
use smoldb.Grpc.Schema.{
  GetPointsRequest, GetPointsResponse, UpsertPointsRequest, UpsertPointsResponse,
  AddPeerToKnownMessage, AllPeers,
}

pub record Env : Type 1 where
  -- serde_json: the values, the texts that it writes, and what it writes and reads
  pub Value : Type 0
  pub Text : Type 0
  pub point_to_text : Point Value → Result String Text
  pub text_to_point : Text → Result String (Point Value)
  pub value_to_text : Value → Text
  pub text_to_value : Text → Result String Value
  -- sled: a database, which each write leaves in a new state, failing or not
  pub Db : Type 0
  pub db_insert : Db → String → Text → Result String (Unit {0}) × Db
  pub db_flush : Db → Result String (Unit {0}) × Db
  pub db_get : Db → String → Result String (Option Text)
  pub db_iter : Db → List (Result String (String × Text))
  pub db_len : Db → ℕ
  -- the file system: each call leaves the disk in a new state, failing or not
  pub Disk : Type 0
  pub path_exists : Disk → FilePath → Bool
  pub create_dir_all : Disk → FilePath → Result String (Unit {0}) × Disk
  pub remove_dir_all : Disk → FilePath → Result String (Unit {0}) × Disk
  pub create_file : Disk → FilePath → Result String (Unit {0}) × Disk
  pub write_all : Disk → FilePath → Text → Result String (Unit {0}) × Disk
  -- what a read of the disk sees: the entries of a directory, each of which may fail, and a file
  pub is_dir : Disk → FilePath → Bool
  pub read_dir : Disk → FilePath → Result String (List (Result String FilePath))
  pub File : Type 0
  pub open_file : Disk → FilePath → Result String File
  pub config_from_reader : File → Result String String
  -- the `Debug` text of a path
  pub debug_path : FilePath → String
  -- serde_json on the `params` of a `CollectionConfig`, and `sled::open`
  pub config_to_text : String → Result String Text
  pub open_db : Disk → FilePath → Result String Db × Disk
  -- hashring
  pub Ring : Type 0
  pub ring_new : Ring
  pub ring_add : Ring → ShardId → Ring
  pub ring_get : Ring → PointId → Option ShardId
  -- http::Uri
  pub Uri : Type 0
  pub uri_eq : Eq Uri
  pub parse_uri : String → Result String Uri
  pub show_uri : Uri → String
  -- tonic: the rest of the cluster, and the calls that reach it over a channel
  pub Net : Type 0
  pub Channel : Type 0
  pub make_channel : Net → Uri → Result String Channel × Net
  pub call_get_points :
      Net → Channel → GetPointsRequest → Result String (GetPointsResponse Text) × Net
  pub call_upsert_points :
      Net → Channel → UpsertPointsRequest Text → Result String UpsertPointsResponse × Net
  pub call_add_peer_to_known : Net → Channel → AddPeerToKnownMessage → Result String AllPeers × Net
  -- the entries of a `HashMap` from shards to points, and of one from segments to paths, in the
  -- order of its iteration
  pub arrange : HashMap ShardId (List PointId) → HashMap ShardId (List PointId)
  pub arrange_paths : HashMap SegmentId FilePath → HashMap SegmentId FilePath

-- sled: what was inserted is read back, and a flush changes nothing that a read shows.
pub record SledLaws (env : Env) : Type 0 where
  pub get_inserted :
      (db db' : env.Db) (k j : String) (t : env.Text)
      → env.db_insert db k t ≡ (ok tt, db')
      → env.db_get db' j ≡ (if k == j then ok (some t) else env.db_get db j)
  pub get_flushed :
      (db db' : env.Db) (j : String)
      → env.db_flush db ≡ (ok tt, db')
      → env.db_get db' j ≡ env.db_get db j

-- hashring: an empty ring routes nothing, a ring with a node routes everything, and a node that is
-- added takes points over without moving any other.
pub record RingLaws (env : Env) : Type 0 where
  pub empty : (p : PointId) → env.ring_get env.ring_new p ≡ none
  pub total : (r : env.Ring) (s : ShardId) (p : PointId) → env.ring_get (env.ring_add r s) p ≢ none
  pub moves :
      (r : env.Ring) (s : ShardId) (p : PointId)
      → (env.ring_get (env.ring_add r s) p ≡ some s)
        ⊎ (env.ring_get (env.ring_add r s) p ≡ env.ring_get r p)

-- `HashMap`: iteration visits the entries of the map, each key once.
pub record OrderLaws (env : Env) : Type 0 where
  pub lookup_arranged :
      (m : HashMap ShardId (List PointId)) (s : ShardId) → lookup s (env.arrange m) ≡ lookup s m
  pub arranged_unique : (m : HashMap ShardId (List PointId)) → Unique m → Unique (env.arrange m)

-- The file system: what was created exists, also after what is written later, and what was removed
-- does not.
pub record DiskLaws (env : Env) : Type 0 where
  pub created :
      (d : env.Disk) (p : FilePath)
      → (env.create_dir_all d p).0 ≡ ok tt
      → env.path_exists (env.create_dir_all d p).1 p ≡ true
  pub create_dir_keeps :
      (d : env.Disk) (p q : FilePath)
      → env.path_exists d q ≡ true
      → env.path_exists (env.create_dir_all d p).1 q ≡ true
  pub create_file_keeps :
      (d : env.Disk) (p q : FilePath)
      → env.path_exists d q ≡ true
      → env.path_exists (env.create_file d p).1 q ≡ true
  pub write_keeps :
      (d : env.Disk) (p q : FilePath) (t : env.Text)
      → env.path_exists d q ≡ true
      → env.path_exists (env.write_all d p t).1 q ≡ true
  pub open_keeps :
      (d : env.Disk) (p q : FilePath)
      → env.path_exists d q ≡ true
      → env.path_exists (env.open_db d p).1 q ≡ true
  pub removed :
      (d : env.Disk) (p : FilePath)
      → (env.remove_dir_all d p).0 ≡ ok tt
      → env.path_exists (env.remove_dir_all d p).1 p ≡ false

-- The file system: a directory stays one while directories are made and databases are opened.
pub record DirLaws (env : Env) : Type 0 where
  pub create_dir_keeps :
      (d : env.Disk) (p q : FilePath)
      → env.is_dir d q ≡ true
      → env.is_dir (env.create_dir_all d p).1 q ≡ true
  pub open_keeps :
      (d : env.Disk) (p q : FilePath)
      → env.is_dir d q ≡ true
      → env.is_dir (env.open_db d p).1 q ≡ true
