-- ===== src/Tests/Demo.antt =====
-- A small world for the examples: texts are points, a database and the disk are maps, the ring takes
-- points by their parity, and every call to a peer succeeds and is counted.
use smoldb.Prelude.{
  ℕ, ◌+◌, ◌%◌, ◌≡◌, refl, ◌≢◌, inl, inr, String, List, [], ◌∷◌, Bool, true, false, not, Option,
  none, some, ok, arith, HashMap, lookup, insert, remove, contains_key, lookup-insert,
  lookup-remove, string_eq, nat_beq, ◌==◌, beq_refl, length, map, Bool-cases, Option-cases,
  if◌then◌else◌,
}
use smoldb.Types.{ShardId, FilePath, display, join}
use smoldb.Storage.Point.{PointId, Point}
use smoldb.External.{Env, SledLaws, RingLaws, OrderLaws, DiskLaws, DirLaws}

unfoldable pub takes : ShardId → PointId → Bool
takes s (PointId.id n) = nat_beq (n % 2) (s % 2)
takes s (PointId.uuid text) = nat_beq (s % 2) 0

-- A node takes over its points, and the first node all points.
unfoldable pub assign : ShardId → PointId → Option ShardId → Option ShardId
assign s p none = some s
assign s p (some t) = if takes s p then some s else some t

unfoldable pub route : List ShardId → PointId → Option ShardId
route [] p = none
route (s ∷ nodes) p = assign s p (route nodes p)

unfoldable pub exists : HashMap String (Unit {0}) → FilePath → Bool
exists disk path = contains_key (display path) disk

-- A directory of a collection has a file and two shards, one of segments has segment 0.
abbrev pub names : FilePath → List String
names (storage ∷ collections ∷ []) = "books" ∷ "lost+found" ∷ []
names (storage ∷ collections ∷ name ∷ []) = "config.json" ∷ "1" ∷ "0" ∷ []
names (storage ∷ collections ∷ name ∷ shard ∷ segments ∷ []) = "0" ∷ []
names _ = []

abbrev pub is_file : FilePath → Bool
is_file (storage ∷ collections ∷ name ∷ file ∷ []) = file == "config.json"
is_file _ = false

abbrev pub demo : Env
demo = record {
  Value = ℕ;
  Text = Point ℕ;
  point_to_text = λ p. ok p;
  text_to_point = λ t. ok t;
  value_to_text = λ v. record { id = PointId.id 0; payload = v };
  text_to_value = λ t. ok t.payload;
  Db = HashMap String (Point ℕ);
  db_insert = λ db k t. (ok tt, insert k t db);
  db_flush = λ db. (ok tt, db);
  db_get = λ db k. ok (lookup k db);
  db_iter = λ db. map ok db;
  db_len = λ db. length db;
  Disk = HashMap String (Unit {0});
  path_exists = exists;
  create_dir_all = λ disk path. (ok tt, insert (display path) tt disk);
  remove_dir_all = λ disk path. (ok tt, remove (display path) disk);
  create_file = λ disk path. (ok tt, disk);
  write_all = λ disk path text. (ok tt, disk);
  is_dir = λ disk path. not (is_file path);
  read_dir = λ disk path. ok (map (λ name. ok (join path name)) (names path));
  File = FilePath;
  open_file = λ disk path. ok path;
  config_from_reader = λ path. ok "v1";
  debug_path = display;
  config_to_text = λ params. ok (record { id = PointId.uuid params; payload = 0 });
  open_db = λ disk path. (ok [], disk);
  Ring = List ShardId;
  ring_new = [];
  ring_add = λ nodes s. s ∷ nodes;
  ring_get = route;
  Uri = String;
  uri_eq = string_eq;
  parse_uri = λ text. ok text;
  show_uri = λ uri. uri;
  Net = ℕ;
  Channel = String;
  make_channel = λ calls uri. (ok uri, calls);
  call_get_points = λ calls channel request. (ok (record { points = [] }), calls + 1);
  call_upsert_points = λ calls channel request. (ok (record { message = "done" }), calls + 1);
  call_add_peer_to_known = λ calls channel request. (
    ok (record {
      all_peers = record { uri = "http://a"; id = 1 } ∷ record { uri = "http://b"; id = 2 } ∷ [];
      first_peer_id = 2;
    }),
    calls + 1,
  );
  arrange = λ groups. groups;
  arrange_paths = λ paths. paths;
}

pub demo_sled : SledLaws demo
demo_sled = record {
  get_inserted = λ db db' k j t e.
      let after : insert k t db ≡ db' = ground arith in
      rw (← after, lookup-insert k j t db)
        (elim (Bool-cases (k == j)) [ inl same ↦ rw same refl | inr other ↦ rw other refl ]);
  get_flushed = λ db db' j e. ground arith;
}

pub demo_ring : RingLaws demo
unfolding route assign
demo_ring = record {
  empty = λ p. refl;
  total = λ nodes s p gone. ground arith;
  moves = λ nodes s p. elim (Option-cases (route nodes p)) [
    | inl q ↦ inl (ground arith)
    | inr (t, q) ↦ elim (Bool-cases (takes s p)) [
      | inl mine ↦ inl (ground arith)
      | inr other ↦ inr (ground arith)
    ]
  ];
}

pub demo_order : OrderLaws demo
demo_order = record { lookup_arranged = λ m s. refl; arranged_unique = λ m h. h }

exists-insert :
    (disk : HashMap String (Unit {0})) (p q : FilePath)
    → exists (insert (display p) tt disk) q
      ≡ (if display p == display q then true else exists disk q)
unfolding exists contains_key
exists-insert disk p q = elim (Bool-cases (display p == display q)) [
  | inl same ↦ rw (exists, contains_key, lookup-insert (display p) (display q) tt disk, same)
  | inr other ↦ rw (exists, contains_key, lookup-insert (display p) (display q) tt disk, other)
]

exists-created :
    (disk : HashMap String (Unit {0})) (p : FilePath) → exists (insert (display p) tt disk) p ≡ true
exists-created disk p = rw (exists-insert disk p p, beq_refl (display p))

exists-kept :
    (disk : HashMap String (Unit {0})) (p q : FilePath)
    → exists disk q ≡ true
    → exists (insert (display p) tt disk) q ≡ true
exists-kept disk p q there = ground (arith, exists-insert disk p q)

exists-removed :
    (disk : HashMap String (Unit {0})) (p : FilePath) → exists (remove (display p) disk) p ≡ false
unfolding exists contains_key
exists-removed disk p =
    rw (exists, contains_key, lookup-remove (display p) (display p) disk, beq_refl (display p))

pub demo_disk : DiskLaws demo
demo_disk = record {
  created = λ disk path done. exists-created disk path;
  create_dir_keeps = exists-kept;
  create_file_keeps = λ disk p q there. there;
  write_keeps = λ disk p q text there. there;
  open_keeps = λ disk p q there. there;
  removed = λ disk path done. exists-removed disk path;
}

pub differ : (s t : String) → (s == t) ≡ false → s ≢ t
differ s t other e = let same = (string_eq.beq_iff s t).1 e in ground arith

pub demo_dirs : DirLaws demo
demo_dirs = record { create_dir_keeps = λ d p q h. h; open_keeps = λ d p q h. h }
