-- ===== src/Tests/Cluster.antt =====
-- Examples on the consensus thread, the known peers, the channels and the benchmark tool.
use smoldb.Prelude.{
  ℕ, ◌+◌, ◌-◌, ◌*◌, ◌%◌, ◌^◌, ◌≤◌, ◌<◌, ◌≡◌, ◌⊎◌, refl, sym, String, [], ◌∷◌, map, not, none, some,
  ok, arith, All, lookup, string_eq, nat_eq, nat_beq, leb, length, if◌then◌else◌,
}
use Prim.Native.String
use mathlib.Core.List.{flatten}
use smoldb.Decimal.{show, u64_limit, checked_mul}
use smoldb.Channels.{TransportChannelPool, get_or_create_channel}
use smoldb.Channels.Reuse.{get_or_create_channel_twice}
use smoldb.Storage.Point.{PointId, into_string}
use smoldb.Storage.Segment
use smoldb.Storage.Segment.{Segment, read_one}
use smoldb.Storage.Segment.Writes.{present}
use smoldb.Storage.Segment.Keys.{AreTwins, twin, into_string_lem, read_one-twin}
use smoldb.Consensus.State.{
  ConsensusState, dummy, draw_peer_id, insert_sorted, add_peer, add_to_toc, add_to_collections,
  add_received,
}
use smoldb.Consensus.Ready.{
  Raft, Trace, EntryType, handle_committed_entries, append_entries, send_messages, process_ready,
  on_ready, idle,
}
use smoldb.Consensus.Ready.Applied.{last_index, with_data, handle, handle_committed_entries_lem}
use smoldb.Consensus.Loop.{Receiver, pass_time, raft_tick_interval}
use smoldb.Consensus.Loop.Ticks.{IsClock, total, count_ticks, pass_time-IsClock, count_ticks-le}
use smoldb.Bench.Numbers.{parse_number, parse_number_impl, power}
use smoldb.Bench.Numbers.Bounds.{parse_number-show}
use smoldb.Bench.Batches.{batches, range}
use smoldb.Bench.Batches.Cover.{batches_cover}
use smoldb.Tests.Demo.{demo, demo_sled}
use smoldb.Tests.Shards.{program}

-- a node is the number of rounds that are left
abbrev pub count_down : Raft
count_down = record {
  Node = ℕ;
  Message = ℕ;
  Entry = ℕ;
  HardState = ℕ;
  Ready = ℕ;
  LightReady = ℕ;
  index = λ entry. entry;
  no_data = λ entry. nat_beq (entry % 2) 0;
  entry_type = λ entry. EntryType.entry_normal;
  tick = λ node. node + 1;
  step = λ node m. (ok tt, node);
  propose = λ node context proposal. (ok tt, node);
  has_ready = λ node. not (nat_beq node 0);
  ready = λ node. (node, node - 1);
  messages = λ r. r ∷ [];
  committed_entries = λ r. r ∷ [];
  entries = λ r. [];
  hs = λ r. none;
  persisted_messages = λ r. [];
  append = λ node entries. (ok tt, node);
  set_hardstate = λ node state. node;
  set_commit = λ node commit. node;
  advance = λ node r. (0, node);
  commit_index = λ light. none;
  light_messages = λ light. [];
  light_committed_entries = λ light. [];
  advance_apply = λ node. node;
}

rounds : Unit {0}
unfolding on_ready process_ready send_messages append_entries handle_committed_entries
rounds = tt

shown : Trace count_down
shown = elim (on_ready count_down 9 2 []) [ idle node trace ↦ trace | _ ↦ [] ]

handle_committed_entries_lem_example :
    ((handle_committed_entries count_down (3 ∷ 4 ∷ 5 ∷ 6 ∷ []) 0).0
      ≡ last_index count_down (3 ∷ 4 ∷ 5 ∷ 6 ∷ []) 0)
    × ((handle_committed_entries count_down (3 ∷ 4 ∷ 5 ∷ 6 ∷ []) 0).1
        ≡ map (handle count_down) (with_data count_down (3 ∷ 4 ∷ 5 ∷ 6 ∷ [])))
handle_committed_entries_lem_example =
    handle_committed_entries_lem count_down (3 ∷ 4 ∷ 5 ∷ 6 ∷ []) 0

abbrev receiver : Receiver ℕ
receiver = record { node = 0; timeout = 60_000_000; callbacks = [] }

receiver-IsClock : IsClock count_down receiver 40_000_000
receiver-IsClock = record { left = refl }

pass_time-IsClock_example :
    ((pass_time count_down receiver 70_000_000).1
      ≡ leb raft_tick_interval (40_000_000 + 70_000_000))
    × ((pass_time count_down receiver 70_000_000).0.node
        ≡ (if leb raft_tick_interval (40_000_000 + 70_000_000) then 1 else 0))
    × IsClock count_down
        (pass_time count_down receiver 70_000_000).0
        (if leb raft_tick_interval (40_000_000 + 70_000_000) then 0 else 40_000_000 + 70_000_000)
pass_time-IsClock_example =
    pass_time-IsClock count_down receiver 40_000_000 70_000_000 receiver-IsClock

count_ticks-le_example :
    count_ticks count_down receiver (70_000_000 ∷ 50_000_000 ∷ 60_000_000 ∷ []) * raft_tick_interval
    ≤ 40_000_000 + total count_down (70_000_000 ∷ 50_000_000 ∷ 60_000_000 ∷ [])
count_ticks-le_example =
    count_ticks-le count_down receiver 40_000_000 (70_000_000 ∷ 50_000_000 ∷ 60_000_000 ∷ [])
      receiver-IsClock

joins : Unit {0}
unfolding dummy draw_peer_id insert_sorted add_peer add_to_toc add_to_collections add_received
    lookup
joins = tt

abbrev alone : ConsensusState String
alone = record {
  persistent = record { peer_id = 102; peers = (102, "b") ∷ [] };
  peer_address_by_id = (102, "b") ∷ [];
}

batches_cover_example :
    (flatten (batches 10 4) ≡ range 0 10)
    × All (λ ids. length ids ≤ 4) (batches 10 4)
    × (length (batches 10 4) * 4 < 10 + 4)
batches_cover_example = batches_cover 10 4 (omega arith) (omega arith)

pool : TransportChannelPool String String
pool = record { uri_to_channel = ("http://a", "a") ∷ [] }

two_channels : TransportChannelPool String String
two_channels = (get_or_create_channel demo pool 0 "http://b").1

opened : get_or_create_channel demo pool 0 "http://b" ≡ (ok "http://b", two_channels, 0)
unfolding get_or_create_channel lookup two_channels pool
opened = refl

get_or_create_channel_twice_example :
    get_or_create_channel demo two_channels 5 "http://b" ≡ (ok "http://b", two_channels, 5)
get_or_create_channel_twice_example =
    get_or_create_channel_twice demo pool two_channels 0 0 "http://b" "http://b" 5 opened

into_string_lem_example :
    (PointId.id 7 ≡ PointId.uuid "7")
    ⊎ AreTwins (PointId.id 7) (PointId.uuid "7")
    ⊎ AreTwins (PointId.uuid "7") (PointId.id 7)
unfolding into_string show
into_string_lem_example = into_string_lem (PointId.id 7) (PointId.uuid "7") refl

after_twin : Segment demo.Db
after_twin = (Segment.insert_points demo (record { path = []; db = [] }) (twin demo 7 70 ∷ [])).1

after_twin_lem :
    Segment.insert_points demo (record { path = []; db = [] }) (twin demo 7 70 ∷ [])
    ≡ (ok tt, after_twin)
unfolding program after_twin
after_twin_lem = refl

read_one-twin_example : read_one demo after_twin.db (PointId.id 7) ≡ present demo (twin demo 7 70)
read_one-twin_example =
    read_one-twin demo demo_sled (record { path = []; db = [] }) after_twin 7 70 (λ t e. sym e)
      after_twin_lem

kilo : parse_number "12k" ≡ ok 12_000
unfolding parse_number
kilo = refl

parse_number-show_example :
    (parse_number_impl (show 12) ≡ some 12)
    × (parse_number_impl (String.◌++◌ (show 12) "k") ≡ checked_mul u64_limit 12 (1000 ^ 1))
    × (parse_number_impl (String.◌++◌ (show 12) "kib") ≡ checked_mul u64_limit 12 (1024 ^ 1))
unfolding power
parse_number-show_example = parse_number-show 12 1 "k" "b" (omega arith) refl
