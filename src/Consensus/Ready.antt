-- ===== src/Consensus/Ready.antt =====
-- `on_ready`, `send_messages` and `handle_committed_entries` of consensus.rs, against the raft
-- crate. What the program prints is kept as a trace.
pub mod Applied
pub mod Ending
pub mod Runs
pub mod Handed
use smoldb.Prelude.{
  ℕ, zero, suc, String, List, [], ◌∷◌, ◌++◌, map, Bool, true, false, Option, none, some, ◌>>=◌,
  Result, ok, err,
}

-- `raft::prelude::EntryType`
pub data EntryType : Type 0 where
  entry_normal entry_conf_change entry_conf_change_v2 : EntryType

-- The raft crate: a node with its storage, and what `ready` and `advance` hand out.
pub record Raft : Type 1 where
  pub Node : Type 0
  pub Message : Type 0
  pub Entry : Type 0
  pub HardState : Type 0
  pub Ready : Type 0
  pub LightReady : Type 0
  pub index : Entry → ℕ
  pub no_data : Entry → Bool
  pub entry_type : Entry → EntryType
  pub tick : Node → Node
  pub step : Node → Message → Result String (Unit {0}) × Node
  pub propose : Node → List ℕ → List ℕ → Result String (Unit {0}) × Node
  pub has_ready : Node → Bool
  pub ready : Node → Ready × Node
  pub messages : Ready → List Message
  pub committed_entries : Ready → List Entry
  pub entries : Ready → List Entry
  pub hs : Ready → Option HardState
  pub persisted_messages : Ready → List Message
  pub append : Node → List Entry → Result String (Unit {0}) × Node
  pub set_hardstate : Node → HardState → Node
  pub set_commit : Node → ℕ → Node
  pub advance : Node → Ready → LightReady × Node
  pub commit_index : LightReady → Option ℕ
  pub light_messages : LightReady → List Message
  pub light_committed_entries : LightReady → List Entry
  pub advance_apply : Node → Node

-- What one round shows: a message that is sent, an entry that is handled, the entries that are
-- appended to the log.
pub data Event (M E : Type 0) : Type 0 where
  sent : M → Event M E
  handled : EntryType → E → Event M E
  appended : List E → Event M E

module _ (raft : Raft) where
  open raft use {
    Node, Message, Entry, HardState, Ready, LightReady, index, no_data, entry_type, has_ready,
    ready, messages, committed_entries, entries, hs, persisted_messages, append, set_hardstate,
    set_commit, advance, commit_index, light_messages, light_committed_entries, advance_apply,
  }

  abbrev pub Trace : Type 0
  Trace = List (Event Message Entry)

  -- `send_messages`
  unfoldable pub send_messages : List Message → Trace
  send_messages = map sent

  -- `handle_committed_entries`: the new `last_apply_index`, and the entries that are handled
  unfoldable pub handle_committed_entries : List Entry → ℕ → ℕ × Trace
  handle_committed_entries [] last_apply_index = (last_apply_index, [])
  handle_committed_entries (entry ∷ rest) last_apply_index =
      let (last, trace) = handle_committed_entries rest (index entry) in
      elim (no_data entry) [
        | true ↦ (last, trace)
        | false ↦ (last, handled (entry_type entry) entry ∷ trace)
      ]

  -- `if !entries.is_empty() { store.append(entries).unwrap() }`; `none` is a panic
  unfoldable pub append_entries : List Entry → Node → Option (Node × Trace)
  append_entries [] node = some (node, [])
  append_entries (entry ∷ rest) node =
      let (done, node') = append node (entry ∷ rest) in
      elim done [ err e ↦ none | ok _ ↦ some (node', appended (entry ∷ rest) ∷ []) ]

  abbrev pub save_hard_state : Option HardState → Node → Node
  save_hard_state none node = node
  save_hard_state (some state) node = set_hardstate node state

  abbrev pub save_commit : Option ℕ → Node → Node
  save_commit none node = node
  save_commit (some commit) node = set_commit node commit

  -- one round of the loop of `on_ready`
  unfoldable pub process_ready : Node → Option (Node × Trace)
  process_ready node =
      let (r, node0) = ready node in
      let (last, first) = handle_committed_entries (committed_entries r) 0 in
      do
        (node1, log) ← append_entries (entries r) node0
        let (light, node2) = advance (save_hard_state (hs r) node1) r
        let (last', second) = handle_committed_entries (light_committed_entries light) last
        some (
          advance_apply (save_commit (commit_index light) node2),
          send_messages (messages r)
              ++ (first
                  ++ (log
                      ++ (send_messages (persisted_messages r)
                          ++ (send_messages (light_messages light) ++ second)))),
        )

  -- What became of the rounds.
  pub data Rounds : Type 0 where
    idle : Node → Trace → Rounds
    panicked : Rounds
    out_of_fuel : Rounds

  -- `on_ready`: rounds until the node has nothing ready
  unfoldable pub on_ready : ℕ → Node → Trace → Rounds
  on_ready zero node trace = out_of_fuel
  on_ready (suc fuel) node trace = elim (has_ready node) [
    | false ↦ idle node trace
    | true ↦ elim (process_ready node) [
      | none ↦ panicked
      | some (node', more) ↦ on_ready fuel node' (trace ++ more)
    ]
  ]
