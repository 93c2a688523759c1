-- ===== src/Consensus/Loop.antt =====
-- The two loops of consensus.rs over the messages of the consensus thread. What `recv_timeout`
-- returns is given as a list; times are in nanoseconds.
pub mod Ticks
pub mod Whole
use smoldb.Prelude.{
  ℕ, zero, suc, ◌+◌, ◌-◌, String, List, [], ◌∷◌, ◌++◌, Bool, true, false, Option, none, some,
  Result, ok, err, HashMap, insert, nat_eq, leb, if◌then◌else◌,
}
use smoldb.Types.{PeerId}
use smoldb.Consensus.Ready.{Raft, Trace, Rounds, on_ready, idle}

abbrev pub raft_tick_interval : ℕ
raft_tick_interval = 100_000_000

pub data ConsensusOperation : Type 0 where
  add_peer : PeerId → String → ConsensusOperation
  update_data : ℕ → ConsensusOperation

-- A proposal's callback is a name of its code; the program never calls it.
pub data Msg (M : Type 0) : Type 0 where
  propose : ℕ → ConsensusOperation → ℕ → Msg M
  raft : M → Msg M

-- `Result<Msg, RecvTimeoutError>`
pub data Received (M : Type 0) : Type 0 where
  message : Msg M → Received M
  timeout : Received M
  disconnected : Received M

-- Where a loop stands after the messages: it still runs, or it has returned or panicked.
pub data LoopState (S : Type 0) : Type 0 where
  running : S → LoopState S
  returned : Result String (Unit {0}) → LoopState S
  panicked : LoopState S
  out_of_fuel : LoopState S

-- The state of `run_consensus_receiver_loop`.
pub record Receiver (N : Type 0) : Type 0 where
  pub node : N
  pub timeout : ℕ
  pub callbacks : HashMap ℕ ℕ

module _ (r : Raft) where
  open r use {Node, Message}

  -- one round of `run_loop`
  unfoldable pub run_step : Node → Received Message → LoopState Node
  run_step node (message (propose id operation callback)) = running node
  run_step node (message (raft m)) =
      let (done, node') = r.step node m in
      elim done [ err e ↦ returned (err e) | ok _ ↦ running node' ]
  run_step node timeout = running (r.tick node)
  run_step node disconnected = returned (ok tt)

  -- `run_loop`
  unfoldable pub run_loop : Node → List (Received Message) → LoopState Node
  run_loop node [] = running node
  run_loop node (event ∷ events) = elim (run_step node event) [
    | running node' ↦ run_loop node' events
    | returned result ↦ returned result
    | panicked ↦ panicked
    | out_of_fuel ↦ out_of_fuel
  ]

  -- the `match` of `run_consensus_receiver_loop`
  unfoldable pub receive : Receiver Node → Received Message → LoopState (Receiver Node)
  receive s (message (propose id operation callback)) =
      let (done, node') = r.propose s.node [] (id ∷ []) in
      elim done [
        | err e ↦ panicked
        | ok _ ↦ running (record s { node = node'; callbacks = insert id callback s.callbacks })
      ]
  receive s (message (raft m)) =
      let (done, node') = r.step s.node m in
      elim done [ err e ↦ panicked | ok _ ↦ running (record s { node = node' }) ]
  receive s timeout = running s
  receive s disconnected = returned (ok tt)

  -- the part after the `match`, `d` after the last round; the second part of the result tells whether
  -- raft was ticked
  unfoldable pub pass_time : Receiver Node → ℕ → Receiver Node × Bool
  pass_time s d =
      if leb s.timeout d
      then (record s { node = r.tick s.node; timeout = raft_tick_interval }, true)
      else (record s { timeout = s.timeout - d }, false)

  -- `run_consensus_receiver_loop`: what was received, and the time that the round took; `fuel` bounds
  -- the rounds of each `on_ready`
  unfoldable pub receiver_loop :
      ℕ
      → Receiver Node
      → Trace r
      → List (Received Message × ℕ)
      → LoopState (Receiver Node × Trace r)
  receiver_loop fuel s trace [] = running (s, trace)
  receiver_loop fuel s trace ((event, d) ∷ events) = elim (receive s event) [
    | returned result ↦ returned result
    | panicked ↦ panicked
    | out_of_fuel ↦ out_of_fuel
    | running s' ↦
        let (s'', ticked) = pass_time s' d in
        elim (on_ready r fuel s''.node trace) [
          | idle node trace' ↦ receiver_loop fuel (record s'' { node = node }) trace' events
          | Rounds.panicked ↦ panicked
          | Rounds.out_of_fuel ↦ out_of_fuel
        ]
  ]
