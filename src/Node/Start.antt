-- ===== src/Node/Start.antt =====
-- The state that a node starts with: the arguments of args.rs, the part of `main` in main.rs before
-- the servers run, and what the thread of `Consensus::start` in consensus.rs does before its loop.
use smoldb.Prelude.{ℕ, [], Option, none, some, ◌>>=◌, ok, err}
use smoldb.Types.{PeerId}
use smoldb.Channels.{new_service}
use smoldb.Storage.Toc.{Toc}
use smoldb.Storage.Recovery.{load}
use smoldb.Consensus.State.{ConsensusState, dummy}
use smoldb.Consensus.Bootstrap.{bootstrap}
use smoldb.Api.Cluster.{Dispatcher, ConsensusAppData}
use smoldb.External.{Env}

-- the command line
pub record Args (U : Type 0) : Type 0 where
  pub bootstrap : Option U
  pub url : U
  pub p2p_url : U
  pub peer_id : Option PeerId

module _ (env : Env) where
  open env use {Uri, Net, Disk}

  -- What the servers share: the table and the consensus state. The queue to the consensus thread is
  -- empty.
  pub record Shared (M : Type 0) : Type 0 where
    pub dispatcher : Dispatcher env
    pub consensus : ConsensusAppData M

  -- `main` up to the servers; `drawn` is the random number that serves if no peer id is given
  unfoldable pub start : {M : Type 0} → Args Uri → ℕ → Disk → Option (Shared M × Disk)
  start args drawn disk = do
    let state = dummy env args.p2p_url args.peer_id drawn
    (toc, disk') ← load env (new_service state.peer_address_by_id) disk
    some (
      record {
        dispatcher = record { toc = toc; consensus_state = some state };
        consensus = record { sender = some [] };
      },
      disk',
    )

  -- The consensus thread before its loop: `none` is a panic of the thread, which ends it and leaves
  -- the servers running.
  unfoldable pub join_cluster :
      Option Uri → ConsensusState Uri → Toc env → Net → Option (ConsensusState Uri × Toc env × Net)
  join_cluster none state toc net = some (state, toc, net)
  join_cluster (some bootstrap_uri) state toc net =
      let (joined, state', toc', net') = bootstrap env bootstrap_uri state toc net in
      elim joined [ err e ↦ none | ok _ ↦ some (state', toc', net') ]
