-- ===== src/Api/Cluster.antt =====
-- api/cluster.rs, and the `Dispatcher` of api/collection.rs. The queue to the consensus thread is
-- `none` once its receiver is gone; a send to it panics.
use smoldb.Prelude.{String, List, [], ◌∷◌, ◌++◌, Option, none, some, ok, err}
use smoldb.Storage.Error.{CollectionError}
use smoldb.Storage.Toc.{Toc}
use smoldb.Consensus.State.{Persistent, ConsensusState}
use smoldb.Consensus.Loop.{ConsensusOperation, Msg, propose}
use smoldb.Api.Helpers.{HttpResponse, time}
use smoldb.External.{Env}

module _ (env : Env) where
  open env use {Uri}

  pub record Dispatcher : Type 0 where
    pub toc : Toc env
    pub consensus_state : Option (ConsensusState Uri)

  unfoldable pub get_cluster_info : Dispatcher → Option Persistent
  get_cluster_info dispatcher = elim dispatcher.consensus_state [
    | some state ↦ some state.persistent
    | none ↦ none
  ]

  unfoldable pub get_cluster : Dispatcher → HttpResponse Persistent
  get_cluster dispatcher = elim (get_cluster_info dispatcher) [
    | some info ↦ time (ok info)
    | none ↦ time (err (CollectionError.service_error "Cluster info is not available"))
  ]

pub record ConsensusAppData (M : Type 0) : Type 0 where
  pub sender : Option (List (Msg M))

-- the JSON that `add_peer` answers with
pub record Submitted : Type 0 where
  pub status : String
  pub message : String

module _ {M : Type 0} where
  -- `submit_consensus_op`; the callback, which only prints, has the name 0
  unfoldable pub submit_consensus_op :
      ConsensusAppData M → ConsensusOperation → Option (ConsensusAppData M)
  submit_consensus_op consensus operation = elim consensus.sender [
    | none ↦ none
    | some messages ↦ some (record { sender = some (messages ++ propose 100 operation 0 ∷ []) })
  ]

  unfoldable pub add_peer :
      ConsensusAppData M → Option (HttpResponse Submitted × ConsensusAppData M)
  add_peer consensus =
      elim (submit_consensus_op consensus (ConsensusOperation.add_peer 123 "http://example.com")) [
        | none ↦ none
        | some consensus' ↦ some (
          time (ok (record { status = "success"; message = "Peer addition operation submitted" })),
          consensus',
        )
      ]
