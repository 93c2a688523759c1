-- ===== src/Grpc/Init.antt =====
-- `init` of api/grpc/mod.rs: the three services of a node, over the state that they share.
pub mod Calls
use smoldb.Prelude.{ℕ, String, List, [], ◌∷◌, Option, none, some, ◌>>=◌, Result, ok}
use smoldb.Storage.Toc.{Toc}
use smoldb.Consensus.State.{ConsensusState}
use smoldb.Grpc.Schema.{RaftMessage}
use smoldb.Grpc.Transport.{Tonic, Exchange}
use smoldb.Grpc.Servers.{
  Service, Raft, PointsInternal, service_name, raft_name, points_internal_name, new, call_service,
  call_raft, call_points_internal,
}
use smoldb.Grpc.RaftService
use smoldb.Grpc.PointsService
use smoldb.Api.Service.{root_api as service_root_api}
use smoldb.External.{Env}

module _ (env : Env) where
  open env use {Uri, Text, Net}

  -- What the services of a node share: the queue to the consensus thread, the table and the
  -- consensus state, and the peers that they reach. `M` is the type of the raft crate's messages.
  pub record Shared (M : Type 0) : Type 0 where
    pub sender : Option (List M)
    pub toc : Toc env
    pub consensus_state : Option (ConsensusState Uri)
    pub net : Net

  -- `SimpleService`; the version is the one of the build
  unfoldable pub simple_service : {M : Type 0} → String → Service (Shared M)
  simple_service version = record {
    root_api = λ request s. some (ok (service_root_api version), s);
  }

  module _ {M : Type 0} (decode : List ℕ → Result String M) where
    -- `RaftService`
    unfoldable pub raft_service : Raft (Shared M)
    raft_service = record {
      send = λ request s.
          let (answer, sender) = RaftService.send decode request s.sender in
          some (answer, record s { sender = sender });
      who_is = λ request s. some (ok (RaftService.who_is request.id), s);
      add_peer_to_known = λ request s. do
        (answer, state, toc) ← RaftService.add_peer_to_known env s.consensus_state s.toc request
        some (answer, record s { consensus_state = state; toc = toc });
    }

  -- `PointsInternalService`
  unfoldable pub points_service : {M : Type 0} → PointsInternal (Shared M) Text
  points_service = record {
    get_points = λ request s. do
      (answer, net) ← PointsService.get_points env s.toc request s.net
      some (answer, record s { net = net });
    upsert_points = λ request s. do
      (answer, toc, net) ← PointsService.upsert_points env s.toc request s.net
      some (answer, record s { toc = toc; net = net });
  }

  -- the services that `init` adds to the server
  unfoldable pub services :
      {M : Type 0} (tonic : Tonic Text)
      → String
      → (List ℕ → Result String M)
      → List (String × Exchange tonic.Body (Shared M))
  services tonic version decode =
      (service_name, call_service tonic (new tonic (simple_service version)))
      ∷ (raft_name, call_raft tonic (new tonic (raft_service decode)))
      ∷ (points_internal_name, call_points_internal tonic (new tonic points_service))
      ∷ []
