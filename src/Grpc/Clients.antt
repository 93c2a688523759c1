-- ===== src/Grpc/Clients.antt =====
-- The clients that api/grpc/p2p_grpc_schema.rs holds: `ServiceClient`, `RaftClient` and
-- `PointsInternalClient`. The name of the method is attached to the request for interceptors only,
-- and there are none.
use smoldb.Prelude.{[], ◌∷◌, ok, err, format}
use smoldb.Grpc.Schema.{
  RootApiRequest, RootApiReply, RaftMessage, PeerIdMessage, UriMessage, AddPeerToKnownMessage,
  AllPeers, GetPointsRequest, GetPointsResponse, UpsertPointsRequest, UpsertPointsResponse,
}
use smoldb.Grpc.Status.{Answer, unknown}
use smoldb.Grpc.Transport.{Tonic, GrpcService}

-- `inner.ready()`, before every call
unfoldable pub when_ready :
    {B S A : Type 0} → GrpcService B S → (S → Answer A × S) → S → Answer A × S
when_ready inner call s =
    let (is_ready, s') = inner.ready s in
    elim is_ready [
      | err e ↦ (err (unknown (format ("Service was not ready: " ∷ e ∷ []))), s')
      | ok _ ↦ call s'
    ]

module _ {T S : Type 0} (tonic : Tonic T) where
  open tonic use {Body, client_unary}

  unfoldable pub root_api : GrpcService Body S → RootApiRequest → S → Answer RootApiReply × S
  root_api inner request = when_ready inner (
      client_unary inner tonic.root_api_request tonic.root_api_reply
        "/p2p_grpc_schema.Service/RootApi" request)

  unfoldable pub send : GrpcService Body S → RaftMessage → S → Answer (Unit {0}) × S
  send inner request =
      when_ready inner
        (client_unary inner tonic.raft_message tonic.empty "/p2p_grpc_schema.Raft/Send" request)

  unfoldable pub who_is : GrpcService Body S → PeerIdMessage → S → Answer UriMessage × S
  who_is inner request =
      when_ready inner
        (client_unary inner tonic.peer_id tonic.uri "/p2p_grpc_schema.Raft/WhoIs" request)

  unfoldable pub add_peer_to_known :
      GrpcService Body S → AddPeerToKnownMessage → S → Answer AllPeers × S
  add_peer_to_known inner request = when_ready inner (
      client_unary inner tonic.add_peer_to_known_message tonic.all_peers
        "/p2p_grpc_schema.Raft/AddPeerToKnown" request)

  unfoldable pub get_points :
      GrpcService Body S → GetPointsRequest → S → Answer (GetPointsResponse T) × S
  get_points inner request = when_ready inner (
      client_unary inner tonic.get_points_request tonic.get_points_response
        "/p2p_grpc_schema.PointsInternal/GetPoints" request)

  unfoldable pub upsert_points :
      GrpcService Body S → UpsertPointsRequest T → S → Answer UpsertPointsResponse × S
  upsert_points inner request = when_ready inner (
      client_unary inner tonic.upsert_points_request tonic.upsert_points_response
        "/p2p_grpc_schema.PointsInternal/UpsertPoints" request)
