-- ===== src/Grpc/Servers.antt =====
-- The servers that api/grpc/p2p_grpc_schema.rs holds: the traits `Service`, `Raft` and
-- `PointsInternal`, and the servers that answer a request by its path. `S` is the state that the
-- handlers share; `none` is a panic of a handler.
use smoldb.Prelude.{ℕ, String, [], ◌∷◌, Option, none, some, string_eq, ◌==◌, if◌then◌else◌}
use smoldb.Grpc.Schema.{
  RootApiRequest, RootApiReply, RaftMessage, PeerIdMessage, UriMessage, AddPeerToKnownMessage,
  AllPeers, GetPointsRequest, GetPointsResponse, UpsertPointsRequest, UpsertPointsResponse,
}
use smoldb.Grpc.Status.{Answer}
use smoldb.Grpc.Transport.{Tonic, HttpResponse, Exchange, Codec}

-- A method of a trait.
abbrev pub Handler : Type 0 → Type 0 → Type 0 → Type 0
Handler S Q A = Q → S → Option (Answer A × S)

-- the trait `Service`
pub record Service (S : Type 0) : Type 0 where
  pub root_api : Handler S RootApiRequest RootApiReply

-- the trait `Raft`
pub record Raft (S : Type 0) : Type 0 where
  pub send : Handler S RaftMessage (Unit {0})
  pub who_is : Handler S PeerIdMessage UriMessage
  pub add_peer_to_known : Handler S AddPeerToKnownMessage AllPeers

-- the trait `PointsInternal`
pub record PointsInternal (S T : Type 0) : Type 0 where
  pub get_points : Handler S GetPointsRequest (GetPointsResponse T)
  pub upsert_points : Handler S (UpsertPointsRequest T) UpsertPointsResponse

-- `ServiceServer`, `RaftServer` and `PointsInternalServer`, over the trait's implementation
pub record Server (I E : Type 0) : Type 0 where
  pub inner : I
  pub accept_compression_encodings : E
  pub send_compression_encodings : E
  pub max_decoding_message_size : Option ℕ
  pub max_encoding_message_size : Option ℕ

abbrev pub service_name : String
service_name = "p2p_grpc_schema.Service"

abbrev pub raft_name : String
raft_name = "p2p_grpc_schema.Raft"

abbrev pub points_internal_name : String
points_internal_name = "p2p_grpc_schema.PointsInternal"

module _ {T : Type 0} (tonic : Tonic T) where
  open tonic use {Body, Encodings, server_unary}

  -- `new`
  unfoldable pub new : {I : Type 0} → I → Server I Encodings
  new inner = record {
    inner = inner;
    accept_compression_encodings = tonic.no_encodings;
    send_compression_encodings = tonic.no_encodings;
    max_decoding_message_size = none;
    max_encoding_message_size = none;
  }

  -- `accept_compressed`
  unfoldable pub accept_compressed :
      {I : Type 0} → Server I Encodings → tonic.Encoding → Server I Encodings
  accept_compressed server encoding = record server {
    accept_compression_encodings = tonic.enable server.accept_compression_encodings encoding;
  }

  -- `send_compressed`
  unfoldable pub send_compressed :
      {I : Type 0} → Server I Encodings → tonic.Encoding → Server I Encodings
  send_compressed server encoding = record server {
    send_compression_encodings = tonic.enable server.send_compression_encodings encoding;
  }

  -- `max_decoding_message_size`
  unfoldable pub limit_decoding : {I : Type 0} → Server I Encodings → ℕ → Server I Encodings
  limit_decoding server limit = record server { max_decoding_message_size = some limit }

  -- `max_encoding_message_size`
  unfoldable pub limit_encoding : {I : Type 0} → Server I Encodings → ℕ → Server I Encodings
  limit_encoding server limit = record server { max_encoding_message_size = some limit }

  -- the answer to a path that no method has
  unfoldable pub unimplemented : HttpResponse Body
  unimplemented = record {
    headers =
        (tonic.grpc_status, tonic.unimplemented_code)
        ∷ (tonic.content_type, tonic.grpc_content_type)
        ∷ [];
    body = tonic.empty_body;
  }

  module _ {S : Type 0} where
    -- `tonic::server::Grpc::new(codec)` with the settings of a server, and its `unary`
    unfoldable pub answer :
        {I Q A : Type 0}
        → Server I Encodings
        → Codec Body Q
        → Codec Body A
        → Handler S Q A
        → Exchange Body S
    answer server q a =
        server_unary q a server.accept_compression_encodings server.send_compression_encodings
          server.max_decoding_message_size server.max_encoding_message_size

    -- `call` of `ServiceServer`
    unfoldable pub call_service : Server (Service S) Encodings → Exchange Body S
    call_service server request s =
        if request.path == "/p2p_grpc_schema.Service/RootApi"
        then answer server tonic.root_api_request tonic.root_api_reply server.inner.root_api request
            s
        else some (unimplemented, s)

    -- `call` of `RaftServer`
    unfoldable pub call_raft : Server (Raft S) Encodings → Exchange Body S
    call_raft server request s =
        if request.path == "/p2p_grpc_schema.Raft/Send"
        then answer server tonic.raft_message tonic.empty server.inner.send request s
        else if request.path == "/p2p_grpc_schema.Raft/WhoIs"
        then answer server tonic.peer_id tonic.uri server.inner.who_is request s
        else if request.path == "/p2p_grpc_schema.Raft/AddPeerToKnown"
        then answer server tonic.add_peer_to_known_message tonic.all_peers
            server.inner.add_peer_to_known request s
        else some (unimplemented, s)

    -- `call` of `PointsInternalServer`
    unfoldable pub call_points_internal : Server (PointsInternal S T) Encodings → Exchange Body S
    call_points_internal server request s =
        if request.path == "/p2p_grpc_schema.PointsInternal/GetPoints"
        then answer server tonic.get_points_request tonic.get_points_response
            server.inner.get_points request s
        else if request.path == "/p2p_grpc_schema.PointsInternal/UpsertPoints"
        then answer server tonic.upsert_points_request tonic.upsert_points_response
            server.inner.upsert_points request s
        else some (unimplemented, s)
