-- ===== src/Grpc/Init/Calls.antt =====
-- A call of a generated client that reaches the services of a node.
use smoldb.Prelude.{
  ℕ, ◌≤◌, ◌≡◌, refl, ◌∙◌, String, List, none, some, Result, ok, arith, lookup, format, string_eq,
}
use smoldb.Grpc.Schema.{
  RootApiRequest, RootApiReply, RaftMessage, PeerIdMessage, UriMessage, AddPeerToKnownMessage,
  AllPeers, GetPointsRequest, GetPointsResponse, UpsertPointsRequest, UpsertPointsResponse,
}
use smoldb.Grpc.Status.{Answer}
use smoldb.Grpc.Transport.{
  Codec, HttpRequest, HttpResponse, Exchange, GrpcService, Tonic, TonicLaws, ReadsBack, Fits,
  RoutesTo,
}
use smoldb.Grpc.Clients
use smoldb.Grpc.Clients.{when_ready}
use smoldb.Grpc.Servers.{
  Handler, service_name, raft_name, points_internal_name, new, answer, call_service, call_raft,
  call_points_internal,
}
use smoldb.Grpc.Init.{Shared, simple_service, raft_service, points_service, services}
use smoldb.External.{Env}

-- The methods of the three services.
pub data Rpc : Type 0 where
  root_api send who_is add_peer_to_known get_points upsert_points : Rpc

when_ready_ok :
    {B S A : Type 0} (conn : GrpcService B S) (call : S → Answer A × S) (s : S)
    → conn.ready s ≡ (ok tt, s)
    → when_ready conn call s ≡ call s
unfolding when_ready
when_ready_ok conn call s r = ground arith

module _ (env : Env) {M : Type 0} (tonic : Tonic env.Text) (version : String)
    (decode : List ℕ → Result String M) where
  open env use {Text}
  open tonic use {Body}

  abbrev pub Request : Rpc → Type 0
  Request root_api = RootApiRequest
  Request send = RaftMessage
  Request who_is = PeerIdMessage
  Request add_peer_to_known = AddPeerToKnownMessage
  Request get_points = GetPointsRequest
  Request upsert_points = UpsertPointsRequest Text

  abbrev pub Reply : Rpc → Type 0
  Reply root_api = RootApiReply
  Reply send = Unit
  Reply who_is = UriMessage
  Reply add_peer_to_known = AllPeers
  Reply get_points = GetPointsResponse Text
  Reply upsert_points = UpsertPointsResponse

  abbrev pub request_codec : (m : Rpc) → Codec Body (Request m)
  request_codec root_api = tonic.root_api_request
  request_codec send = tonic.raft_message
  request_codec who_is = tonic.peer_id
  request_codec add_peer_to_known = tonic.add_peer_to_known_message
  request_codec get_points = tonic.get_points_request
  request_codec upsert_points = tonic.upsert_points_request

  abbrev pub reply_codec : (m : Rpc) → Codec Body (Reply m)
  reply_codec root_api = tonic.root_api_reply
  reply_codec send = tonic.empty
  reply_codec who_is = tonic.uri
  reply_codec add_peer_to_known = tonic.all_peers
  reply_codec get_points = tonic.get_points_response
  reply_codec upsert_points = tonic.upsert_points_response

  -- The method of a client.
  abbrev pub client :
      (m : Rpc)
      → GrpcService Body (Shared env M)
      → Request m
      → Shared env M
      → Answer (Reply m) × Shared env M
  client root_api = Clients.root_api tonic
  client send = Clients.send tonic
  client who_is = Clients.who_is tonic
  client add_peer_to_known = Clients.add_peer_to_known tonic
  client get_points = Clients.get_points tonic
  client upsert_points = Clients.upsert_points tonic

  -- What the node does for it.
  abbrev pub handler : (m : Rpc) → Handler (Shared env M) (Request m) (Reply m)
  handler root_api = (simple_service env version).root_api
  handler send = (raft_service env decode).send
  handler who_is = (raft_service env decode).who_is
  handler add_peer_to_known = (raft_service env decode).add_peer_to_known
  handler get_points = (points_service env).get_points
  handler upsert_points = (points_service env).upsert_points

  -- A connection to the server of the node, over which its answers arrive.
  abbrev pub ConnectsTo : GrpcService Body (Shared env M) → Type 0
  ConnectsTo conn =
      (request : HttpRequest Body) (s : Shared env M) (response : HttpResponse Body)
      (s' : Shared env M)
      → tonic.serve (services env tonic version decode) request s ≡ some (response, s')
      → conn.call request s ≡ (ok response, s')

  abbrev path_of : Rpc → String
  path_of root_api = "/p2p_grpc_schema.Service/RootApi"
  path_of send = "/p2p_grpc_schema.Raft/Send"
  path_of who_is = "/p2p_grpc_schema.Raft/WhoIs"
  path_of add_peer_to_known = "/p2p_grpc_schema.Raft/AddPeerToKnown"
  path_of get_points = "/p2p_grpc_schema.PointsInternal/GetPoints"
  path_of upsert_points = "/p2p_grpc_schema.PointsInternal/UpsertPoints"

  abbrev part_of : Rpc → String
  part_of root_api = service_name
  part_of get_points = points_internal_name
  part_of upsert_points = points_internal_name
  part_of m = raft_name

  abbrev server_of : Rpc → Exchange Body (Shared env M)
  server_of root_api = call_service tonic (new tonic (simple_service env version))
  server_of get_points = call_points_internal tonic (new tonic (points_service env))
  server_of upsert_points = call_points_internal tonic (new tonic (points_service env))
  server_of m = call_raft tonic (new tonic (raft_service env decode))

  path-RoutesTo : (m : Rpc) → RoutesTo (path_of m) (part_of m) (services env tonic version decode)
  unfolding services format
  path-RoutesTo root_api = (refl, (refl, (refl, tt)))
  path-RoutesTo send = (refl, (refl, (refl, tt)))
  path-RoutesTo who_is = (refl, (refl, (refl, tt)))
  path-RoutesTo add_peer_to_known = (refl, (refl, (refl, tt)))
  path-RoutesTo get_points = (refl, (refl, (refl, tt)))
  path-RoutesTo upsert_points = (refl, (refl, (refl, tt)))

  part-server :
      (m : Rpc) → lookup (part_of m) (services env tonic version decode) ≡ some (server_of m)
  unfolding services lookup
  part-server root_api = refl
  part-server send = refl
  part-server who_is = refl
  part-server add_peer_to_known = refl
  part-server get_points = refl
  part-server upsert_points = refl

  server-answer :
      (m : Rpc) (body : Body) (s : Shared env M)
      → server_of m (record { path = path_of m; body = body }) s
        ≡ tonic.server_unary
            (request_codec m)
            (reply_codec m)
            tonic.no_encodings
            tonic.no_encodings
            none
            none
            (handler m)
            (record { path = path_of m; body = body })
            s
  unfolding call_service call_raft call_points_internal answer new
  server-answer root_api body s = refl
  server-answer send body s = refl
  server-answer who_is body s = refl
  server-answer add_peer_to_known body s = refl
  server-answer get_points body s = refl
  server-answer upsert_points body s = refl

  client-path :
      (m : Rpc) (conn : GrpcService Body (Shared env M)) (request : Request m) (s : Shared env M)
      → conn.ready s ≡ (ok tt, s)
      → client m conn request s
        ≡ tonic.client_unary conn (request_codec m) (reply_codec m) (path_of m) request s
  unfolding Clients.root_api Clients.send Clients.who_is Clients.add_peer_to_known
      Clients.get_points Clients.upsert_points
  client-path root_api conn request s r = when_ready_ok conn _ s r
  client-path send conn request s r = when_ready_ok conn _ s r
  client-path who_is conn request s r = when_ready_ok conn _ s r
  client-path add_peer_to_known conn request s r = when_ready_ok conn _ s r
  client-path get_points conn request s r = when_ready_ok conn _ s r
  client-path upsert_points conn request s r = when_ready_ok conn _ s r

  -- A call of a client over a connection to a node, when the connection is ready: the client gets the
  -- answer of the service's method, and the node is left as the method leaves it. The method does not
  -- panic, the messages read back and are below tonic's limit, and tonic keeps its laws.
  pub client-handler :
      (laws : TonicLaws Text tonic) (m : Rpc) (conn : GrpcService Body (Shared env M))
      (request : Request m) (reply : Answer (Reply m)) (s s' : Shared env M)
      → ConnectsTo conn
      → conn.ready s ≡ (ok tt, s)
      → ReadsBack (request_codec m)
      → ReadsBack (reply_codec m)
      → (request_codec m).encoded_len request ≤ tonic.default_limit
      → Fits tonic.default_limit (reply_codec m) reply
      → handler m request s ≡ some (reply, s')
      → client m conn request s ≡ (reply, s')
  client-handler laws m conn request reply s s' connected ready q a small fits handled =
      client-path m conn request s ready
      ∙ laws.unary conn (request_codec m) (reply_codec m) (handler m) (path_of m) request reply s s'
          q a
          (λ body now response after e.
            connected (record { path = path_of m; body = body }) now response after
              (laws.routed (services env tonic version decode) (part_of m) (server_of m)
                  (record { path = path_of m; body = body }) now (path-RoutesTo m) (part-server m)
                ∙ server-answer m body now
                ∙ e))
          small fits handled
