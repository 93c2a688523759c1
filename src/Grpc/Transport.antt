-- ===== src/Grpc/Transport.antt =====
-- What the generated clients and servers of api/grpc/p2p_grpc_schema.rs call: tonic, the codecs that
-- prost derives for the messages, and http.
use smoldb.Prelude.{
  ℕ, ◌≤◌, ◌≡◌, String, List, [], ◌∷◌, Option, none, some, Result, ok, err, All, lookup, string_eq,
  ◌==◌, format,
}
use text.Mathlib.Text.{starts_with}
use smoldb.Grpc.Schema.{
  RootApiRequest, RootApiReply, RaftMessage, PeerIdMessage, UriMessage, AddPeerToKnownMessage,
  AllPeers, GetPointsRequest, GetPointsResponse, UpsertPointsRequest, UpsertPointsResponse,
}
use smoldb.Grpc.Status.{Answer}

-- `prost::Message` of the messages `A`, over the bodies `B`
pub record Codec (B A : Type 0) : Type 0 where
  pub encode : A → B
  pub decode : B → Result String A
  pub encoded_len : A → ℕ

pub record HttpRequest (B : Type 0) : Type 0 where
  pub path : String
  pub body : B

pub record HttpResponse (B : Type 0) : Type 0 where
  pub headers : List (String × String)
  pub body : B

-- The answer of a server with the state `S`; `none` is a panic of a handler.
abbrev pub Exchange : Type 0 → Type 0 → Type 0
Exchange B S = HttpRequest B → S → Option (HttpResponse B × S)

-- `tonic::client::GrpcService`: what a client sends its requests to, with the state `S` of all that
-- is behind it
pub record GrpcService (B S : Type 0) : Type 0 where
  pub ready : S → Result String (Unit {0}) × S
  pub call : HttpRequest B → S → Result String (HttpResponse B) × S

-- `T` is the type of JSON texts, in which a payload is sent.
pub record Tonic (T : Type 0) : Type 1 where
  pub Body : Type 0
  pub empty_body : Body
  -- the headers of an answer without a handler
  pub grpc_status : String
  pub unimplemented_code : String
  pub content_type : String
  pub grpc_content_type : String
  -- `EnabledCompressionEncodings`
  pub Encoding : Type 0
  pub Encodings : Type 0
  pub no_encodings : Encodings
  pub enable : Encodings → Encoding → Encodings
  -- the limit on a message that is decoded, where none is set
  pub default_limit : ℕ
  -- `tonic::client::Grpc::unary` and `tonic::server::Grpc::unary`
  pub client_unary :
      {Q A S : Type 0}
      → GrpcService Body S
      → Codec Body Q
      → Codec Body A
      → String
      → Q
      → S
      → Answer A × S
  pub server_unary :
      {Q A S : Type 0}
      → Codec Body Q
      → Codec Body A
      → Encodings
      → Encodings
      → Option ℕ
      → Option ℕ
      → (Q → S → Option (Answer A × S))
      → Exchange Body S
  -- the router of the services that were added to a server under their names
  pub serve : {S : Type 0} → List (String × Exchange Body S) → Exchange Body S
  -- the codecs of the messages
  pub root_api_request : Codec Body RootApiRequest
  pub root_api_reply : Codec Body RootApiReply
  pub raft_message : Codec Body RaftMessage
  pub empty : Codec Body (Unit {0})
  pub peer_id : Codec Body PeerIdMessage
  pub uri : Codec Body UriMessage
  pub add_peer_to_known_message : Codec Body AddPeerToKnownMessage
  pub all_peers : Codec Body AllPeers
  pub get_points_request : Codec Body GetPointsRequest
  pub get_points_response : Codec Body (GetPointsResponse T)
  pub upsert_points_request : Codec Body (UpsertPointsRequest T)
  pub upsert_points_response : Codec Body UpsertPointsResponse

-- prost: what was encoded is decoded.
abbrev pub ReadsBack : {B A : Type 0} → Codec B A → Type 0
ReadsBack {A = A} c = (a : A) → c.decode (c.encode a) ≡ ok a

-- An answer with a message has one that fits; a status always does.
abbrev pub Fits : {B A : Type 0} → ℕ → Codec B A → Answer A → Type 0
Fits limit c (ok a) = c.encoded_len a ≤ limit
Fits limit c (err e) = Unit

-- Of the names, exactly this one is the service part of the path.
abbrev pub RoutesTo : {A : Type 0} → String → String → List (String × A) → Type 0
RoutesTo path name = All (λ r. starts_with path (format ("/" ∷ r.0 ∷ "/" ∷ [])) ≡ (r.0 == name))

-- tonic: a request goes to the service in its path, and a call over a connection that answers a path
-- by a method gives the answer of the method, with messages of a size below the limit, where no
-- encoding is enabled and no other limit is set.
pub record TonicLaws (T : Type 0) (tonic : Tonic T) : Type 1 where
  pub routed :
      {S : Type 0} (services : List (String × Exchange tonic.Body S)) (name : String)
      (service : Exchange tonic.Body S) (request : HttpRequest tonic.Body) (s : S)
      → RoutesTo request.path name services
      → lookup name services ≡ some service
      → tonic.serve services request s ≡ service request s
  pub unary :
      {Q A S : Type 0} (conn : GrpcService tonic.Body S) (q : Codec tonic.Body Q)
      (a : Codec tonic.Body A) (method : Q → S → Option (Answer A × S)) (path : String)
      (request : Q) (answer : Answer A) (s s' : S)
      → ReadsBack q
      → ReadsBack a
      → ((body : tonic.Body) (now : S) (response : HttpResponse tonic.Body) (after : S)
          → tonic.server_unary q a tonic.no_encodings tonic.no_encodings none none method
              (record { path = path; body = body })
              now
            ≡ some (response, after)
          → conn.call (record { path = path; body = body }) now ≡ (ok response, after))
      → q.encoded_len request ≤ tonic.default_limit
      → Fits tonic.default_limit a answer
      → method request s ≡ some (answer, s')
      → tonic.client_unary conn q a path request s ≡ (answer, s')
