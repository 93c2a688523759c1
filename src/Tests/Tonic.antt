-- ===== src/Tests/Tonic.antt =====
-- A small tonic for the examples: a body is a message, and a status is a header.
use text.Mathlib.Text.{starts_with}
use smoldb.Prelude.{
  ℕ, ◌+◌, ◌≡◌, refl, inl, inr, String, List, [], ◌∷◌, Option, some, ◌>>=◌, ok, err, map_err, arith,
  lookup, string_eq, ◌==◌, Bool-cases, if◌then◌else◌, format,
}
use smoldb.Grpc.Schema.{
  RootApiRequest, RootApiReply, RaftMessage, PeerIdMessage, UriMessage, AddPeerToKnownMessage,
  AllPeers, GetPointsRequest, GetPointsResponse, UpsertPointsRequest, UpsertPointsResponse,
}
use smoldb.Grpc.Status.{Status, Answer, internal, not_found, unknown}
use smoldb.Grpc.Transport.{
  Codec, HttpRequest, HttpResponse, Exchange, GrpcService, Tonic, TonicLaws, ReadsBack, RoutesTo,
}
use smoldb.Tests.Demo.{demo}

pub data Body : Type 0 where
  nothing : Body
  root_request : RootApiRequest → Body
  root_reply : RootApiReply → Body
  raft : RaftMessage → Body
  done : (Unit {0}) → Body
  peer : PeerIdMessage → Body
  address : UriMessage → Body
  add_peer : AddPeerToKnownMessage → Body
  peers : AllPeers → Body
  get_request : GetPointsRequest → Body
  found : GetPointsResponse demo.Text → Body
  upsert_request : UpsertPointsRequest demo.Text → Body
  upserted : UpsertPointsResponse → Body

abbrev pub root_request_codec : Codec Body RootApiRequest
root_request_codec = record {
  encode = root_request;
  decode = λ body. elim body [ root_request a ↦ ok a | _ ↦ err "another message" ];
  encoded_len = λ a. 64;
}

abbrev pub root_reply_codec : Codec Body RootApiReply
root_reply_codec = record {
  encode = root_reply;
  decode = λ body. elim body [ root_reply a ↦ ok a | _ ↦ err "another message" ];
  encoded_len = λ a. 64;
}

abbrev pub raft_codec : Codec Body RaftMessage
raft_codec = record {
  encode = raft;
  decode = λ body. elim body [ raft a ↦ ok a | _ ↦ err "another message" ];
  encoded_len = λ a. 64;
}

abbrev pub done_codec : Codec Body (Unit {0})
done_codec = record {
  encode = done;
  decode = λ body. elim body [ done a ↦ ok a | _ ↦ err "another message" ];
  encoded_len = λ a. 64;
}

abbrev pub peer_codec : Codec Body PeerIdMessage
peer_codec = record {
  encode = peer;
  decode = λ body. elim body [ peer a ↦ ok a | _ ↦ err "another message" ];
  encoded_len = λ a. 64;
}

abbrev pub address_codec : Codec Body UriMessage
address_codec = record {
  encode = address;
  decode = λ body. elim body [ address a ↦ ok a | _ ↦ err "another message" ];
  encoded_len = λ a. 64;
}

abbrev pub add_peer_codec : Codec Body AddPeerToKnownMessage
add_peer_codec = record {
  encode = add_peer;
  decode = λ body. elim body [ add_peer a ↦ ok a | _ ↦ err "another message" ];
  encoded_len = λ a. 64;
}

abbrev pub peers_codec : Codec Body AllPeers
peers_codec = record {
  encode = peers;
  decode = λ body. elim body [ peers a ↦ ok a | _ ↦ err "another message" ];
  encoded_len = λ a. 64;
}

abbrev pub get_request_codec : Codec Body GetPointsRequest
get_request_codec = record {
  encode = get_request;
  decode = λ body. elim body [ get_request a ↦ ok a | _ ↦ err "another message" ];
  encoded_len = λ a. 64;
}

abbrev pub found_codec : Codec Body (GetPointsResponse demo.Text)
found_codec = record {
  encode = found;
  decode = λ body. elim body [ found a ↦ ok a | _ ↦ err "another message" ];
  encoded_len = λ a. 64;
}

abbrev pub upsert_request_codec : Codec Body (UpsertPointsRequest demo.Text)
upsert_request_codec = record {
  encode = upsert_request;
  decode = λ body. elim body [ upsert_request a ↦ ok a | _ ↦ err "another message" ];
  encoded_len = λ a. 64;
}

abbrev pub upserted_codec : Codec Body UpsertPointsResponse
upserted_codec = record {
  encode = upserted;
  decode = λ body. elim body [ upserted a ↦ ok a | _ ↦ err "another message" ];
  encoded_len = λ a. 64;
}

abbrev pub to_response : {A : Type 0} → Codec Body A → Answer A → HttpResponse Body
to_response c (ok a) = record { headers = []; body = c.encode a }
to_response c (err (internal e)) = record { headers = ("internal", e) ∷ []; body = nothing }
to_response c (err (not_found e)) = record { headers = ("not_found", e) ∷ []; body = nothing }
to_response c (err (unknown e)) = record { headers = ("unknown", e) ∷ []; body = nothing }

abbrev pub status_of : String → String → Status
status_of code e =
    if code == "internal"
    then internal e
    else if code == "not_found"
    then not_found e
    else unknown e

abbrev pub from_response : {A : Type 0} → Codec Body A → HttpResponse Body → Answer A
from_response c response = elim response.headers [
  | [] ↦ map_err unknown (c.decode response.body)
  | (code, e) ∷ _ ↦ err (status_of code e)
]

to_response-read :
    {A : Type 0} (c : Codec Body A) (answer : Answer A)
    → ReadsBack c
    → from_response c (to_response c answer) ≡ answer
to_response-read c (ok a) r = rw (r a) refl
to_response-read c (err (internal e)) r = refl
to_response-read c (err (not_found e)) r = refl
to_response-read c (err (unknown e)) r = refl

-- The first service whose name the path has.
unfoldable pub serve_first : {S : Type 0} → List (String × Exchange Body S) → Exchange Body S
serve_first [] sent s = some (record { headers = []; body = nothing }, s)
serve_first ((name, service) ∷ services) sent s =
    if starts_with sent.path (format ("/" ∷ name ∷ "/" ∷ []))
    then service sent s
    else serve_first services sent s

serve_first-routed :
    {S : Type 0} (services : List (String × Exchange Body S)) (name : String)
    (service : Exchange Body S) (sent : HttpRequest Body) (s : S)
    → RoutesTo sent.path name services
    → lookup name services ≡ some service
    → serve_first services sent s ≡ service sent s
unfolding serve_first lookup
serve_first-routed [] name service sent s routes e = absurd (ground arith)
serve_first-routed ((other, first) ∷ services) name service sent s routes e =
    elim (Bool-cases (other == name)) [
      | inl same ↦ ground (arith, routes.0)
      | inr apart ↦
          ground (arith, routes.0, serve_first-routed services name service sent s routes.1)
    ]

abbrev pub serve_unary :
    {Q A S : Type 0}
    → Codec Body Q
    → Codec Body A
    → (Q → S → Option (Answer A × S))
    → Exchange Body S
serve_unary q a method sent s = elim (q.decode sent.body) [
  | err e ↦ some (to_response a (err (internal e)), s)
  | ok x ↦ (do (answer, s') ← method x s; some (to_response a answer, s'))
]

abbrev pub call_unary :
    {Q A S : Type 0}
    → GrpcService Body S
    → Codec Body Q
    → Codec Body A
    → String
    → Q
    → S
    → Answer A × S
call_unary conn q a path x s =
    let (response, s') = conn.call (record { path = path; body = q.encode x }) s in
    elim response [ err e ↦ (err (unknown e), s') | ok r ↦ (from_response a r, s') ]

abbrev pub demo_tonic : Tonic demo.Text
demo_tonic = record {
  Body = Body;
  empty_body = nothing;
  grpc_status = "grpc-status";
  unimplemented_code = "12";
  content_type = "content-type";
  grpc_content_type = "application/grpc";
  Encoding = Unit;
  Encodings = ℕ;
  no_encodings = 0;
  enable = λ encodings encoding. encodings + 1;
  default_limit = 4194304;
  client_unary = call_unary;
  server_unary = λ q a accepted sent decoded encoded method. serve_unary q a method;
  serve = serve_first;
  root_api_request = root_request_codec;
  root_api_reply = root_reply_codec;
  raft_message = raft_codec;
  empty = done_codec;
  peer_id = peer_codec;
  uri = address_codec;
  add_peer_to_known_message = add_peer_codec;
  all_peers = peers_codec;
  get_points_request = get_request_codec;
  get_points_response = found_codec;
  upsert_points_request = upsert_request_codec;
  upsert_points_response = upserted_codec;
}

serve_unary-answers :
    {Q A S : Type 0} (q : Codec Body Q) (a : Codec Body A) (method : Q → S → Option (Answer A × S))
    (path : String) (x : Q) (answer : Answer A) (s s' : S)
    → ReadsBack q
    → method x s ≡ some (answer, s')
    → serve_unary q a method (record { path = path; body = q.encode x }) s
      ≡ some (to_response a answer, s')
serve_unary-answers q a method path x answer s s' reads handled = ground (arith, reads x)

call_unary-reads :
    {Q A S : Type 0} (conn : GrpcService Body S) (q : Codec Body Q) (a : Codec Body A)
    (path : String) (x : Q) (answer : Answer A) (s s' : S)
    → ReadsBack a
    → conn.call (record { path = path; body = q.encode x }) s ≡ (ok (to_response a answer), s')
    → call_unary conn q a path x s ≡ (answer, s')
call_unary-reads conn q a path x answer s s' reads called =
    ground (arith, to_response-read a answer reads)

pub demo_laws : TonicLaws demo.Text demo_tonic
demo_laws = record {
  routed = λ services name service sent s routes e.
      serve_first-routed services name service sent s routes e;
  unary = λ conn q a method path x answer s s' qs as_read connected small fits handled.
      call_unary-reads conn q a path x answer s s' as_read (
        connected (q.encode x) s (to_response a answer) s'
          (serve_unary-answers q a method path x answer s s' qs handled));
}
