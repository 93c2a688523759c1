-- ===== src/Grpc/Schema.antt =====
-- The messages of api/grpc/p2p_grpc_schema.rs. `T` is the type of JSON texts, in which a payload
-- is sent.
use smoldb.Prelude.{ℕ, String, List, Bool, Option}

abbrev pub RootApiRequest : Type 0
RootApiRequest = Unit

pub record RootApiReply : Type 0 where
  pub title : String
  pub version : String

pub record RaftMessage : Type 0 where
  pub message : List ℕ

pub record Peer : Type 0 where
  pub uri : String
  pub id : ℕ

pub record AllPeers : Type 0 where
  pub all_peers : List Peer
  pub first_peer_id : ℕ

pub record AddPeerToKnownMessage : Type 0 where
  pub uri : Option String
  pub port : Option ℕ
  pub id : ℕ

pub record PeerIdMessage : Type 0 where
  pub id : ℕ

pub record UriMessage : Type 0 where
  pub uri : String

pub record GrpcPoint (T : Type 0) : Type 0 where
  pub id : ℕ
  pub payload : T

pub record UpsertPointsRequest (T : Type 0) : Type 0 where
  pub collection_name : String
  pub points : List (GrpcPoint T)
  pub shard_id : Option ℕ

pub record UpsertPointsResponse : Type 0 where
  pub message : String

pub record GetPointsResponse (T : Type 0) : Type 0 where
  pub points : List (GrpcPoint T)

pub record GetPointsRequest : Type 0 where
  pub collection_name : String
  pub ids : List ℕ
  pub return_all : Bool
  pub shard_id : Option ℕ
