-- ===== src/Storage/RemoteShard.antt =====
-- `RemoteShard` of storage/replicas/remote_shard.rs: a replica on a peer, reached by gRPC. An
-- operation leaves the peers in a new state; `none` is a panic of an `unwrap`.
pub mod Wire
use smoldb.Prelude.{
  ℕ, String, List, [], ◌∷◌, Option, none, some, ◌>>=◌, Result, ok, err, map_err, ok_or, Bool, true,
  false, HashMap, lookup, collect, nat_eq, filter_map, format, is_none, or_empty,
}
use smoldb.Decimal.{show}
use smoldb.Types.{ShardId, PeerId, CollectionName}
use smoldb.Storage.Error.{CollectionError, CollectionResult, service_error, tonic_transport_error}
use smoldb.Storage.Point.{PointId, Point}
use smoldb.Grpc.Schema.{
  GrpcPoint, GetPointsRequest, GetPointsResponse, UpsertPointsRequest, UpsertPointsResponse,
}
use smoldb.Channels.{ChannelService, default_service, get_or_create_channel}
use smoldb.External.{Env}

pub record RemoteShard : Type 0 where
  pub id : ShardId
  pub collection : CollectionName
  pub peer_id : PeerId

-- `RemoteShard::new`
abbrev pub new_remote : ShardId → CollectionName → PeerId → RemoteShard
new_remote id collection peer_id = record { id = id; collection = collection; peer_id = peer_id }

-- `r.unwrap()`
abbrev pub unwrap : {A : Type 0} → Result String A → Option A
unwrap (ok a) = some a
unwrap (err e) = none

-- the filter over the ids: only numbers are sent
unfoldable pub numeric_id : PointId → Option ℕ
numeric_id (PointId.id n) = some n
numeric_id (PointId.uuid s) = none

module _ (env : Env) where
  open env use {
    Value, Text, value_to_text, text_to_value, Uri, parse_uri, Net, Channel, call_get_points,
    call_upsert_points,
  }

  unfoldable pub current_address : RemoteShard → ChannelService Uri Channel → CollectionResult Uri
  current_address shard service =
      ok_or
        (CollectionError.service_error (
          format (
            "Peer "
            ∷ show shard.peer_id
            ∷ " does not have an address in the channel service"
            ∷ [])))
        (lookup shard.peer_id service.id_to_address)

  unfoldable pub with_points_client :
      {T : Type 0}
      → RemoteShard
      → ChannelService Uri Channel
      → (Net → Channel → Result String T × Net)
      → Net
      → CollectionResult T × Net
  with_points_client shard service f net = elim (current_address shard service) [
    | err e ↦ (err e, net)
    | ok uri ↦
        let (made, pool, net') = get_or_create_channel env service.channel_pool net uri in
        elim made [
          | err e ↦ (err (CollectionError.tonic_transport_error e), net')
          | ok channel ↦
              let (answer, net'') = f net' channel in
              (
                map_err
                    (λ e. CollectionError.service_error (
                      format (
                        "Failed to execute operation on remote shard "
                        ∷ show shard.id
                        ∷ ": "
                        ∷ e
                        ∷ [])))
                    answer,
                net'',
              )
        ]
  ]

  -- the addresses that are written into the program
  unfoldable pub get_channel_service : Option (ChannelService Uri Channel)
  get_channel_service = do
    first ← unwrap (parse_uri "http://0.0.0.0:5001")
    second ← unwrap (parse_uri "http://0.0.0.0:5002")
    third ← unwrap (parse_uri "http://0.0.0.0:5003")
    some (record default_service {
      id_to_address = collect ((101, first) ∷ (102, second) ∷ (103, third) ∷ []) [];
    })

  unfoldable pub from_grpc : List (GrpcPoint Text) → Option (List (Point Value))
  from_grpc [] = some []
  from_grpc (p ∷ ps) = do
    payload ← unwrap (text_to_value p.payload)
    rest ← from_grpc ps
    some (record { id = PointId.id p.id; payload = payload } ∷ rest)

  unfoldable pub to_grpc : Point Value → Option (GrpcPoint Text)
  unfolding numeric_id
  to_grpc p = elim (numeric_id p.id) [
    | some n ↦ some (record { id = n; payload = value_to_text p.payload })
    | none ↦ none
  ]

  unfoldable pub get_request : RemoteShard → Option (List PointId) → GetPointsRequest
  get_request shard pids = record {
    collection_name = shard.collection;
    ids = filter_map numeric_id (or_empty pids);
    return_all = is_none pids;
    shard_id = some shard.id;
  }

  unfoldable pub upsert_request : RemoteShard → List (Point Value) → UpsertPointsRequest Text
  upsert_request shard points = record {
    collection_name = shard.collection;
    points = filter_map to_grpc points;
    shard_id = none;
  }

  unfoldable pub get_points :
      RemoteShard
      → Option (List PointId)
      → Net
      → Option (CollectionResult (List (Point Value)) × Net)
  get_points shard pids net = do
    service ← get_channel_service
    let (answer, net') =
        with_points_client shard service
          (λ n channel. call_get_points n channel (get_request shard pids)) net
    elim answer [
      | err e ↦ some (err e, net')
      | ok response ↦ (do points ← from_grpc response.points; some (ok points, net'))
    ]

  unfoldable pub upsert_points :
      RemoteShard → List (Point Value) → Net → Option (CollectionResult (Unit {0}) × Net)
  upsert_points shard points net = do
    service ← get_channel_service
    let (answer, net') =
        with_points_client shard service
          (λ n channel. call_upsert_points n channel (upsert_request shard points)) net
    elim answer [ err e ↦ some (err e, net') | ok _ ↦ some (ok tt, net') ]
