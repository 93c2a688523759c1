-- ===== src/Storage/RemoteShard/Wire.antt =====
-- What reaches a remote replica.
use smoldb.Prelude.{
  ℕ, ◌≡◌, refl, ◌≢◌, ◌⊎◌, inl, inr, List, [], ◌∷◌, false, Option, none, some, ok, is_ok, arith, All,
  filter_map, lookup, insert, collect, nat_eq, Option-cases, Result-cases,
}
use smoldb.Types.{PeerId}
use smoldb.Storage.Error.{CollectionResult}
use smoldb.Storage.Point.{PointId, Point}
use smoldb.Storage.RemoteShard.{
  RemoteShard, numeric_id, to_grpc, from_grpc, upsert_request, current_address, get_channel_service,
  with_points_client, upsert_points,
}
use smoldb.Channels.{ChannelService}
use smoldb.External.{Env}

module _ {V : Type 0} where
  -- the point, if its id is a number
  abbrev pub numeric : Point V → Option (Point V)
  numeric p = elim (numeric_id p.id) [ none ↦ none | some n ↦ some p ]

-- The peers whose addresses are written into the program.
abbrev pub IsKnownPeer : PeerId → Type 0
IsKnownPeer peer = (peer ≡ 101) ⊎ (peer ≡ 102) ⊎ (peer ≡ 103)

module _ (env : Env) where
  open env use {Value, text_to_value, value_to_text, Net, Uri, Channel}

  -- The text of a payload reads back as the payload.
  abbrev pub PayloadRoundTrips : Point Value → Type 0
  PayloadRoundTrips p = text_to_value (value_to_text p.payload) ≡ ok p.payload

  numeric_id-eq : (pid : PointId) (n : ℕ) → numeric_id pid ≡ some n → PointId.id n ≡ pid
  unfolding numeric_id
  numeric_id-eq (PointId.id m) n e = cc
  numeric_id-eq (PointId.uuid s) n e = cc

  -- A peer that decodes the request of an upsert gets exactly the points with numeric ids, as they
  -- are and in their order. The points with uuids are not sent.
  -- Assumed: the texts of the payloads read back.
  pub from_grpc-upsert_request :
      (shard : RemoteShard) (points : List (Point Value))
      → All PayloadRoundTrips points
      → from_grpc env (upsert_request env shard points).points ≡ some (filter_map numeric points)
  unfolding upsert_request from_grpc
  from_grpc-upsert_request shard [] h = refl
  from_grpc-upsert_request shard (p ∷ points) h =
      let ih = from_grpc-upsert_request shard points h.1 in
      elim (Option-cases (numeric_id p.id)) [
        | inl q ↦
            let unsent : to_grpc env p ≡ none = unfold to_grpc in ground arith in
            let dropped : numeric p ≡ none = ground arith in rw (unsent, dropped) ih
        | inr (n, q) ↦
            let here = numeric_id-eq p.id n q in
            let sent : to_grpc env p ≡ some (record { id = n; payload = value_to_text p.payload }) =
              unfold to_grpc in ground arith in
            let kept : numeric p ≡ some p = ground arith in
            rw (sent, kept, from_grpc, h.0, ih) (rw here)
      ]

  no_address :
      (shard : RemoteShard) (service : ChannelService Uri Channel)
      → ¬ IsKnownPeer shard.peer_id
      → get_channel_service env ≡ some service
      → is_ok (current_address env shard service) ≡ false
  unfolding get_channel_service current_address collect insert lookup
  no_address shard service unknown e =
      let not1 : shard.peer_id ≢ 101 = λ h. unknown (inl h) in
      let not2 : shard.peer_id ≢ 102 = λ h. unknown (inr (inl h)) in
      let not3 : shard.peer_id ≢ 103 = λ h. unknown (inr (inr h)) in ground arith

  -- An upsert to any other peer fails before any call, whatever the addresses that the node knows.
  pub upsert_points-unknown_peer :
      (shard : RemoteShard) (points : List (Point Value)) (net net' : Net)
      (result : CollectionResult (Unit {0}))
      → ¬ IsKnownPeer shard.peer_id
      → upsert_points env shard points net ≡ some (result, net')
      → (is_ok result ≡ false) × (net' ≡ net)
  unfolding upsert_points with_points_client
  upsert_points-unknown_peer shard points net net' result unknown e =
      elim (Option-cases (get_channel_service env)) [
        | inl q ↦ absurd (ground arith)
        | inr (service, q) ↦
            let absent = no_address shard service unknown q in
            elim (Result-cases (current_address env shard service)) [
              | inl (uri, v) ↦ absurd (ground arith)
              | inr (x, v) ↦ (ground arith, ground arith)
            ]
      ]
