-- ===== src/Consensus/State.antt =====
-- `ConsensusState` of consensus.rs, and the parts of `Consensus::bootstrap` and of
-- `RaftService::add_peer_to_known` (api/grpc/raft_service.rs) that record a peer. `none` is a panic
-- of an `unwrap`.
pub mod Peers
use smoldb.Prelude.{
  ℕ, ◌%◌, ◌^◌, String, List, [], ◌∷◌, map, Option, none, some, ◌>>=◌, Result, ok, err, map_err,
  HashMap, lookup, nat_eq, Bool, true, false, ltb, nat_beq, ◌==◌, format, if◌then◌else◌,
}
use smoldb.Decimal.{show}
use smoldb.Types.{PeerId, CollectionName}
use smoldb.Storage.RemoteShard.{unwrap}
use smoldb.Storage.Replicas.{add_remote_shards}
use smoldb.Storage.Collection.{Collection}
use smoldb.Storage.Toc.{Toc}
use smoldb.Grpc.Schema.{Peer, AllPeers, AddPeerToKnownMessage}
use smoldb.External.{Env}

-- A `BTreeMap` is kept in the order of its keys.
unfoldable pub insert_sorted : {A : Type 0} → PeerId → A → List (PeerId × A) → List (PeerId × A)
insert_sorted k v [] = (k, v) ∷ []
insert_sorted k v ((j, w) ∷ m) =
    let rest = (j, w) ∷ insert_sorted k v m in
    if ltb k j then (k, v) ∷ (j, w) ∷ m else if k == j then (k, v) ∷ m else rest

-- `raft_info` is a constant that nothing reads.
pub record Persistent : Type 0 where
  pub peer_id : PeerId
  pub peers : List (PeerId × String)

pub record ConsensusState (U : Type 0) : Type 0 where
  pub persistent : Persistent
  pub peer_address_by_id : HashMap PeerId U

-- `rng.random::<PeerId>() % (1 << 53)`, from the number that was drawn
unfoldable pub draw_peer_id : Option PeerId → ℕ → PeerId
draw_peer_id (some id) drawn = id
draw_peer_id none drawn = drawn % 2 ^ 53

abbrev pub to_peer : PeerId × String → Peer
to_peer (id, uri) = record { uri = uri; id = id }

module _ (env : Env) where
  open env use {Db, Ring, Uri, show_uri, parse_uri}

  -- `ConsensusState::dummy`
  unfoldable pub dummy : Uri → Option PeerId → ℕ → ConsensusState Uri
  dummy p2p_uri default_peer_id drawn =
      let peer_id = draw_peer_id default_peer_id drawn in
      record {
        persistent = record { peer_id = peer_id; peers = (peer_id, show_uri p2p_uri) ∷ [] };
        peer_address_by_id = (peer_id, p2p_uri) ∷ [];
      }

  -- `ConsensusState::add_peer`, which has no error path
  unfoldable pub add_peer : ConsensusState Uri → PeerId → Uri → ConsensusState Uri
  add_peer state peer_id uri = record state {
    persistent = record state.persistent {
      peers = insert_sorted peer_id (show_uri uri) state.persistent.peers;
    };
  }

  -- the loop over the collections
  unfoldable pub add_to_collections :
      PeerId
      → HashMap CollectionName (Collection Db Ring)
      → HashMap CollectionName (Collection Db Ring)
  add_to_collections peer_id [] = []
  add_to_collections peer_id ((name, c) ∷ collections) =
      (name, record c { replica_holder = add_remote_shards peer_id name c.replica_holder })
      ∷ add_to_collections peer_id collections

  unfoldable pub add_to_toc : PeerId → Toc env → Toc env
  add_to_toc peer_id toc = record toc { collections = add_to_collections peer_id toc.collections }

  -- the `Peer` messages of the answer to `add_peer_to_known`
  unfoldable pub known_peers : ConsensusState Uri → AllPeers
  known_peers state = record {
    all_peers = map to_peer state.persistent.peers;
    first_peer_id = state.persistent.peer_id;
  }

  -- the message that `bootstrap` sends
  unfoldable pub bootstrap_request : ConsensusState Uri → Result String AddPeerToKnownMessage
  bootstrap_request state =
      let id = state.persistent.peer_id in
      elim (lookup id state.persistent.peers) [
        | none ↦ err (format ("Peer with ID " ∷ show id ∷ " not found in persistent state" ∷ []))
        | some uri ↦ ok (record { uri = some uri; port = some 9920; id = id })
      ]

  -- the loop of `bootstrap` over the peers of the answer
  unfoldable pub add_received :
      List Peer
      → ConsensusState Uri
      → Toc env
      → Result String (Unit {0}) × ConsensusState Uri × Toc env
  add_received [] state toc = (ok tt, state, toc)
  add_received (peer ∷ peers) state toc = elim (nat_beq peer.id state.persistent.peer_id) [
    | true ↦ add_received peers state toc
    | false ↦ elim (parse_uri peer.uri) [
      | err e ↦ (err e, state, toc)
      | ok uri ↦ add_received peers (add_peer state peer.id uri) (add_to_toc peer.id toc)
    ]
  ]
