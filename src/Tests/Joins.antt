-- ===== src/Tests/Joins.antt =====
-- An example of a node that joins another.
use smoldb.Prelude.{◌≡◌, ◌≢◌, refl, [], ◌∷◌, none, some, ok, lookup, nat_eq}
use smoldb.Types.{PeerId}
use smoldb.Storage.Toc.{Toc}
use smoldb.Storage.Replicas.{add_remote_shards, add_to_each, add_remote, has_peer}
use smoldb.Grpc.Schema.{AllPeers, AddPeerToKnownMessage}
use smoldb.Grpc.RaftService.{add_peer_to_known}
use smoldb.Consensus.State.{
  ConsensusState, insert_sorted, add_peer, add_to_collections, add_to_toc, known_peers,
  bootstrap_request, add_received,
}
use smoldb.Consensus.State.Peers.{known}
use smoldb.Consensus.Bootstrap.{bootstrap}
use smoldb.Consensus.Bootstrap.Join.{bootstrap_lem}
use smoldb.Tests.Demo.{demo}
use smoldb.Tests.Handlers.{toc}

joining : Unit {0}
unfolding lookup insert_sorted add_peer add_to_collections add_to_toc known_peers bootstrap_request
    add_received bootstrap add_peer_to_known add_remote_shards add_to_each add_remote has_peer
joining = tt

abbrev a : ConsensusState demo.Uri
a = record {
  persistent = record { peer_id = 1; peers = (1, "http://a") ∷ [] };
  peer_address_by_id = (1, "http://a") ∷ [];
}

abbrev pub b : ConsensusState demo.Uri
b = record {
  persistent = record { peer_id = 2; peers = (2, "http://b") ∷ [] };
  peer_address_by_id = (2, "http://b") ∷ [];
}

abbrev a_joined : ConsensusState demo.Uri
a_joined = record a {
  persistent = record { peer_id = 1; peers = (1, "http://a") ∷ (2, "http://b") ∷ [] };
}

abbrev pub b_joined : ConsensusState demo.Uri
b_joined = record b {
  persistent = record { peer_id = 2; peers = (1, "http://a") ∷ (2, "http://b") ∷ [] };
}

abbrev pub request : AddPeerToKnownMessage
request = record { uri = some "http://a"; port = some 9920; id = 1 }

abbrev pub all : AllPeers
all = record {
  all_peers = record { uri = "http://a"; id = 1 } ∷ record { uri = "http://b"; id = 2 } ∷ [];
  first_peer_id = 2;
}

toc_a : Toc demo
toc_a = add_to_toc demo 2 toc

pub toc_b : Toc demo
toc_b = add_to_toc demo 1 toc

boot : bootstrap demo "http://b" a toc 0 ≡ (ok tt, a_joined, toc_a, 1)
unfolding joining toc_a
boot = refl

asked : bootstrap_request demo a ≡ ok request
unfolding joining
asked = refl

pub answered : add_peer_to_known demo (some b) toc request ≡ some (ok all, some b_joined, toc_b)
unfolding joining toc_b
answered = refl

bootstrap_lem_example :
    (known demo b_joined 1 ≢ none)
    × ((id : PeerId) → known demo b_joined id ≢ none → known demo a_joined id ≢ none)
    × ((id : PeerId) → known demo a id ≢ none → known demo a_joined id ≢ none)
bootstrap_lem_example =
    bootstrap_lem demo "http://b" a a_joined b b_joined toc toc_a toc toc_b 0 1 "http://b" request
      all boot refl asked refl answered
