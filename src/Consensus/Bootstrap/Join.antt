-- ===== src/Consensus/Bootstrap/Join.antt =====
-- A join: the bootstrap of one node, answered by the service of another.
use mathlib.Core.Path.{subst}
use smoldb.Prelude.{
  ◌≡◌, refl, ◌∙◌, sym, ap, ◌≢◌, ◌⊎◌, inl, inr, String, List, [], ◌∷◌, map, none, some, ok, arith,
  All, lookup, nat_eq, nat_beq_iff, beq_refl, ◌==◌, Result-cases, Option-cases, Bool-cases,
}
use smoldb.Types.{PeerId}
use smoldb.Storage.Toc.{Toc}
use smoldb.Grpc.Schema.{Peer, AllPeers, AddPeerToKnownMessage}
use smoldb.Grpc.RaftService.{add_peer_to_known}
use smoldb.Consensus.State.{
  ConsensusState, to_peer, add_peer, known_peers, bootstrap_request, add_received,
}
use smoldb.Consensus.State.Peers.{known, add_peer_lem, add_received-Joined}
use smoldb.Consensus.Bootstrap.{bootstrap}
use smoldb.External.{Env}

module _ (env : Env) where
  open env use {Uri, Net, Channel, parse_uri, show_uri, make_channel, call_add_peer_to_known}

  -- What is known of each peer of an answer is known of each entry that the answer was made of.
  All-known :
      (peers : List (PeerId × String)) (P : PeerId → Type 0) (id : PeerId)
      → All (λ (p : Peer). P p.id) (map to_peer peers)
      → lookup id peers ≢ none
      → P id
  unfolding lookup
  All-known [] P id h there = absurd (there refl)
  All-known ((k, uri) ∷ peers) P id h there = elim (Bool-cases (k == id)) [
    | inl same ↦ subst P ((nat_beq_iff k id).0 same) h.0
    | inr other ↦ All-known peers P id h.1 λ gone. there (ground arith)
  ]

  known_peers-list :
      (s : ConsensusState Uri) → map to_peer s.persistent.peers ≡ (known_peers env s).all_peers
  unfolding known_peers
  known_peers-list s = refl

  bootstrap_request-own :
      (state : ConsensusState Uri) (request : AddPeerToKnownMessage)
      → bootstrap_request env state ≡ ok request
      → (request.id ≡ state.persistent.peer_id) × (known env state state.persistent.peer_id ≢ none)
  unfolding bootstrap_request
  bootstrap_request-own state request e =
      elim (Option-cases (known env state state.persistent.peer_id)) [
        | inl gone ↦ absurd (ground arith)
        | inr (uri, q) ↦ (ground arith, λ gone. ground arith)
      ]

  add_peer_to_known-answer :
      (other other' : ConsensusState Uri) (table table' : Toc env) (request : AddPeerToKnownMessage)
      (all : AllPeers)
      → add_peer_to_known env (some other) table request ≡ some (ok all, some other', table')
      → (uri : Uri) × (add_peer env other request.id uri ≡ other') × (known_peers env other' ≡ all)
  unfolding add_peer_to_known
  add_peer_to_known-answer other other' table table' request all e =
      elim (Option-cases request.uri) [
        | inl absent ↦ absurd (ground arith)
        | inr (text, q) ↦ elim (Result-cases (parse_uri text)) [
          | inr (f, q') ↦ absurd (ground arith)
          | inl (uri, q') ↦
              let same : add_peer env other request.id uri ≡ other' = ground arith in
              let answer : known_peers env (add_peer env other request.id uri) ≡ all =
                ground arith in
              (uri, same, ap (known_peers env) (sym same) ∙ answer)
        ]
      ]

  -- A bootstrap that succeeds, whose request the service of another node answered, leaves both nodes
  -- knowing each other: the other node knows the joining one, and the joining node knows every peer
  -- that the other knows by then and every peer that it knew before.
  pub bootstrap_lem :
      (cluster_uri : Uri) (state state' other other' : ConsensusState Uri)
      (toc toc' table table' : Toc env) (net net' : Net) (channel : Channel)
      (request : AddPeerToKnownMessage) (all : AllPeers)
      → bootstrap env cluster_uri state toc net ≡ (ok tt, state', toc', net')
      → (make_channel net cluster_uri).0 ≡ ok channel
      → bootstrap_request env state ≡ ok request
      → (call_add_peer_to_known (make_channel net cluster_uri).1 channel request).0 ≡ ok all
      → add_peer_to_known env (some other) table request ≡ some (ok all, some other', table')
      → (known env other' state.persistent.peer_id ≢ none)
        × ((id : PeerId) → known env other' id ≢ none → known env state' id ≢ none)
        × ((id : PeerId) → known env state id ≢ none → known env state' id ≢ none)
  unfolding bootstrap
  bootstrap_lem cluster_uri state state' other other' toc toc' table table' net net' channel request
        all e made asked served answered =
      let (own, there) = bootstrap_request-own state request asked in
      let (uri, recorded, listed) =
        add_peer_to_known-answer other other' table table' request all answered in
      let received : add_received env all.all_peers state toc ≡ (ok tt, state', toc') =
        ground arith in
      let joined = add_received-Joined env all.all_peers state state' toc toc' received in
      let here : known env state' state.persistent.peer_id ≢ none =
        λ gone. there (sym joined.own_address ∙ gone) in
      let list : map to_peer other'.persistent.peers ≡ all.all_peers =
        known_peers-list other' ∙ ap (λ (a : AllPeers). a.all_peers) listed in
      let IsThere : PeerId → Type 0 =
        λ id. (id ≡ state.persistent.peer_id) ⊎ (known env state' id ≢ none) in
      (
        λ gone.
            let found : known env (add_peer env other request.id uri) request.id
                ≡ some (show_uri uri) =
              (add_peer_lem env other request.id uri).0 request.id
              ∙ rw (beq_refl request.id) refl in
            let missed : known env (add_peer env other request.id uri) request.id ≡ none =
              ap (λ (s : ConsensusState Uri). known env s request.id) recorded
              ∙ ap (known env other') own
              ∙ gone in
            ground arith,
        λ id h.
            elim (All-known other'.persistent.peers IsThere id
              (subst (All (λ (p : Peer). IsThere p.id)) (sym list) joined.added) h) [
                | inl self ↦ subst (λ x. known env state' x ≢ none) (sym self) here
                | inr known_there ↦ known_there
              ],
        joined.kept,
      )
