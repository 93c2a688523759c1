-- ===== src/Consensus/State/Peers.antt =====
-- The peers that a node knows.
use smoldb.Prelude.{
  ◌≡◌, refl, ◌∙◌, sym, ap, ◌≢◌, ◌⊎◌, inl, inr, String, List, [], ◌∷◌, Option, none, some, ok, arith,
  All, lookup, nat_eq, nat_beq, nat_beq_iff, ltb, ◌==◌, ◌<◌, Result-cases, Bool-cases,
  if◌then◌else◌,
}
use smoldb.Types.{PeerId}
use smoldb.Storage.Toc.{Toc}
use smoldb.Grpc.Schema.{Peer}
use smoldb.Consensus.State.{ConsensusState, insert_sorted, add_peer, add_to_toc, add_received}
use smoldb.External.{Env}

module _ {A : Type 0} where
  lookup-insert_sorted :
      (k j : PeerId) (v : A) (m : List (PeerId × A))
      → lookup j (insert_sorted k v m) ≡ (if k == j then some v else lookup j m)
  unfolding lookup insert_sorted
  lookup-insert_sorted k j v [] = refl
  lookup-insert_sorted k j v ((i, w) ∷ m) = ground (
    arith,
    nat_beq_iff k j,
    nat_beq_iff i k,
    nat_beq_iff k i,
    nat_beq_iff i j,
    lookup-insert_sorted k j v m,
  )

  -- The keys rise.
  abbrev pub IsSorted : List (PeerId × A) → Type 0
  IsSorted [] = Unit
  IsSorted ((k, v) ∷ m) = All (λ e. k < e.0) m × IsSorted m

  above-insert_sorted :
      (low k : PeerId) (v : A) (m : List (PeerId × A))
      → low < k
      → All (λ e. low < e.0) m
      → All (λ e. low < e.0) (insert_sorted k v m)
  unfolding insert_sorted
  above-insert_sorted low k v [] h hs = (h, tt)
  above-insert_sorted low k v ((j, w) ∷ m) h hs = elim (Bool-cases (ltb k j)) [
    | inl before ↦ rw before (h, hs)
    | inr after ↦ elim (Bool-cases (k == j)) [
      | inl same ↦ rw (after, same) (h, hs.1)
      | inr other ↦ rw (after, other) (hs.0, above-insert_sorted low k v m h hs.1)
    ]
  ]

  All-lower :
      (low k : PeerId) (m : List (PeerId × A))
      → low < k
      → All (λ e. k < e.0) m
      → All (λ e. low < e.0) m
  All-lower low k [] h hs = tt
  All-lower low k (e ∷ m) h hs = (omega arith, All-lower low k m h hs.1)

  insert_sorted-IsSorted :
      (k : PeerId) (v : A) (m : List (PeerId × A)) → IsSorted m → IsSorted (insert_sorted k v m)
  unfolding insert_sorted
  insert_sorted-IsSorted k v [] h = (tt, tt)
  insert_sorted-IsSorted k v ((j, w) ∷ m) h = elim (Bool-cases (ltb k j)) [
    | inl before ↦ let low : k < j = ground arith in rw before ((low, All-lower k j m low h.0), h)
    | inr after ↦ elim (Bool-cases (k == j)) [
      | inl same ↦
          let here : k ≡ j = (nat_beq_iff k j).0 same in rw (after, same) (rw here h.0, h.1)
      | inr other ↦
          rw (after, other)
            (above-insert_sorted j k v m (ground arith) h.0, insert_sorted-IsSorted k v m h.1)
    ]
  ]

module _ (env : Env) where
  open env use {Uri, parse_uri, show_uri}

  abbrev pub known : ConsensusState Uri → PeerId → Option String
  known state id = lookup id state.persistent.peers

  -- A peer that is added is known under its address, every other peer as before, and the peers stay
  -- sorted. The table of addresses, which remote calls read, does not learn of it.
  pub add_peer_lem :
      (state : ConsensusState Uri) (id : PeerId) (uri : Uri)
      → ((j : PeerId)
          → known (add_peer env state id uri) j
            ≡ (if id == j then some (show_uri uri) else known state j))
        × (IsSorted state.persistent.peers → IsSorted (add_peer env state id uri).persistent.peers)
        × ((add_peer env state id uri).peer_address_by_id ≡ state.peer_address_by_id)
  unfolding add_peer
  add_peer_lem state id uri = (
    λ j. lookup-insert_sorted id j (show_uri uri) state.persistent.peers,
    λ h. insert_sorted-IsSorted id (show_uri uri) state.persistent.peers h,
    refl,
  )

  -- What a join keeps.
  pub record Joined (state state' : ConsensusState Uri) (peers : List Peer) : Type 0 where
    pub own_id : state'.persistent.peer_id ≡ state.persistent.peer_id
    pub own_address : known state' state.persistent.peer_id ≡ known state state.persistent.peer_id
    pub kept : (id : PeerId) → known state id ≢ none → known state' id ≢ none
    pub added :
        All (λ (p : Peer). (p.id ≡ state.persistent.peer_id) ⊎ (known state' p.id ≢ none)) peers
    pub addresses : state'.peer_address_by_id ≡ state.peer_address_by_id

  -- A bootstrap that succeeds keeps the node's own id and address and every peer that it knew, and
  -- knows every peer of the answer. The table of addresses stays as it was.
  pub add_received-Joined :
      (peers : List Peer) (state state' : ConsensusState Uri) (toc toc' : Toc env)
      → add_received env peers state toc ≡ (ok tt, state', toc')
      → Joined state state' peers
  unfolding add_received add_peer
  add_received-Joined [] state state' toc toc' e =
      let same : state ≡ state' = ground arith in
      record {
        own_id = ap (λ (s : ConsensusState Uri). s.persistent.peer_id) (sym same);
        own_address = ap (λ (s : ConsensusState Uri). known s state.persistent.peer_id) (sym same);
        kept = λ id h. rw (← same) h;
        added = tt;
        addresses = ap (λ (s : ConsensusState Uri). s.peer_address_by_id) (sym same);
      }
  add_received-Joined (peer ∷ peers) state state' toc toc' e =
      elim (Bool-cases (nat_beq peer.id state.persistent.peer_id)) [
        | inl self ↦
            let ih =
              add_received-Joined peers state state' toc toc' (rw (self, add_received) at e) in
            record {
              own_id = ih.own_id;
              own_address = ih.own_address;
              kept = ih.kept;
              added = (inl ((nat_beq_iff peer.id state.persistent.peer_id).0 self), ih.added);
              addresses = ih.addresses;
            }
        | inr other ↦ elim (Result-cases (parse_uri peer.uri)) [
          | inr (x, q) ↦ absurd (ground arith)
          | inl (uri, q) ↦
              let step = add_peer env state peer.id uri in
              let ih =
                add_received-Joined peers step state' (add_to_toc env peer.id toc) toc'
                  (rw (other, q, add_received) at e) in
              let (table, sorted, addresses) = add_peer_lem state peer.id uri in
              let later : (id : PeerId) → known state id ≢ none → known step id ≢ none =
                λ id h gone. elim (Bool-cases (nat_beq peer.id id)) [
                  | inl hit ↦ absurd (ground (arith, table id))
                  | inr miss ↦ h (ground (arith, table id))
                ] in
              let now : known step peer.id ≢ none =
                λ gone. ground (arith, table peer.id, nat_beq_iff peer.id peer.id) in
              record {
                own_id = ih.own_id;
                own_address = ih.own_address ∙ table state.persistent.peer_id ∙ rw other refl;
                kept = λ id h. ih.kept id (later id h);
                added = (inr (ih.kept peer.id now), ih.added);
                addresses = ih.addresses;
              }
        ]
      ]
