-- ===== src/Storage/Replicas/Peers.antt =====
-- Adding a peer to the replica sets.
use smoldb.Prelude.{
  ◌+◌, ◌≡◌, refl, ◌∙◌, ap, inl, inr, List, [], ◌∷◌, ◌++◌, true, false, ◌||◌, none, some, arith,
  length-append, HashMap, lookup, nat_eq, nat_beq_iff, ◌==◌, Bool-cases, if◌then◌else◌,
}
use smoldb.Types.{ShardId, PeerId, CollectionName}
use smoldb.Storage.RemoteShard.{RemoteShard, new_remote}
use smoldb.Storage.Replicas.{
  ReplicaSet, ReplicaHolder, has_peer, add_remote, add_to_each, add_remote_shards, num_replicas,
}

-- No peer has two replicas in a set.
abbrev pub DistinctPeers : List RemoteShard → Type 0
DistinctPeers [] = Unit
DistinctPeers (r ∷ rs) = (has_peer r.peer_id rs ≡ false) × DistinctPeers rs

has_peer-append :
    (peer : PeerId) (rs : List RemoteShard) (r : RemoteShard)
    → has_peer peer (rs ++ r ∷ []) ≡ has_peer peer rs || r.peer_id == peer
unfolding has_peer
has_peer-append peer [] r = ground arith
has_peer-append peer (s ∷ rs) r = ground (arith, has_peer-append peer rs r)

DistinctPeers-append :
    (rs : List RemoteShard) (r : RemoteShard)
    → has_peer r.peer_id rs ≡ false
    → DistinctPeers rs
    → DistinctPeers (rs ++ r ∷ [])
unfolding has_peer
DistinctPeers-append [] r new h = (refl, tt)
DistinctPeers-append (s ∷ rs) r new h =
    (ground (arith, has_peer-append s.peer_id rs r), DistinctPeers-append rs r (ground arith) h.1)

module _ {D : Type 0} where
  pub has_peer-add_remote :
      (peer q : PeerId) (collection : CollectionName) (s : ShardId) (set : ReplicaSet D)
      → has_peer q (add_remote peer collection s set).remotes ≡ has_peer q set.remotes || peer == q
  unfolding add_remote
  has_peer-add_remote peer q collection s set =
      ground
        (arith, nat_beq_iff peer q, has_peer-append q set.remotes (new_remote s collection peer))

  pub lookup-add_to_each :
      (peer : PeerId) (collection : CollectionName) (s : ShardId)
      (sets : HashMap ShardId (ReplicaSet D))
      → lookup s (add_to_each peer collection sets)
        ≡ elim (lookup s sets) [ none ↦ none | some set ↦ some (add_remote peer collection s set) ]
  unfolding lookup add_to_each
  lookup-add_to_each peer collection s [] = refl
  lookup-add_to_each peer collection s ((t, set) ∷ sets) = elim (Bool-cases (t == s)) [
    | inl same ↦ let here : t ≡ s = (nat_beq_iff t s).0 same in rw (same, here)
    | inr other ↦ rw other (lookup-add_to_each peer collection s sets)
  ]

  pub add_remote_idem :
      (peer : PeerId) (collection : CollectionName) (s : ShardId) (set : ReplicaSet D)
      → add_remote peer collection s (add_remote peer collection s set)
        ≡ add_remote peer collection s set
  add_remote_idem peer collection s set =
      let there : has_peer peer (add_remote peer collection s set).remotes ≡ true =
        has_peer-add_remote peer peer collection s set ∙ ground (arith, nat_beq_iff peer peer) in
      unfold add_remote in rw (there, add_remote)

  pub DistinctPeers-add_remote :
      (peer : PeerId) (collection : CollectionName) (s : ShardId) (set : ReplicaSet D)
      → DistinctPeers set.remotes
      → DistinctPeers (add_remote peer collection s set).remotes
  unfolding add_remote
  DistinctPeers-add_remote peer collection s set h = elim (Bool-cases (has_peer peer set.remotes)) [
    | inl old ↦ rw old h
    | inr new ↦ rw new (DistinctPeers-append set.remotes (new_remote s collection peer) new h)
  ]

  pub num_replicas-add_remote :
      (peer : PeerId) (collection : CollectionName) (s : ShardId) (set : ReplicaSet D)
      → num_replicas (add_remote peer collection s set)
        ≡ num_replicas set + (if has_peer peer set.remotes then 0 else 1)
  unfolding add_remote num_replicas
  num_replicas-add_remote peer collection s set =
      ground (arith, length-append set.remotes (new_remote s collection peer ∷ []))

  idem_each :
      (peer : PeerId) (collection : CollectionName) (sets : HashMap ShardId (ReplicaSet D))
      → add_to_each peer collection (add_to_each peer collection sets)
        ≡ add_to_each peer collection sets
  unfolding add_to_each
  idem_each peer collection [] = refl
  idem_each peer collection ((s, set) ∷ sets) =
      rw (add_remote_idem peer collection s set, idem_each peer collection sets)

  module _ {R : Type 0} (peer : PeerId) (collection : CollectionName) where
    -- Adding a peer that was added changes nothing.
    pub add_remote_shards_idem :
        (holder : ReplicaHolder D R)
        → add_remote_shards peer collection (add_remote_shards peer collection holder)
          ≡ add_remote_shards peer collection holder
    unfolding add_remote_shards
    add_remote_shards_idem holder =
        ap (λ shards. record holder { shards = shards }) (idem_each peer collection holder.shards)

    -- After a peer was added, the replica set of each shard has exactly the peers that it had and the
    -- new one, still with no peer twice, and it counts one replica more if the peer is new. Its local
    -- shard stays, and no shard is added, lost or routed another way.
    pub add_remote_shards_lem :
        (holder : ReplicaHolder D R) (s : ShardId) (set : ReplicaSet D)
        → lookup s holder.shards ≡ some set
        → (set' : ReplicaSet D) × (lookup s (add_remote_shards peer collection holder).shards
            ≡ some set')
          × ((q : PeerId) → has_peer q set'.remotes ≡ has_peer q set.remotes || peer == q)
          × (DistinctPeers set.remotes → DistinctPeers set'.remotes)
          × (num_replicas set' ≡ num_replicas set + (if has_peer peer set.remotes then 0 else 1))
          × (set'.local ≡ set.local)
          × ((add_remote_shards peer collection holder).ring ≡ holder.ring)
    unfolding add_remote_shards
    add_remote_shards_lem holder s set here = (
      add_remote peer collection s set,
      rw (lookup-add_to_each, here),
      λ q. has_peer-add_remote peer q collection s set,
      DistinctPeers-add_remote peer collection s set,
      num_replicas-add_remote peer collection s set,
      unfold add_remote in ground arith,
      refl,
    )
