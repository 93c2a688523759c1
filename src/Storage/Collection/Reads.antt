-- ===== src/Storage/Collection/Reads.antt =====
-- The read of one point of a collection, and the points of a batch.
use mathlib.Core.List.{append-nil}
use smoldb.Prelude.{
  ◌≡◌, refl, ◌∙◌, ap, inl, inr, List, [], ◌∷◌, ◌++◌, Bool, true, false, ◌||◌, none, some, ◌⊎◌, ok,
  err, and_then, push_some, arith, HashMap, lookup, insert, Unique, nat_eq, nat_beq_iff, ◌==◌,
  String, string_eq, Option-cases, Bool-cases, All,
}
use smoldb.Types.{ShardId}
use smoldb.Storage.Error.{CollectionResult}
use smoldb.Storage.Point.{PointId, Point, into_string, point_id_eq}
use smoldb.Storage.Segment
use smoldb.Storage.Segment.Writes.{Read, last_under}
use smoldb.Storage.LocalShard
use smoldb.Storage.LocalShard.Writes.{shard_read}
use smoldb.Storage.Replicas.{ReplicaSet, get_replica_set, select_onto, select_shards, push}
use smoldb.Storage.Collection.{Collection, read_local, read_groups, get_points}
use smoldb.Storage.Collection.Writes.{stored}
use smoldb.External.{Env, OrderLaws}

module _ {V : Type 0} where
  -- Does one of the points stand under the key?
  unfoldable pub has_key : String → List (Point V) → Bool
  has_key key [] = false
  has_key key (p ∷ ps) = into_string p.id == key || has_key key ps

  -- If each point under the key is `p`, the last one is, once there is one.
  pub last_under_same {ℓ} :
      {R : Type ℓ} (key : String) (ps : List (Point V)) (found : Point V → R) (old : R)
      (p : Point V)
      → All (λ q. into_string q.id ≡ key → q ≡ p) ps
      → (has_key key ps ≡ true) ⊎ (old ≡ found p)
      → last_under key ps found old ≡ found p
  unfolding last_under has_key
  last_under_same key [] found old p same h = ground arith
  last_under_same key (q ∷ ps) found old p same h = elim (Bool-cases (into_string q.id == key)) [
    | inl e ↦
        let here : q ≡ p = same.0 ((string_eq.beq_iff (into_string q.id) key).0 e) in
        rw (e, last_under) (last_under_same key ps found (found q) p same.1 (inr (ap found here)))
    | inr e ↦ rw (e, last_under) (last_under_same key ps found old p same.1 (ground arith))
  ]

  pub last_under_absent {ℓ} :
      {R : Type ℓ} (key : String) (ps : List (Point V)) (found : Point V → R) (old : R)
      → has_key key ps ≡ false
      → last_under key ps found old ≡ old
  unfolding last_under has_key
  last_under_absent key [] found old h = refl
  last_under_absent key (q ∷ ps) found old h = elim (Bool-cases (into_string q.id == key)) [
    | inl e ↦ absurd (ground arith)
    | inr e ↦ rw (e, last_under) (last_under_absent key ps found old (ground arith))
  ]

-- A map with one entry is iterated in one way.
singleton_map :
    (m : HashMap ShardId (List PointId)) (s : ShardId) (pids : List PointId)
    → ((t : ShardId) → lookup t m ≡ lookup t ((s, pids) ∷ []))
    → Unique m
    → m ≡ (s, pids) ∷ []
unfolding lookup
singleton_map [] s pids same h = absurd (ground (arith, same s, nat_beq_iff s s))
singleton_map ((t, qs) ∷ []) s pids same h =
    ground (arith, same t, nat_beq_iff t t, nat_beq_iff s t)
singleton_map ((t, qs) ∷ (u, rs) ∷ m) s pids same h = absurd (
    ground (
      arith,
      same t,
      same u,
      nat_beq_iff t t,
      nat_beq_iff u u,
      nat_beq_iff s t,
      nat_beq_iff s u,
      nat_beq_iff t u,
      nat_beq_iff u t,
    ))

module _ (env : Env) where
  open env use {Value, Db, Ring, Net, ring_get, arrange}

  -- The answer to a read of one id from what is stored under it.
  abbrev pub single_answer : Read env → CollectionResult (List (Point Value))
  single_answer (ok found) = ok (push_some found [])
  single_answer (err e) = err (LocalShard.read_failed env e)

  module _ (order : OrderLaws env) (c : Collection Db Ring) (s : ShardId) (pid : PointId) where
    select_one :
        ring_get c.replica_holder.ring pid ≡ some s
        → select_shards env c.replica_holder (pid ∷ []) ≡ ok ((s, pid ∷ []) ∷ [])
    unfolding select_shards select_onto push insert lookup
    select_one e = rw (e, select_onto)

    arrange_one : arrange ((s, pid ∷ []) ∷ []) ≡ (s, pid ∷ []) ∷ []
    unfolding lookup
    arrange_one =
        singleton_map _ s (pid ∷ []) (order.lookup_arranged ((s, pid ∷ []) ∷ []))
          (order.arranged_unique ((s, pid ∷ []) ∷ []) (refl, tt))

    stored_inv :
        (r : Read env)
        → stored env c.replica_holder.shards s pid ≡ some r
        → (set : ReplicaSet Db) × (segment : Segment.Segment Db) × (lookup s c.replica_holder.shards
            ≡ some set)
          × (lookup 0 set.local.segments ≡ some segment)
          × (Segment.read_one env segment.db pid ≡ r)
    unfolding stored shard_read
    stored_inv r e = elim (Option-cases (lookup s c.replica_holder.shards)) [
      | inl q ↦ absurd (ground arith)
      | inr (set, q) ↦ elim (Option-cases (lookup 0 set.local.segments)) [
        | inl q' ↦ absurd (ground arith)
        | inr (segment, q') ↦ (set, segment, q, q', ground arith)
      ]
    ]

    read_local_one :
        (r : Read env)
        → stored env c.replica_holder.shards s pid ≡ some r
        → read_local env c.replica_holder s (pid ∷ []) ≡ single_answer r
    unfolding read_local get_replica_set LocalShard.get_points Segment.get_points Segment.read_each
    read_local_one r e = let (set, segment, q, q', read) = stored_inv r e in ground arith

    -- A read that succeeds shows what is stored.
    read_local-stored :
        (found : List (Point Value))
        → read_local env c.replica_holder s (pid ∷ []) ≡ ok found
        → (r : Read env) × (stored env c.replica_holder.shards s pid ≡ some r)
    unfolding stored shard_read read_local get_replica_set LocalShard.get_points
    read_local-stored found e = elim (Option-cases (lookup s c.replica_holder.shards)) [
      | inl q ↦ absurd (ground arith)
      | inr (set, q) ↦ elim (Option-cases (lookup 0 set.local.segments)) [
        | inl q' ↦ absurd (ground arith)
        | inr (segment, q') ↦ (Segment.read_one env segment.db pid, ground arith)
      ]
    ]

    append_answer :
        (r : CollectionResult (List (Point Value))) → and_then r (λ points. ok (points ++ [])) ≡ r
    append_answer (ok points) = rw append-nil
    append_answer (err x) = refl

    get_points-read_local :
        (local_only : Bool) (net : Net)
        → ring_get c.replica_holder.ring pid ≡ some s
        → get_points env c (some (pid ∷ [])) none local_only net
          ≡ some (read_local env c.replica_holder s (pid ∷ []), net)
    unfolding get_points read_groups
    get_points-read_local local_only net e =
        rw (select_one e, get_points, arrange_one)
          (rw (append_answer (read_local env c.replica_holder s (pid ∷ []))))

    -- A read of one id gives what is stored under it in the shard of the ring, without a call of any
    -- peer.
    pub get_points-stored :
        (local_only : Bool) (net : Net) (r : Read env)
        → ring_get c.replica_holder.ring pid ≡ some s
        → stored env c.replica_holder.shards s pid ≡ some r
        → get_points env c (some (pid ∷ [])) none local_only net ≡ some (single_answer r, net)
    get_points-stored local_only net r e h =
        get_points-read_local local_only net e
        ∙ ap (λ (x : CollectionResult (List (Point Value))). some (x, net)) (read_local_one r h)

    pub stored_of_read :
        (local_only : Bool) (net : Net) (found : List (Point Value))
        → ring_get c.replica_holder.ring pid ≡ some s
        → get_points env c (some (pid ∷ [])) none local_only net ≡ some (ok found, net)
        → (r : Read env) × (stored env c.replica_holder.shards s pid ≡ some r)
    stored_of_read local_only net found e h =
        let same = get_points-read_local local_only net e in read_local-stored found (cc)

  -- A read that succeeds was routed.
  pub routed_of_read :
      (c : Collection Db Ring) (pid : PointId) (local_only : Bool) (net : Net)
      (found : List (Point Value))
      → get_points env c (some (pid ∷ [])) none local_only net ≡ some (ok found, net)
      → (s : ShardId) × (ring_get c.replica_holder.ring pid ≡ some s)
  unfolding get_points select_shards select_onto
  routed_of_read c pid local_only net found e =
      elim (Option-cases (ring_get c.replica_holder.ring pid)) [
        | inl q ↦ absurd (ground arith)
        | inr (s, q) ↦ (s, q)
      ]
