-- ===== src/Storage/Collection/ReadBack.antt =====
-- Reads by id after an upsert.
use mathlib.Core.Option
use smoldb.Prelude.{
  ◌≡◌, ◌∙◌, ap, sym, ◌≢◌, inl, inr, List, [], ◌∷◌, Bool, true, none, some, ok, arith, lookup,
  nat_eq, string_eq, Option-cases, Result-cases, All,
}
use smoldb.Types.{ShardId}
use smoldb.Storage.Point.{PointId, Point, into_string, point_id_eq}
use smoldb.Storage.Segment.Writes.{Read, RoundTrips, present}
use smoldb.Storage.LocalShard.Writes.{overwrite}
use smoldb.Storage.Replicas.{select_shards}
use smoldb.Storage.Replicas.Routing.{grown, routed, select_shards-routed}
use smoldb.Storage.Collection.{Collection, upsert_groups, upsert_points, get_points}
use smoldb.Storage.Collection.Writes.{batch, stored, stored-upsert_groups}
use smoldb.Storage.Collection.Reads.{
  last_under_same, last_under_absent, get_points-stored, stored_of_read, routed_of_read,
}
use smoldb.External.{Env, SledLaws, OrderLaws}
use smoldb.Storage.Collection.ById.{
  contains, or_empty-grown, grown-ne-none, by_id, ids, by_id-All, by_id-id, contains-collect,
  has_key-batch, batch_same, batch_absent, contains-routed, routes,
}

module _ (env : Env) where
  open env use {Value, Db, Ring, Net, ring_get, arrange}

  -- the points of a batch that are written to a shard
  abbrev written : List (Point Value) → Ring → ShardId → List (Point Value)
  written points ring s = batch (by_id points) (routed env ring s (ids points))

  module _ (laws : SledLaws env) (order : OrderLaws env) (c c' : Collection Db Ring)
      (points : List (Point Value)) (trips : All (RoundTrips env) points) (local_only : Bool)
      (net net' : Net)
      (done : upsert_points env c points local_only net ≡ some (ok tt, c', net')) where
    -- What is stored under an id of a shard is overwritten by these points.
    stored-upsert_points :
        (s : ShardId) (pid : PointId)
        → (stored env c'.replica_holder.shards s pid
            ≡ Option.map
                (overwrite env pid (written points c.replica_holder.ring s))
                (stored env c.replica_holder.shards s pid))
          × (contains pid (routed env c.replica_holder.ring s (ids points)) ≡ true
              → stored env c'.replica_holder.shards s pid ≢ none)
          × (c'.replica_holder.ring ≡ c.replica_holder.ring)
    unfolding upsert_points
    stored-upsert_points s pid =
        let holder = c.replica_holder in
        let to_shard = routed env holder.ring s (ids points) in
        elim (Result-cases (select_shards env holder (ids points))) [
          | inr (x, q) ↦ absurd (ground arith)
          | inl (groups, q) ↦
              let (group, unique) = select_shards-routed env holder (ids points) groups q in
              elim (Option-cases
                (upsert_groups env (by_id points) local_only (arrange groups) holder.shards net)) [
                  | inl v ↦ absurd (ground arith)
                  | inr (step, v) ↦
                      let found : lookup s (arrange groups) ≡ grown none to_shard =
                        order.lookup_arranged groups s ∙ group s in
                      let (over, there) =
                        stored-upsert_groups env laws (by_id points)
                          (λ k p. by_id-All (λ _ q. RoundTrips env q) points k p trips) local_only
                          (arrange groups) holder.shards step.1 net step.2 pid s
                          (order.arranged_unique groups unique) (ground arith) in
                      let after : c'.replica_holder.shards ≡ step.1 = ground arith in
                      (
                        rw after ((rw (found, or_empty-grown) at over)),
                        λ h. rw after (there (rw found (grown-ne-none pid to_shard h))),
                        ground arith,
                      )
                ]
        ]

    routed_of_upsert :
        (pid : PointId)
        → contains pid (ids points) ≡ true
        → (s : ShardId) × (ring_get c.replica_holder.ring pid ≡ some s)
    unfolding upsert_points select_shards
    routed_of_upsert pid h =
        let holder = c.replica_holder in
        elim (Result-cases (select_shards env holder (ids points))) [
          | inr (x, q) ↦ absurd (ground arith)
          | inl (groups, q) ↦ routes env holder.ring [] groups pid (ids points) q h
        ]

    -- Read your writes. After an upsert that succeeded, a read of an id of the batch gives the last
    -- point of the batch with that id, if no other id of the batch has the same key.
    -- Assumed: the texts of the points read back, and the laws of sled and of the iteration order.
    pub get_points-upsert_points :
        (pid : PointId) (p : Point Value) (local_only' : Bool) (net'' : Net)
        → All (λ q. into_string q.id ≡ into_string pid → q.id ≡ pid) points
        → lookup pid (by_id points) ≡ some p
        → get_points env c' (some (pid ∷ [])) none local_only' net'' ≡ some (ok (p ∷ []), net'')
    get_points-upsert_points pid p local_only' net'' apart found =
        let key = into_string pid in
        let mine : contains pid (ids points) ≡ true =
          elim (contains-collect points [] pid p found) [
            | inl h ↦ h
            | inr h ↦ absurd (unfold lookup in ground arith)
          ] in
        let (s, route) = routed_of_upsert pid mine in
        let to_shard = routed env c.replica_holder.ring s (ids points) in
        let (over, there, ring) = stored-upsert_points s pid in
        let mine' = contains-routed env c.replica_holder.ring s pid (ids points) route mine in
        let last : (old : Read env)
            → overwrite env pid (written points c.replica_holder.ring s) old ≡ present env p =
          λ old.
            last_under_same key (batch (by_id points) to_shard) (present env) old p
              (batch_same (by_id points) key p
                (λ pid' q at e.
                  let same : q.id ≡ pid =
                    by_id-All (λ _ r. into_string r.id ≡ key → r.id ≡ pid) points pid' q apart at
                      e in
                  let here : pid' ≡ pid = sym (by_id-id points pid' q at) ∙ same in
                  let at' : lookup pid (by_id points) ≡ some q = rw here at at in cc)
                to_shard)
              (inl (
                has_key-batch (by_id points) key pid to_shard p mine' found
                  (ap into_string (by_id-id points pid p found)))) in
        elim (Option-cases (stored env c.replica_holder.shards s pid)) [
          | inl gone ↦ absurd (there mine' (rw gone at over))
          | inr (old, was) ↦
              get_points-stored env order c' s pid local_only' net'' (present env p) (rw ring route)
                ((rw was at over) ∙ ap some (last old))
        ]

    -- After an upsert that succeeded, a read of an id whose key no point of the batch has gives what it
    -- gave before.
    -- Assumed: the texts of the points read back, and the laws of sled and of the iteration order.
    pub get_points-upsert_points_ne :
        (pid : PointId) (found : List (Point Value)) (local_only' : Bool) (net'' : Net)
        → All (λ q. into_string q.id ≢ into_string pid) points
        → get_points env c (some (pid ∷ [])) none local_only' net'' ≡ some (ok found, net'')
        → get_points env c' (some (pid ∷ [])) none local_only' net'' ≡ some (ok found, net'')
    get_points-upsert_points_ne pid found local_only' net'' apart before =
        let (s, route) = routed_of_read env c pid local_only' net'' found before in
        let (r, was) = stored_of_read env order c s pid local_only' net'' found route before in
        let (over, there, ring) = stored-upsert_points s pid in
        let key = into_string pid in
        let to_shard = routed env c.replica_holder.ring s (ids points) in
        let kept : overwrite env pid (written points c.replica_holder.ring s) r ≡ r =
          last_under_absent key (batch (by_id points) to_shard) (present env) r (
            batch_absent (by_id points) key
              (λ pid' q at. by_id-All (λ _ x. into_string x.id ≢ key) points pid' q apart at)
              to_shard) in
        get_points-stored env order c' s pid local_only' net'' r (rw ring route)
          ((rw was at over) ∙ ap some kept)
        ∙ sym (get_points-stored env order c s pid local_only' net'' r route was)
        ∙ before
