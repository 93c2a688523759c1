-- ===== src/Node/Replication.antt =====
-- A write that is sent to a peer: the request of a remote shard (storage/replicas/remote_shard.rs),
-- served by the peer's points service (api/grpc/points_service.rs), and the peer's answer to its own
-- clients (api/points.rs).
use smoldb.Prelude.{
  ℕ, ◌<◌, ◌≡◌, ◌⊎◌, refl, ◌∙◌, ap, sym, inl, inr, List, [], ◌∷◌, true, false, none, some, ok, arith,
  All, lookup, insert, lookup-insert, filter_map, string_eq, beq_refl, Option-cases, Result-cases,
}
use smoldb.Decimal.{show, u64_limit}
use smoldb.Storage.Point.{PointId, Point, into_string, point_id_eq}
use smoldb.Storage.Segment.Writes.{RoundTrips}
use smoldb.Storage.Segment.Keys.{into_string_lem}
use smoldb.Storage.RemoteShard.{RemoteShard, numeric_id, from_grpc, upsert_request}
use smoldb.Storage.RemoteShard.Wire.{numeric, PayloadRoundTrips, from_grpc-upsert_request}
use smoldb.Storage.Collection
use smoldb.Storage.Collection.{Collection}
use smoldb.Storage.Collection.ById.{by_id}
use smoldb.Storage.Collection.ReadBack.{get_points-upsert_points}
use smoldb.Storage.Toc.{Toc}
use smoldb.Storage.Toc.Points.{retrieve_points_lem}
use smoldb.Grpc.Schema.{UpsertPointsRequest, UpsertPointsResponse}
use smoldb.Grpc.PointsService
use smoldb.Api.Helpers.{success, time}
use smoldb.Api.Points.{get_point, first_point}
use smoldb.Api.Points.ReadBack.{path_id-show}
use smoldb.External.{Env, SledLaws, OrderLaws}

id_cases :
    (pid : PointId)
    → ((m : ℕ) × (pid ≡ PointId.id m) × (numeric_id pid ≡ some m)) ⊎ (numeric_id pid ≡ none)
unfolding numeric_id
id_cases (PointId.id m) = inl (m, refl, refl)
id_cases (PointId.uuid s) = inr refl

number_apart :
    (m n : ℕ)
    → into_string (PointId.id m) ≡ into_string (PointId.id n)
    → PointId.id m ≡ PointId.id n
number_apart m n e = elim (into_string_lem (PointId.id m) (PointId.id n) e) [
  | inl same ↦ same
  | inr (inl (k, q, r)) ↦ absurd (ground arith)
  | inr (inr (k, q, r)) ↦ absurd (ground arith)
]

numeric-none : {V : Type 0} (p : Point V) → numeric_id p.id ≡ none → numeric p ≡ none
numeric-none p e = ground arith

numeric-some : {V : Type 0} (p : Point V) (m : ℕ) → numeric_id p.id ≡ some m → numeric p ≡ some p
numeric-some p m e = ground arith

-- Among points with numbers, the key of a number is that of no other id.
numeric-apart :
    {V : Type 0} (n : ℕ) (points : List (Point V))
    → All
        (λ q. into_string q.id ≡ into_string (PointId.id n) → q.id ≡ PointId.id n)
        (filter_map numeric points)
numeric-apart n [] = tt
numeric-apart n (p ∷ points) = elim (id_cases p.id) [
  | inr uuid ↦ rw (numeric-none p uuid) (numeric-apart n points)
  | inl (m, q, number) ↦
      rw (numeric-some p m number)
        (λ e. q ∙ number_apart m n (ap into_string (sym q) ∙ e), numeric-apart n points)
]

module _ (env : Env) where
  open env use {Value, Text, Db, Ring, Net}

  -- A write of a peer that is served is one of the collection of its name, with the points that the
  -- request decodes to.
  served_inv :
      (toc toc' : Toc env) (request : UpsertPointsRequest Text) (points : List (Point Value))
      (net net' : Net) (body : UpsertPointsResponse)
      → from_grpc env request.points ≡ some points
      → PointsService.upsert_points env toc request net ≡ some (ok body, toc', net')
      → (c : Collection Db Ring) × (c' : Collection Db Ring) × (Collection.upsert_points env c
            points true net
          ≡ some (ok tt, c', net'))
        × (lookup request.collection_name toc'.collections ≡ some c')
  unfolding PointsService.upsert_points
  served_inv toc toc' request points net net' body decoded e =
      let name = request.collection_name in
      elim (Option-cases (lookup name toc.collections)) [
        | inl q ↦ absurd (ground arith)
        | inr (c, q) ↦ elim (Option-cases (Collection.upsert_points env c points true net)) [
          | inl r ↦ absurd (ground arith)
          | inr (step, r) ↦ elim (Result-cases step.0) [
            | inr (x, v) ↦ absurd (ground arith)
            | inl (u, v) ↦
                let after : toc' ≡ record toc { collections = insert name step.1 toc.collections } =
                  ground arith in
                (c, step.1, ground arith, rw (after, lookup-insert, beq_refl name))
          ]
        ]
      ]

  -- After a peer served the write of a remote shard, its own clients read the points of the write that
  -- have numbers: a GET of a number is answered by 200 with the last of them that has it.
  -- Assumed: the texts of these points and of the payloads read back, and the laws of sled and of the
  -- iteration order.
  pub get_point-upsert_request :
      (laws : SledLaws env) (order : OrderLaws env) (shard : RemoteShard)
      (points : List (Point Value)) (toc toc' : Toc env) (net net' net'' : Net)
      (body : UpsertPointsResponse) (n : ℕ) (p : Point Value)
      → All (PayloadRoundTrips env) points
      → All (RoundTrips env) (filter_map numeric points)
      → n < u64_limit
      → lookup (PointId.id n) (by_id (filter_map numeric points)) ≡ some p
      → PointsService.upsert_points env toc (upsert_request env shard points) net
        ≡ some (ok body, toc', net')
      → get_point env shard.collection (show n) toc' net''
        ≡ some (success (record { result = record { point = p } }), net'')
  unfolding get_point first_point time upsert_request
  get_point-upsert_request laws order shard points toc toc' net net' net'' body n p payloads trips
        small found done =
      let sent = filter_map numeric points in
      let decoded = from_grpc-upsert_request env shard points payloads in
      let (c, c', upserted, now) =
        served_inv toc toc' (upsert_request env shard points) sent net net' body decoded done in
      let read =
        get_points-upsert_points env laws order c c' sent trips true net net' upserted
          (PointId.id n) p false net'' (numeric-apart n points) found in
      let answer =
        retrieve_points_lem env toc' shard.collection (some (PointId.id n ∷ [])) net'' net'' c'
          (p ∷ []) now read in
      rw (path_id-show n small, answer)
