-- ===== src/Api/Points/ReadBack.antt =====
-- What a client reads after it has written, over the HTTP handlers.
use smoldb.Prelude.{
  ℕ, ◌<◌, ◌≡◌, inl, inr, List, [], ◌∷◌, Bool, false, some, ok, arith, lookup, All, Option-cases,
  Result-cases,
}
use smoldb.Decimal.{show, u64_limit}
use smoldb.Decimal.RoundTrip.{parse-show}
use smoldb.Types.{CollectionName}
use smoldb.Storage.Point.{PointId, Point, into_string, point_id_eq}
use smoldb.Storage.Segment.Writes.{RoundTrips}
use smoldb.Storage.Collection.ById.{by_id}
use smoldb.Storage.Collection.ReadBack.{get_points-upsert_points}
use smoldb.Storage.Toc.{Toc, PointsOperation, perform_points_op}
use smoldb.Storage.Toc.Points.{perform_points_op_inv, retrieve_points_lem}
use smoldb.Api.Helpers.{ApiSuccessResponse, success, time}
use smoldb.Api.Points.{UpsertPointsResponse, path_id, first_point, upsert_points, get_point}
use smoldb.External.{Env, SledLaws, OrderLaws}

-- A number in a path is the id of that number.
pub path_id-show : (n : ℕ) → n < u64_limit → path_id (show n) ≡ PointId.id n
unfolding path_id
path_id-show n h = rw (parse-show u64_limit n h, path_id)

module _ (env : Env) where
  open env use {Value, Net}

  pub upsert_points_inv :
      (name : CollectionName) (points : List (Point Value)) (toc toc' : Toc env) (net net' : Net)
      (body : ApiSuccessResponse UpsertPointsResponse)
      → upsert_points env name points toc net ≡ some (success body, toc', net')
      → (b : Bool) × (perform_points_op env toc name (PointsOperation.upsert points) net
          ≡ some (ok b, toc', net'))
  unfolding upsert_points time
  upsert_points_inv name points toc toc' net net' body e =
      elim (Option-cases (perform_points_op env toc name (PointsOperation.upsert points) net)) [
        | inl q ↦ absurd (ground arith)
        | inr (step, q) ↦ elim (Result-cases step.0) [
          | inr (x, v) ↦ absurd (ground arith)
          | inl (b, v) ↦ (b, ground arith)
        ]
      ]

  -- After a PUT of points that was answered by 200, a GET of a numeric id of the batch is answered by
  -- 200 with the last point of the batch that has the id, if no point of the batch has the text of
  -- the number as its uuid, the texts of the points read back, and `SledLaws` and `OrderLaws` hold.
  pub get_point-upsert_points :
      (laws : SledLaws env) (order : OrderLaws env) (name : CollectionName)
      (points : List (Point Value)) (toc toc' : Toc env) (net net' net'' : Net)
      (body : ApiSuccessResponse UpsertPointsResponse) (n : ℕ) (p : Point Value)
      → All (RoundTrips env) points
      → n < u64_limit
      → All (λ q. into_string q.id ≡ show n → q.id ≡ PointId.id n) points
      → lookup (PointId.id n) (by_id points) ≡ some p
      → upsert_points env name points toc net ≡ some (success body, toc', net')
      → get_point env name (show n) toc' net''
        ≡ some (success (record { result = record { point = p } }), net'')
  unfolding get_point into_string first_point time
  get_point-upsert_points laws order name points toc toc' net net' net'' body n p trips small apart
        found done =
      let (b, performed) = upsert_points_inv name points toc toc' net net' body done in
      let (c, c', was, upserted, now) =
        perform_points_op_inv env toc toc' name points net net' b performed in
      let read =
        get_points-upsert_points env laws order c c' points trips false net net' upserted
          (PointId.id n) p false net'' apart found in
      let answer =
        retrieve_points_lem env toc' name (some (PointId.id n ∷ [])) net'' net'' c' (p ∷ []) now
          read in
      rw (path_id-show n small, answer)
