-- ===== src/Api/Points.antt =====
-- api/points.rs: the handlers for points
pub mod ReadBack
pub mod History
use smoldb.Prelude.{
  ℕ, String, List, [], ◌∷◌, Option, none, some, ◌>>=◌, Result, ok, err, length, format,
}
use smoldb.Decimal.{parse_uint, u64_limit}
use smoldb.Types.{CollectionName}
use smoldb.Storage.Error.{StorageError, CollectionError, CollectionResult, show_storage_error}
use smoldb.Storage.Point.{PointId, Point}
use smoldb.Storage.Toc.{Toc, PointsOperation, perform_points_op, retrieve_points}
use smoldb.Api.Helpers.{HttpResponse, time}
use smoldb.External.{Env}

pub record UpsertPointsResponse : Type 0 where
  pub num_points : ℕ

pub record GetPointResponse (V : Type 0) : Type 0 where
  pub point : Point V

pub record ListPointsResponse (V : Type 0) : Type 0 where
  pub points : List (Point V)

-- The id of a path is a number if it parses as one.
unfoldable pub path_id : String → PointId
path_id id = elim (parse_uint u64_limit id) [ some n ↦ PointId.id n | none ↦ PointId.uuid id ]

-- the `match result` of `get_point`
unfoldable pub first_point :
    {V : Type 0}
    → String
    → CollectionName
    → Result StorageError (List (Point V))
    → CollectionResult (GetPointResponse V)
first_point id name (ok []) = err (
    CollectionError.service_error
      (format ("Point with id '" ∷ id ∷ "' not found in collection '" ∷ name ∷ "'" ∷ [])))
first_point id name (ok (p ∷ ps)) = ok (record { point = p })
first_point id name (err e) = err (
    CollectionError.service_error (
      format (
        "Error retrieving point with id '"
        ∷ id
        ∷ "' in collection '"
        ∷ name
        ∷ "': "
        ∷ show_storage_error e
        ∷ [])))

-- the `match result` of `list_points`
unfoldable pub some_points :
    {V : Type 0}
    → CollectionName
    → Result StorageError (List (Point V))
    → CollectionResult (ListPointsResponse V)
some_points name (ok []) =
    err
      (CollectionError.service_error (format ("No points found in collection '" ∷ name ∷ "'" ∷ [])))
some_points name (ok (p ∷ ps)) = ok (record { points = p ∷ ps })
some_points name (err e) = err (
    CollectionError.service_error
      (format ("Error listing points in collection '" ∷ name ∷ "': " ∷ show_storage_error e ∷ [])))

-- `perform_points_op(…).await?`
abbrev pub upsert_result :
    {A : Type 0} → ℕ → Result StorageError A → CollectionResult UpsertPointsResponse
upsert_result n (ok done) = ok (record { num_points = n })
upsert_result n (err e) = err (CollectionError.storage_error e)

module _ (env : Env) where
  open env use {Value, Net}

  unfoldable pub upsert_points :
      CollectionName
      → List (Point Value)
      → Toc env
      → Net
      → Option (HttpResponse UpsertPointsResponse × Toc env × Net)
  upsert_points name points toc net = do
    (done, toc', net') ← perform_points_op env toc name (PointsOperation.upsert points) net
    some (time (upsert_result (length points) done), toc', net')

  unfoldable pub get_point :
      CollectionName → String → Toc env → Net → Option (HttpResponse (GetPointResponse Value) × Net)
  get_point name id toc net = do
    (points, net') ← retrieve_points env toc name (some (path_id id ∷ [])) net
    some (time (first_point id name points), net')

  unfoldable pub list_points :
      CollectionName → Toc env → Net → Option (HttpResponse (ListPointsResponse Value) × Net)
  list_points name toc net = do
    (points, net') ← retrieve_points env toc name none net
    some (time (some_points name points), net')
