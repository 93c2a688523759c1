-- ===== src/Grpc/PointsService.antt =====
-- api/grpc/points_service.rs: the points service for the other peers. `none` is a panic of an
-- `unwrap`.
use smoldb.Prelude.{
  List, [], ◌∷◌, map, true, Option, none, some, ◌>>=◌, ok, err, lookup, insert, string_eq,
  filter_map, format, if◌then◌else◌,
}
use smoldb.Types.{CollectionName}
use smoldb.Storage.Error.{show_collection_error}
use smoldb.Storage.Point.{PointId}
use smoldb.Storage.Collection
use smoldb.Storage.RemoteShard.{to_grpc, from_grpc}
use smoldb.Storage.Toc.{Toc}
use smoldb.Grpc.Schema.{
  GetPointsRequest, GetPointsResponse, UpsertPointsRequest, UpsertPointsResponse,
}
use smoldb.Grpc.Status.{Status, Answer, internal, not_found}
use smoldb.External.{Env}

abbrev pub unknown_collection : CollectionName → Status
unknown_collection name = not_found (format ("Collection '" ∷ name ∷ "' not found" ∷ []))

-- the ids of a request, or all
unfoldable pub requested_ids : GetPointsRequest → Option (List PointId)
requested_ids request = if request.return_all then none else some (map PointId.id request.ids)

module _ (env : Env) where
  open env use {Text, Net}

  unfoldable pub get_points :
      Toc env → GetPointsRequest → Net → Option (Answer (GetPointsResponse Text) × Net)
  get_points toc request net = elim (lookup request.collection_name toc.collections) [
    | none ↦ some (err (unknown_collection request.collection_name), net)
    | some c ↦ (do
      (points, net') ← Collection.get_points env c (requested_ids request) request.shard_id true net
      elim points [
        | err e ↦ some (
          err (
              internal (
                format (
                  "Failed to retrieve points from collection '"
                  ∷ request.collection_name
                  ∷ "': "
                  ∷ show_collection_error e
                  ∷ []))),
          net',
        )
        | ok found ↦ some (ok (record { points = filter_map (to_grpc env) found }), net')
      ])
  ]

  unfoldable pub upsert_points :
      Toc env
      → UpsertPointsRequest Text
      → Net
      → Option (Answer UpsertPointsResponse × Toc env × Net)
  upsert_points toc request net = elim (lookup request.collection_name toc.collections) [
    | none ↦ some (err (unknown_collection request.collection_name), toc, net)
    | some c ↦ (do
      points ← from_grpc env request.points
      (done, c', net') ← Collection.upsert_points env c points true net
      let toc' = record toc { collections = insert request.collection_name c' toc.collections }
      elim done [
        | err e ↦ some (
          err (
              internal (
                format (
                  "Failed to upsert points in collection '"
                  ∷ request.collection_name
                  ∷ "': "
                  ∷ show_collection_error e
                  ∷ []))),
          toc',
          net',
        )
        | ok _ ↦ some (ok (record { message = "Upsert operation completed" }), toc', net')
      ])
  ]
