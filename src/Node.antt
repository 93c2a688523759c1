-- ===== src/Node.antt =====
-- The steps that a node's table of collections takes: what the HTTP handlers, the points service for
-- the peers, the peers that join and the node's own bootstrap do to it. Requests are served one at a
-- time.
pub mod Lifecycle
pub mod Invariant
pub mod Replication
pub mod Start
use smoldb.Prelude.{String, Option, some, ◌≡◌, Result, Bool, List}
use smoldb.Types.{PeerId, CollectionName}
use smoldb.Storage.Error.{StorageError}
use smoldb.Storage.Point.{Point}
use smoldb.Storage.Toc.{
  Toc, CollectionMetaOperation, PointsOperation, perform_collection_meta_op, perform_points_op,
}
use smoldb.Grpc.Schema.{UpsertPointsRequest, UpsertPointsResponse}
use smoldb.Grpc.Status.{Answer}
use smoldb.Grpc.PointsService
use smoldb.Consensus.State.{add_to_toc}
use smoldb.External.{Env}

module _ (env : Env) where
  open env use {Value, Text, Net, Disk}

  pub data Step (t u : Toc env) : Type 0 where
    meta_op :
        (op : CollectionMetaOperation) (d d' : Disk) (r : Result StorageError Bool)
        → perform_collection_meta_op env t op d ≡ some (r, u, d')
        → Step t u
    points_op :
        (name : CollectionName) (op : PointsOperation Value) (net net' : Net)
        (r : Result StorageError Bool)
        → perform_points_op env t name op net ≡ some (r, u, net')
        → Step t u
    peer_upsert :
        (request : UpsertPointsRequest Text) (net net' : Net) (r : Answer UpsertPointsResponse)
        → PointsService.upsert_points env t request net ≡ some (r, u, net')
        → Step t u
    peer_joins : (peer : PeerId) → u ≡ add_to_toc env peer t → Step t u

  pub data Reach (t : Toc env) : Toc env → Type 0 where
    start : Reach t t
    next : {u v : Toc env} → Reach t u → Step u v → Reach t v
