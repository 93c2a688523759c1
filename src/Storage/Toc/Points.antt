-- ===== src/Storage/Toc/Points.antt =====
-- The point operations of the table, by those of the collection.
use smoldb.Prelude.{
  ◌≡◌, inl, inr, List, Bool, false, Option, none, some, ok, arith, lookup, insert, lookup-insert,
  string_eq, beq_refl, Option-cases, Result-cases,
}
use smoldb.Types.{CollectionName}
use smoldb.Storage.Point.{PointId, Point}
use smoldb.Storage.Collection
use smoldb.Storage.Collection.{Collection}
use smoldb.Storage.Toc.{Toc, PointsOperation, perform_points_op, retrieve_points}
use smoldb.External.{Env}

module _ (env : Env) where
  open env use {Value, Db, Ring, Net}

  -- An upsert that succeeds is one of the collection with that name, which it replaces.
  pub perform_points_op_inv :
      (toc toc' : Toc env) (name : CollectionName) (points : List (Point Value)) (net net' : Net)
      (b : Bool)
      → perform_points_op env toc name (PointsOperation.upsert points) net ≡ some (ok b, toc', net')
      → (c : Collection Db Ring) × (c' : Collection Db Ring) × (lookup name toc.collections
          ≡ some c)
        × (Collection.upsert_points env c points false net ≡ some (ok tt, c', net'))
        × (lookup name toc'.collections ≡ some c')
  unfolding perform_points_op
  perform_points_op_inv toc toc' name points net net' b e =
      elim (Option-cases (lookup name toc.collections)) [
        | inl q ↦ absurd (ground arith)
        | inr (c, q) ↦ elim (Option-cases (Collection.upsert_points env c points false net)) [
          | inl r ↦ absurd (ground arith)
          | inr (step, r) ↦ elim (Result-cases step.0) [
            | inr (x, v) ↦ absurd (ground arith)
            | inl (u, v) ↦
                let after : toc' ≡ record toc { collections = insert name step.1 toc.collections } =
                  ground arith in
                (c, step.1, q, ground arith, rw (after, lookup-insert, beq_refl name))
          ]
        ]
      ]

  pub retrieve_points_lem :
      (toc : Toc env) (name : CollectionName) (pids : Option (List PointId)) (net net' : Net)
      (c : Collection Db Ring) (found : List (Point Value))
      → lookup name toc.collections ≡ some c
      → Collection.get_points env c pids none false net ≡ some (ok found, net')
      → retrieve_points env toc name pids net ≡ some (ok found, net')
  unfolding retrieve_points
  retrieve_points_lem toc name pids net net' c found q e = ground arith
