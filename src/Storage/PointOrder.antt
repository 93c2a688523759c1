-- ===== src/Storage/PointOrder.antt =====
-- The `BTreeMap` of points that a read of all points fills, as the list of its values in the order of
-- their ids.
pub mod Ids
pub mod Laws
use Prim.Native.Nat.{compare, Ordering}
use Prim.Native.String
use smoldb.Prelude.{List, [], ◌∷◌}
use smoldb.Storage.Point.{PointId, Point}

-- the `Ord` that is derived for `PointId`
unfoldable pub point_id_compare : PointId → PointId → Ordering
point_id_compare (PointId.id a) (PointId.id b) = compare a b
point_id_compare (PointId.id a) (PointId.uuid t) = Ordering.lt
point_id_compare (PointId.uuid s) (PointId.id b) = Ordering.gt
point_id_compare (PointId.uuid s) (PointId.uuid t) = String.compare s t

-- `if let Entry::Vacant(e) = all_points.entry(point.id)`, on the sorted values of the `BTreeMap`
unfoldable pub insert_vacant : {V : Type 0} → Point V → List (Point V) → List (Point V)
insert_vacant p [] = p ∷ []
insert_vacant p (q ∷ all_points) = elim (point_id_compare p.id q.id) [
  | Ordering.lt ↦ p ∷ q ∷ all_points
  | Ordering.eq ↦ q ∷ all_points
  | Ordering.gt ↦ q ∷ insert_vacant p all_points
]

unfoldable pub insert_all : {V : Type 0} → List (Point V) → List (Point V) → List (Point V)
insert_all [] all_points = all_points
insert_all (p ∷ ps) all_points = insert_all ps (insert_vacant p all_points)
