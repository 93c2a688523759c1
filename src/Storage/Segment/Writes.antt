-- ===== src/Storage/Segment/Writes.antt =====
-- What is read from a segment after points were inserted.
use smoldb.Prelude.{
  String, ◌≡◌, ◌∙◌, List, [], ◌∷◌, Option, some, Result, ok, arith, ◌==◌, All, string_eq,
  Result-cases, ap, inl, inr, if◌then◌else◌,
}
use smoldb.Storage.Error.{StorageError}
use smoldb.Storage.Point.{PointId, Point, into_string}
use smoldb.Storage.Segment.{
  Segment, insert_point, insert_each, flush, insert_points, read_one, parse_point,
}
use smoldb.External.{Env, SledLaws}

module _ {ℓ} {V : Type 0} {R : Type ℓ} where
  -- The last of the points that stands under a key, or what was there before.
  unfoldable pub last_under : String → List (Point V) → (Point V → R) → R → R
  last_under key [] found old = old
  last_under key (point ∷ points) found old =
      last_under key points found (if into_string point.id == key then found point else old)

module _ (env : Env) where
  open env use {Value, Text, point_to_text, text_to_point, Db, db_insert, db_flush, db_get}

  -- The text of a point reads back as the point.
  abbrev pub RoundTrips : Point Value → Type 0
  RoundTrips p = (t : Text) → point_to_text p ≡ ok t → text_to_point t ≡ ok p

  abbrev pub Read : Type 0
  Read = Result StorageError (Option (Point Value))

  abbrev pub present : Point Value → Read
  present p = ok (some p)

  module _ (laws : SledLaws env) where
    insert_point_inv :
        (db db' : Db) (p : Point Value)
        → insert_point env db p ≡ (ok tt, db')
        → (t : Text) × (point_to_text p ≡ ok t) × (db_insert db (into_string p.id) t ≡ (ok tt, db'))
    unfolding insert_point
    insert_point_inv db db' p e = elim (Result-cases (point_to_text p)) [
      | inl (t, q) ↦ (t, q, ground arith)
      | inr (x, q) ↦ absurd (ground arith)
    ]

    pub read_one-insert_point :
        (db db' : Db) (p : Point Value) (pid : PointId)
        → RoundTrips p
        → insert_point env db p ≡ (ok tt, db')
        → read_one env db' pid
          ≡ (if into_string p.id == into_string pid then present p else read_one env db pid)
    unfolding read_one parse_point
    read_one-insert_point db db' p pid trips e =
        let (t, q, inserted) = insert_point_inv db db' p e in
        ground (
          arith,
          trips t q,
          laws.get_inserted db db' (into_string p.id) (into_string pid) t inserted,
        )

    read_one-insert_each :
        (db db' : Db) (ps : List (Point Value)) (pid : PointId)
        → All RoundTrips ps
        → insert_each env db ps ≡ (ok tt, db')
        → read_one env db' pid ≡ last_under (into_string pid) ps present (read_one env db pid)
    unfolding insert_each last_under
    read_one-insert_each db db' [] pid trips e = ground arith
    read_one-insert_each db db' (p ∷ ps) pid trips e =
        let step = insert_point env db p in
        elim (Result-cases step.0) [
          | inl (u, q) ↦
              read_one-insert_each step.1 db' ps pid trips.1 (ground arith)
              ∙ ap (last_under (into_string pid) ps present)
                  (read_one-insert_point db step.1 p pid trips.0 (ground arith))
          | inr (x, q) ↦ absurd (ground arith)
        ]

    pub read_one-flush :
        (db db' : Db) (pid : PointId)
        → flush env db ≡ (ok tt, db')
        → read_one env db' pid ≡ read_one env db pid
    unfolding flush read_one
    read_one-flush db db' pid e =
        let same = laws.get_flushed db db' (into_string pid) (ground arith) in ground arith

    -- After points were inserted with no error, what is read under an id is the last of them that
    -- has its key, and for a key that none of them has, what was read before.
    -- Assumed: the texts of the points read back, and the laws of sled.
    pub read_one-insert_points :
        (segment segment' : Segment Db) (ps : List (Point Value)) (pid : PointId)
        → All RoundTrips ps
        → insert_points env segment ps ≡ (ok tt, segment')
        → read_one env segment'.db pid
          ≡ last_under (into_string pid) ps present (read_one env segment.db pid)
    unfolding insert_points
    read_one-insert_points segment segment' ps pid trips e =
        let step = insert_each env segment.db ps in
        elim (Result-cases step.0) [
          | inl (u, q) ↦
              read_one-flush step.1 segment'.db pid (ground arith)
              ∙ read_one-insert_each segment.db step.1 ps pid trips (ground arith)
          | inr (x, q) ↦ absurd (ground arith)
        ]
