-- ===== src/Storage/Segment/Keys.antt =====
-- The keys of a segment, which a number and a uuid share.
use smoldb.Prelude.{
  ℕ, ◌+◌, ◌≡◌, ◌⊎◌, refl, ◌∙◌, sym, ap, inl, inr, [], ◌∷◌, ok, arith, beq_refl, string_eq,
}
use smoldb.Decimal.{show}
use smoldb.Decimal.RoundTrip.{show-injective}
use smoldb.Storage.Point.{PointId, Point, into_string}
use smoldb.Storage.Segment.{Segment, insert_points, read_one}
use smoldb.Storage.Segment.Writes.{RoundTrips, present, last_under, read_one-insert_points}
use smoldb.External.{Env, SledLaws}

-- A number and the uuid that is its text.
abbrev pub AreTwins : PointId → PointId → Type 0
AreTwins a b = (n : ℕ) × (a ≡ PointId.id n) × (b ≡ PointId.uuid (show n))

-- Two ids have the same key only if they are the same, or one is a number and the other the uuid
-- that is its text.
pub into_string_lem :
    (a b : PointId) → into_string a ≡ into_string b → (a ≡ b) ⊎ AreTwins a b ⊎ AreTwins b a
unfolding into_string
into_string_lem (PointId.id m) (PointId.id n) e =
    inl (ap PointId.id (show-injective (m + n + 1) m n (omega arith) (omega arith) e))
into_string_lem (PointId.uuid s) (PointId.uuid t) e = inl (ap PointId.uuid e)
into_string_lem (PointId.id n) (PointId.uuid s) e = inr (inl (n, refl, ap PointId.uuid (sym e)))
into_string_lem (PointId.uuid s) (PointId.id n) e = inr (inr (n, refl, ap PointId.uuid e))

module _ (env : Env) where
  open env use {Value, Db}

  -- the point under the text of a number
  abbrev pub twin : ℕ → Value → Point Value
  twin n v = record { id = PointId.uuid (show n); payload = v }

  -- After a point was inserted whose uuid is the text of a number, a read of that number gives this
  -- point, whatever was stored under the number before.
  -- Assumed: the text of the point reads back, and the laws of sled.
  pub read_one-twin :
      (laws : SledLaws env) (segment segment' : Segment Db) (n : ℕ) (v : Value)
      → RoundTrips env (twin n v)
      → insert_points env segment (twin n v ∷ []) ≡ (ok tt, segment')
      → read_one env segment'.db (PointId.id n) ≡ present env (twin n v)
  unfolding into_string
  read_one-twin laws segment segment' n v trips done =
      read_one-insert_points env laws segment segment' (twin n v ∷ []) (PointId.id n) (trips, tt)
        done
      ∙ unfold last_under in rw (beq_refl (show n)) refl
