-- ===== src/Storage/Point.antt =====
-- `PointId` and `Point` of storage/segment.rs. The payload is a value of serde_json, whose type is
-- a parameter.
use smoldb.Prelude.{
  ℕ, String, ◌≡◌, ◌↔◌, Bool, false, arith, Eq, ◌==◌, nat_eq, string_eq, nat_beq_iff,
}
use text.Mathlib.TextEquality.{eq_iff}
use smoldb.Decimal.{show}

pub data PointId : Type 0 where
  id : ℕ → PointId
  uuid : String → PointId

-- `PointId::into_string`: the key of a point in the database
unfoldable pub into_string : PointId → String
into_string (id n) = show n
into_string (uuid s) = s

pub record Point (V : Type 0) : Type 0 where
  pub id : PointId
  pub payload : V

abbrev pub point_id_beq : PointId → PointId → Bool
point_id_beq (id a) (id b) = a == b
point_id_beq (uuid s) (uuid t) = s == t
point_id_beq _ _ = false

pub point_id_beq_iff : (a b : PointId) → (point_id_beq a b ≡ Bool.true) ↔ (a ≡ b)
point_id_beq_iff (id a) (id b) = ground (arith, nat_beq_iff a b)
point_id_beq_iff (uuid s) (uuid t) = ground (arith, eq_iff s t)
point_id_beq_iff (id a) (uuid t) = ground arith
point_id_beq_iff (uuid s) (id b) = ground arith

instance abbrev pub point_id_eq : Eq PointId
point_id_eq = record { beq = point_id_beq; beq_iff = point_id_beq_iff }
