-- ===== src/Storage/Segment/Concurrent.antt =====
-- Two calls of `Segment::insert_points` of storage/segment.rs that run at the same time. An insertion
-- into the database is one step, and so is the flush.
pub mod Orders
use smoldb.Prelude.{
  ◌≡◌, refl, ap, inl, inr, List, [], ◌∷◌, Bool, true, false, Result, ok, err, arith, Result-cases,
  ℕ, suc, ◌-◌, length, ◌⊎◌, ◌≤◌,
}
use smoldb.Storage.Error.{StorageError}
use smoldb.Storage.Point.{Point}
use smoldb.Storage.Segment.{Segment, insert_point, insert_each, insert_points, flush}
use smoldb.External.{Env}

-- How far a call is: the points that are left, or its result.
pub data Writer (V : Type 0) : Type 0 where
  inserting : List (Point V) → Writer V
  returned : Result StorageError (Unit {0}) → Writer V

-- The third list has the first two in their orders.
pub data Interleave {A : Type 0} : List A → List A → List A → Type 0 where
  end : Interleave [] [] []
  left : {x : A} {xs ys zs : List A} → Interleave xs ys zs → Interleave (x ∷ xs) ys (x ∷ zs)
  right : {y : A} {xs ys zs : List A} → Interleave xs ys zs → Interleave xs (y ∷ ys) (y ∷ zs)

pub Interleave-swap : {A : Type 0} {xs ys zs : List A} → Interleave xs ys zs → Interleave ys xs zs
Interleave-swap end = end
Interleave-swap (left both) = right (Interleave-swap both)
Interleave-swap (right both) = left (Interleave-swap both)

-- the steps that a schedule gives to the first call, or to the second one
abbrev pub turns : Bool → List Bool → ℕ
turns who [] = 0
turns true (true ∷ schedule) = suc (turns true schedule)
turns true (false ∷ schedule) = turns true schedule
turns false (true ∷ schedule) = turns false schedule
turns false (false ∷ schedule) = suc (turns false schedule)

-- a schedule that gives the first call all its steps, one after the other
abbrev alone : {A : Type 0} → List A → List Bool
alone [] = []
alone (x ∷ xs) = true ∷ alone xs

module _ {V : Type 0} where
  abbrev pub succeeded : Writer V
  succeeded = returned (ok tt)

  abbrev pub Failed : Writer V → Type 0
  Failed v = (e : StorageError) × (v ≡ returned (err e))

  abbrev pub remaining : Writer V → List (Point V)
  remaining (inserting ps) = ps
  remaining (returned result) = []

  -- the steps that a call still makes, the flush as well
  abbrev pub steps_left : Writer V → ℕ
  steps_left (inserting ps) = suc (length ps)
  steps_left (returned result) = 0

  pub Writer-cases : (v : Writer V) → steps_left v ≡ 0 → (v ≡ succeeded) ⊎ Failed v
  Writer-cases (inserting ps) q = absurd (omega arith)
  Writer-cases (returned (ok u)) q = inl refl
  Writer-cases (returned (err e)) q = inr (e, refl)

module _ (env : Env) where
  open env use {Value, Db}

  -- the next step of a call
  unfoldable pub advance : Writer Value → Db → Writer Value × Db
  advance (inserting (p ∷ ps)) db =
      let (done, db') = insert_point env db p in
      elim done [ err e ↦ (returned (err e), db') | ok _ ↦ (inserting ps, db') ]
  advance (inserting []) db = let (flushed, db') = flush env db in (returned flushed, db')
  advance (returned result) db = (returned result, db)

  -- The calls make steps in this order: the first one at `true`, the second one at `false`.
  unfoldable pub run :
      List Bool → Writer Value → Writer Value → Db → Writer Value × Writer Value × Db
  run [] v w db = (v, w, db)
  run (true ∷ schedule) v w db = let (v', db') = advance v db in run schedule v' w db'
  run (false ∷ schedule) v w db = let (w', db') = advance w db in run schedule v w' db'

  -- A call that failed stays failed.
  pub run-failed :
      (schedule : List Bool) (v w : Writer Value) (db : Db) (e : StorageError)
      → ((v ≡ returned (err e)) → (run schedule v w db).0 ≡ returned (err e))
        × ((w ≡ returned (err e)) → (run schedule v w db).1 ≡ returned (err e))
  unfolding run advance
  run-failed [] v w db e = (λ q. q, λ q. q)
  run-failed (true ∷ schedule) v w db e =
      let (v', db') = advance v db in
      let ih = run-failed schedule v' w db' e in (λ q. ih.0 (ap (λ x. (advance x db).0) q), ih.1)
  run-failed (false ∷ schedule) v w db e =
      let (w', db') = advance w db in
      let ih = run-failed schedule v w' db' e in (ih.0, λ q. ih.1 (ap (λ x. (advance x db).0) q))

  advance-steps_left : (v : Writer Value) (db : Db) → steps_left (advance v db).0 ≤ steps_left v - 1
  unfolding advance
  advance-steps_left (inserting (p ∷ ps)) db = ground arith
  advance-steps_left (inserting []) db = ground arith
  advance-steps_left (returned result) db = ground arith

  pub run-steps_left :
      (schedule : List Bool) (v w : Writer Value) (db : Db)
      → steps_left v ≤ turns true schedule
      → steps_left w ≤ turns false schedule
      → (steps_left (run schedule v w db).0 ≡ 0) × (steps_left (run schedule v w db).1 ≡ 0)
  unfolding run
  run-steps_left [] v w db lv lw = (omega arith, omega arith)
  run-steps_left (true ∷ schedule) v w db lv lw =
      let (v', db') = advance v db in
      let less = advance-steps_left v db in run-steps_left schedule v' w db' (ground arith) lw
  run-steps_left (false ∷ schedule) v w db lv lw =
      let (w', db') = advance w db in
      let less = advance-steps_left w db in run-steps_left schedule v w' db' lv (ground arith)

  run-returned :
      {A : Type 0} (xs : List A) (result : Result StorageError (Unit {0})) (w : Writer Value)
      (db : Db)
      → run (alone xs) (returned result) w db ≡ (returned result, w, db)
  unfolding run advance
  run-returned [] result w db = refl
  run-returned (x ∷ xs) result w db = run-returned xs result w db

  -- A call that nothing interrupts is `insert_points`.
  run-insert_points :
      (segment : Segment Db) (db : Db) (ps : List (Point Value)) (w : Writer Value)
      → let (result, after) = insert_points env (record segment { db = db }) ps in
        run (true ∷ alone ps) (inserting ps) w db ≡ (returned result, w, after.db)
  unfolding run advance insert_points insert_each
  run-insert_points segment db [] w = refl
  run-insert_points segment db (p ∷ ps) w =
      let (done, db1) = insert_point env db p in
      elim (Result-cases (insert_point env db p).0) [
        | inl (u, q) ↦ let rest = run-insert_points segment db1 ps w in ground arith
        | inr (e, q) ↦ let stays = run-returned ps (err e) w db1 in ground arith
      ]
