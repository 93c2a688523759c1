-- ===== src/Storage/Segment/Concurrent/Orders.antt =====
-- What is read after two calls of `Segment::insert_points` of storage/segment.rs that ran at the same
-- time.
use mathlib.Core.Path.{subst}
use smoldb.Prelude.{
  ◌≡◌, refl, ◌∙◌, sym, ap, inl, inr, List, [], ◌∷◌, Bool, true, false, ok, err, arith, All,
  string_eq, Result-cases, suc, length, ◌⊎◌, ◌≤◌,
}
use smoldb.Storage.Error.{StorageError}
use smoldb.Storage.Point.{PointId, Point, into_string}
use smoldb.Storage.Segment.{insert_point, flush, read_one}
use smoldb.Storage.Segment.Writes.{
  last_under, RoundTrips, present, read_one-insert_point, read_one-flush,
}
use smoldb.Storage.Segment.Concurrent.{
  Writer, inserting, returned, Interleave, end, left, Interleave-swap, advance, run, succeeded,
  run-failed, remaining, turns, Failed, Writer-cases, run-steps_left,
}
use smoldb.External.{Env, SledLaws}

module _ (env : Env) where
  open env use {Value, Db}

  -- What is read afterwards is what the points left in this order.
  abbrev pub Leaves : List (Point Value) → Db → Db → Type 0
  Leaves zs db db' =
      (pid : PointId)
      → read_one env db' pid ≡ last_under (into_string pid) zs (present env) (read_one env db pid)

  module _ (laws : SledLaws env) where
    insert-Leaves :
        (p : Point Value) (zs : List (Point Value)) (db db1 db' : Db)
        → RoundTrips env p
        → insert_point env db p ≡ (ok tt, db1)
        → Leaves zs db1 db'
        → Leaves (p ∷ zs) db db'
    unfolding last_under
    insert-Leaves p zs db db1 db' trips e h pid =
        h pid
        ∙ ap (last_under (into_string pid) zs (present env))
            (read_one-insert_point env laws db db1 p pid trips e)

    flush-Leaves :
        (zs : List (Point Value)) (db db1 db' : Db)
        → flush env db ≡ (ok tt, db1)
        → Leaves zs db1 db'
        → Leaves zs db db'
    flush-Leaves zs db db1 db' e h pid =
        h pid
        ∙ ap (last_under (into_string pid) zs (present env)) (read_one-flush env laws db db1 pid e)

    -- What one step of a call did: it failed, or it wrote no point, or it wrote the first point left.
    data Advanced (v v' : Writer Value) (db db1 : Db) : Type 0 where
      failed : (e : StorageError) → v' ≡ returned (err e) → Advanced v v' db db1
      kept :
          remaining v' ≡ remaining v
          → ((zs : List (Point Value)) (db' : Db) → Leaves zs db1 db' → Leaves zs db db')
          → Advanced v v' db db1
      wrote :
          (p : Point Value)
          → p ∷ remaining v' ≡ remaining v
          → ((zs : List (Point Value)) (db' : Db) → Leaves zs db1 db' → Leaves (p ∷ zs) db db')
          → Advanced v v' db db1

    advance-Advanced :
        (v : Writer Value) (db : Db)
        → All (RoundTrips env) (remaining v)
        → Advanced v (advance env v db).0 db (advance env v db).1
    unfolding advance
    advance-Advanced (inserting (p ∷ ps)) db trips =
        let db1 = (advance env (inserting (p ∷ ps)) db).1 in
        elim (Result-cases (insert_point env db p).0) [
          | inl (u, q) ↦
              wrote p (ground arith) λ zs db'. insert-Leaves p zs db db1 db' trips.0 (ground arith)
          | inr (e, q) ↦ failed e (ground arith)
        ]
    advance-Advanced (inserting []) db trips = elim (Result-cases (flush env db).0) [
      | inl (u, q) ↦
          kept refl
            λ zs db'. flush-Leaves zs db (advance env (inserting []) db).1 db' (ground arith)
      | inr (e, q) ↦ failed e (ground arith)
    ]
    advance-Advanced (returned result) db trips = kept refl λ zs db' h. h

    Written : Writer Value → Writer Value → Db → Db → Type 0
    Written v w db db' =
        (zs : List (Point Value)) × Interleave (remaining v) (remaining w) zs × Leaves zs db db'

    -- The order of the two calls does not matter to what they wrote.
    Written-swap : (v w : Writer Value) (db db' : Db) → Written v w db db' → Written w v db db'
    unfolding Written
    Written-swap v w db db' (zs, both, leaves) = (zs, Interleave-swap both, leaves)

    -- A step that did not fail, before the steps that wrote the rest.
    step-Written :
        (v v' w : Writer Value) (db db1 db' : Db)
        → Advanced v v' db db1
        → ((e : StorageError) → ¬ (v' ≡ returned (err e)))
        → All (RoundTrips env) (remaining v)
        → (All (RoundTrips env) (remaining v') → Written v' w db1 db')
        → Written v w db db'
    unfolding Written
    step-Written v v' w db db1 db' (failed e q) going trips rest = absurd (going e q)
    step-Written v v' w db db1 db' (kept q moves) going trips rest =
        let (zs, both, leaves) = rest (subst (All (RoundTrips env)) (sym q) trips) in
        (zs, subst (λ xs. Interleave xs (remaining w) zs) q both, moves zs db' leaves)
    step-Written v v' w db db1 db' (wrote p q moves) going trips rest =
        let (zs, both, leaves) = rest (subst (All (RoundTrips env)) (sym q) trips).1 in
        (
          p ∷ zs,
          subst (λ xs. Interleave xs (remaining w) (p ∷ zs)) q (left both),
          moves zs db' leaves,
        )

    run-Written :
        (schedule : List Bool) (v w : Writer Value) (db db' : Db)
        → All (RoundTrips env) (remaining v)
        → All (RoundTrips env) (remaining w)
        → run env schedule v w db ≡ (succeeded, succeeded, db')
        → Written v w db db'
    unfolding run Written last_under
    run-Written [] v w db db' tv tw e = (
      [],
      subst {A = Writer Value × Writer Value × Db}
          (λ x. Interleave (remaining x.0) (remaining x.1) []) (sym e) end,
      λ pid. ap {A = Writer Value × Writer Value × Db} (λ r. read_one env r.2 pid) (sym e),
    )
    run-Written (true ∷ schedule) v w db db' tv tw e =
        let (v', db1) = advance env v db in
        step-Written v v' w db db1 db' (advance-Advanced v db tv)
          (λ x q. let stays = (run-failed env schedule v' w db1 x).0 q in ground arith) tv
          λ tv'. run-Written schedule v' w db1 db' tv' tw e
    run-Written (false ∷ schedule) v w db db' tv tw e =
        let (w', db1) = advance env w db in
        Written-swap w v db db' (
          step-Written w w' v db db1 db' (advance-Advanced w db tw)
            (λ x q. let stays = (run-failed env schedule v w' db1 x).1 q in ground arith) tw
            λ tw'. Written-swap v w' db1 db' (run-Written schedule v w' db1 db' tv tw' e))

    -- Two calls of `insert_points` run at the same time, step by step in any order that gives each of
    -- them enough steps. Then one of them fails, or both succeed and the points of both stand in
    -- one order, which keeps the order of each call, such that what is read under each id is the
    -- last of them that has its key, or what was read before when none has it.
    -- Assumed: the texts of the points read back, and the laws of sled.
    pub run-Interleave :
        (schedule : List Bool) (ps qs : List (Point Value)) (db : Db)
        → All (RoundTrips env) ps
        → All (RoundTrips env) qs
        → suc (length ps) ≤ turns true schedule
        → suc (length qs) ≤ turns false schedule
        → let (v, w, db') = run env schedule (inserting ps) (inserting qs) db in
          Failed v ⊎ Failed w ⊎ (zs : List (Point Value)) × Interleave ps qs zs × Leaves zs db db'
    unfolding Written
    run-Interleave schedule ps qs db tp tq lp lq =
        let (v, w, db') = run env schedule (inserting ps) (inserting qs) db in
        let (sv, sw) = run-steps_left env schedule (inserting ps) (inserting qs) db lp lq in
        elim (Writer-cases v sv) [
          | inr failed_first ↦ inl failed_first
          | inl q ↦ elim (Writer-cases w sw) [
            | inr failed_second ↦ inr (inl failed_second)
            | inl r ↦ inr (
                inr
                  (run-Written schedule (inserting ps) (inserting qs) db db' tp tq (ground arith)))
          ]
        ]
