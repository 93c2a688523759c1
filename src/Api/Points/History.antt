-- ===== src/Api/Points/History.antt =====
-- What a client reads after any writes, against a table from names and ids to points.
use mathlib.Core.Path.{subst}
use smoldb.Prelude.{
  ◌⊎◌, ℕ, ◌<◌, ◌≡◌, ◌≢◌, refl, ◌>>=◌, inl, inr, List, [], ◌∷◌, map, Bool, false, Option, none, some,
  ok, arith, HashMap, lookup, insert, collect, lookup-insert, string_eq, ◌==◌, push_some, All,
  Option-cases, Bool-cases, if◌then◌else◌,
}
use smoldb.Decimal.{show, u64_limit}
use smoldb.Types.{CollectionName}
use smoldb.Storage.Point.{PointId, Point, into_string, point_id_eq}
use smoldb.Storage.Segment.Writes.{RoundTrips}
use smoldb.Storage.Collection
use smoldb.Storage.Collection.{Collection}
use smoldb.Storage.Collection.ById.{by_id}
use smoldb.Storage.Collection.ReadBack.{get_points-upsert_points, get_points-upsert_points_ne}
use smoldb.Storage.Toc.{Toc, PointsOperation, perform_points_op}
use smoldb.Storage.Toc.Points.{perform_points_op_inv, retrieve_points_lem}
use smoldb.Api.Helpers.{
  ApiSuccessResponse, ApiErrorResponse, HttpResponse, success, internal_server_error, time,
}
use smoldb.Api.Points.{upsert_points, get_point, first_point}
use smoldb.Api.Points.ReadBack.{path_id-show, upsert_points_inv}
use smoldb.External.{Env, SledLaws, OrderLaws}

-- PUT requests: the collection of each and its points.
abbrev pub Puts : Type 0 → Type 0
Puts V = List (CollectionName × List (Point V))

-- The abstract table, and what a request does to it.
abbrev pub Table : Type 0 → Type 0
Table V = CollectionName → PointId → Option (Point V)

abbrev pub over : {V : Type 0} → Option (Point V) → Option (Point V) → Option (Point V)
over none old = old
over (some p) old = some p

abbrev pub put : {V : Type 0} → CollectionName → List (Point V) → Table V → Table V
put name points table j pid =
    if name == j then over (lookup pid (by_id points)) (table j pid) else table j pid

unfoldable pub replay : {V : Type 0} → Puts V → Table V → Table V
replay [] table = table
replay ((name, points) ∷ puts) table = replay puts (put name points table)

-- An id that no point of a batch has is not found by id.
absent_ids :
    {V : Type 0} (points : List (Point V)) (m : HashMap PointId (Point V)) (pid : PointId)
    → lookup pid (collect (map (λ p. (p.id, p)) points) m) ≡ none
    → All (λ q. q.id ≢ pid) points × (lookup pid m ≡ none)
unfolding collect
absent_ids [] m pid e = (tt, e)
absent_ids (q ∷ points) m pid e =
    let (rest, before) = absent_ids points (insert q.id q m) pid e in
    let step = lookup-insert q.id pid q m in
    elim (Bool-cases (q.id == pid)) [
      | inl same ↦ absurd (ground arith)
      | inr other ↦ ((λ h. ground (arith, point_id_eq.beq_iff q.id pid), rest), ground arith)
    ]

apart_keys :
    {V : Type 0} (points : List (Point V)) (pid : PointId)
    → All (λ q. into_string q.id ≡ into_string pid → q.id ≡ pid) points
    → All (λ q. q.id ≢ pid) points
    → All (λ q. into_string q.id ≢ into_string pid) points
apart_keys [] pid h k = tt
apart_keys (q ∷ points) pid h k = (λ e. k.0 (h.0 e), apart_keys points pid h.1 k.1)

response_cases :
    {T : Type 0} (r : HttpResponse T)
    → ((body : ApiSuccessResponse T) × (r ≡ success body))
      ⊎ ((body : ApiErrorResponse) × (r ≡ internal_server_error body))
response_cases (success body) = inl (body, refl)
response_cases (internal_server_error body) = inr (body, refl)

module _ (env : Env) where
  open env use {Value, Db, Ring, Net}

  -- The requests one after another, as long as each is answered by 200.
  unfoldable pub run : Puts Value → Toc env → Net → Option (Toc env × Net)
  run [] toc net = some (toc, net)
  run ((name, points) ∷ puts) toc net = do
    (response, toc', net') ← upsert_points env name points toc net
    elim response [ success body ↦ run puts toc' net' | internal_server_error body ↦ none ]

  -- What is asked of the points of the requests, for the id that is read: their texts read back, and
  -- none has the key of the id under another id.
  abbrev pub Fits : PointId → Puts Value → Type 0
  Fits pid puts =
      All
        (λ (e : CollectionName × List (Point Value)).
          All (RoundTrips env) e.1 × All (λ q. into_string q.id ≡ into_string pid → q.id ≡ pid) e.1)
        puts

  -- Every collection that is there shows the points of the abstract table under the id.
  pub record Shows (pid : PointId) (toc : Toc env) (table : Table Value) : Type 0 where
    pub shown :
        (name : CollectionName) (c : Collection Db Ring) (net : Net)
        → lookup name toc.collections ≡ some c
        → Collection.get_points env c (some (pid ∷ [])) none false net
          ≡ some (ok (push_some (table name pid) []), net)

  lookup-perform_points_op :
      (toc toc' : Toc env) (name : CollectionName) (points : List (Point Value)) (net net' : Net)
      (b : Bool) (c c' : Collection Db Ring)
      → lookup name toc.collections ≡ some c
      → Collection.upsert_points env c points false net ≡ some (ok tt, c', net')
      → perform_points_op env toc name (PointsOperation.upsert points) net ≡ some (ok b, toc', net')
      → (j : CollectionName)
      → lookup j toc'.collections ≡ (if name == j then some c' else lookup j toc.collections)
  unfolding perform_points_op
  lookup-perform_points_op toc toc' name points net net' b c c' at done e j =
      let after : record toc { collections = insert name c' toc.collections } ≡ toc' =
        ground arith in
      rw (← after, lookup-insert) refl

  module _ (laws : SledLaws env) (order : OrderLaws env) (pid : PointId) where
    upsert_points-Shows :
        (name : CollectionName) (points : List (Point Value)) (c c' : Collection Db Ring)
        (net net' : Net) (old : Option (Point Value))
        → All (RoundTrips env) points
        → All (λ q. into_string q.id ≡ into_string pid → q.id ≡ pid) points
        → Collection.upsert_points env c points false net ≡ some (ok tt, c', net')
        → ((n : Net)
            → Collection.get_points env c (some (pid ∷ [])) none false n
              ≡ some (ok (push_some old []), n))
        → (n : Net)
        → Collection.get_points env c' (some (pid ∷ [])) none false n
          ≡ some (ok (push_some (over (lookup pid (by_id points)) old) []), n)
    upsert_points-Shows name points c c' net net' old trips apart done before n =
        elim (Option-cases (lookup pid (by_id points))) [
          | inr (p, found) ↦ rw found (
              get_points-upsert_points env laws order c c' points trips false net net' done pid p
                false n apart found)
          | inl absent ↦ rw absent (
              get_points-upsert_points_ne env laws order c c' points trips false net net' done pid
                (push_some old []) false n
                (apart_keys points pid apart (absent_ids points [] pid absent).0) (before n))
        ]

    put-Shows :
        (name : CollectionName) (points : List (Point Value)) (toc toc' : Toc env) (net net' : Net)
        (b : Bool) (table : Table Value)
        → All (RoundTrips env) points
        → All (λ q. into_string q.id ≡ into_string pid → q.id ≡ pid) points
        → perform_points_op env toc name (PointsOperation.upsert points) net
          ≡ some (ok b, toc', net')
        → Shows pid toc table
        → Shows pid toc' (put name points table)
    put-Shows name points toc toc' net net' b table trips apart done h =
        let (c, c', was, upserted, now) =
          perform_points_op_inv env toc toc' name points net net' b done in
        let entries =
          lookup-perform_points_op toc toc' name points net net' b c c' was upserted done in
        record {
          shown = λ j d n at. elim (Bool-cases (name == j)) [
            | inl same ↦
                let here : name ≡ j = (string_eq.beq_iff name j).0 same in
                let new : c' ≡ d = ground (arith, entries j) in
                rw (same, ← new)
                  (upsert_points-Shows name points c c' net net' (table j pid) trips apart upserted
                    (λ m. h.shown j c m (rw here at was)) n)
            | inr other ↦ rw other (h.shown j d n (ground (arith, entries j)))
          ];
        }

    run-Shows :
        (puts : Puts Value) (toc toc' : Toc env) (net net' : Net) (table : Table Value)
        → Fits pid puts
        → run puts toc net ≡ some (toc', net')
        → Shows pid toc table
        → Shows pid toc' (replay puts table)
    unfolding run replay
    run-Shows [] toc toc' net net' table fits e h =
        let same : toc ≡ toc' = ground arith in subst (λ t. Shows pid t table) same h
    run-Shows ((name, points) ∷ puts) toc toc' net net' table fits e h =
        elim (Option-cases (upsert_points env name points toc net)) [
          | inl q ↦ absurd (ground arith)
          | inr (step, q) ↦ elim (response_cases step.0) [
            | inr (body, v) ↦ absurd (ground arith)
            | inl (body, v) ↦
                let (b, performed) =
                  upsert_points_inv env name points toc step.1 net step.2 body (ground arith) in
                run-Shows puts step.1 toc' step.2 net' (put name points table) fits.1 (ground arith)
                  (put-Shows name points toc step.1 net step.2 b table fits.0.0 fits.0.1 performed
                    h)
          ]
        ]

  -- The HTTP interface refines the abstract table. After any PUT requests that were all answered by
  -- 200, a GET of a number from a collection that is there answers by the point that the abstract
  -- table then holds, or by 500 if it holds none. Assumed: the collections showed the table before,
  -- the texts of the points read back, no point has the text of the number as its uuid, and the laws
  -- of sled and of the iteration order.
  pub run_refines :
      (laws : SledLaws env) (order : OrderLaws env) (n : ℕ) (puts : Puts Value) (toc toc' : Toc env)
      (net net' net'' : Net) (table : Table Value) (name : CollectionName) (c : Collection Db Ring)
      → n < u64_limit
      → Fits (PointId.id n) puts
      → Shows (PointId.id n) toc table
      → run puts toc net ≡ some (toc', net')
      → lookup name toc'.collections ≡ some c
      → get_point env name (show n) toc' net''
        ≡ some (
          time (
              first_point
                (show n)
                name
                (ok (push_some (replay puts table name (PointId.id n)) []))),
          net'',
        )
  unfolding get_point
  run_refines laws order n puts toc toc' net net' net'' table name c small fits before done there =
      let pid = PointId.id n in
      let now = run-Shows laws order pid puts toc toc' net net' table fits done before in
      let read =
        retrieve_points_lem env toc' name (some (pid ∷ [])) net'' net'' c
          (push_some (replay puts table name pid) []) there (now.shown name c net'' there) in
      rw (path_id-show n small, read)
