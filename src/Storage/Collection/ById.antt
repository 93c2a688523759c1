-- ===== src/Storage/Collection/ById.antt =====
-- The points of a batch by their ids, and what of them stands under a key.
use smoldb.Prelude.{
  ◌≡◌, refl, ◌∙◌, sym, ◌≢◌, inl, inr, List, [], ◌∷◌, map, Bool, true, false, ◌||◌, none, some, ◌⊎◌,
  String, ok, arith, HashMap, lookup, lookup-insert, lookup-collect, insert, collect, nat_eq, ◌==◌,
  beq_ne, beq_refl, string_eq, or_empty, Option-cases, Bool-cases, All,
}
use smoldb.Types.{ShardId}
use smoldb.Storage.Point.{PointId, Point, into_string, point_id_eq}
use smoldb.Storage.Replicas.{push, select_onto}
use smoldb.Storage.Replicas.Routing.{grown, routed}
use smoldb.Storage.Collection.Writes.{batch}
use smoldb.Storage.Collection.Reads.{has_key}
use smoldb.External.{Env}

-- Is an id among some ids?
unfoldable pub contains : PointId → List PointId → Bool
contains pid [] = false
contains pid (q ∷ qs) = q == pid || contains pid qs

pub or_empty-grown : (pids : List PointId) → or_empty (grown none pids) ≡ pids
or_empty-grown [] = refl
or_empty-grown (p ∷ pids) = refl

pub grown-ne-none :
    (pid : PointId) (pids : List PointId) → contains pid pids ≡ true → grown none pids ≢ none
unfolding contains
grown-ne-none pid [] h = cc
grown-ne-none pid (q ∷ pids) h = λ e. cc

module _ {V : Type 0} where
  -- The points of a batch by their ids: of two with one id the last.
  abbrev pub by_id : List (Point V) → HashMap PointId (Point V)
  by_id points = collect (map (λ p. (p.id, p)) points) []

  abbrev pub ids : List (Point V) → List PointId
  ids points = map (λ p. p.id) points

  pub All-entries :
      (Q : PointId → Point V → Type 0) (points : List (Point V))
      → All (λ p. Q p.id p) points
      → All (λ (e : PointId × Point V). Q e.0 e.1) (map (λ p. (p.id, p)) points)
  All-entries Q [] h = tt
  All-entries Q (p ∷ points) h = (h.0, All-entries Q points h.1)

  -- What holds of each point of the batch under its id holds of what is found by id.
  pub by_id-All :
      (Q : PointId → Point V → Type 0) (points : List (Point V)) (pid : PointId) (p : Point V)
      → All (λ p. Q p.id p) points
      → lookup pid (by_id points) ≡ some p
      → Q pid p
  unfolding lookup
  by_id-All Q points pid p h found =
      lookup-collect Q (map (λ p. (p.id, p)) points) [] (All-entries Q points h)
        (λ k v absent. absurd (ground arith)) pid p found

  pub All-refl : (points : List (Point V)) → All (λ p. p.id ≡ p.id) points
  All-refl [] = tt
  All-refl (p ∷ points) = (refl, All-refl points)

  pub by_id-id :
      (points : List (Point V)) (pid : PointId) (p : Point V)
      → lookup pid (by_id points) ≡ some p
      → p.id ≡ pid
  by_id-id points pid p found = by_id-All (λ k q. q.id ≡ k) points pid p (All-refl points) found

  pub contains-collect :
      (points : List (Point V)) (m : HashMap PointId (Point V)) (pid : PointId) (p : Point V)
      → lookup pid (collect (map (λ p. (p.id, p)) points) m) ≡ some p
      → (contains pid (ids points) ≡ true) ⊎ (lookup pid m ≡ some p)
  unfolding contains collect
  contains-collect [] m pid p h = inr h
  contains-collect (q ∷ points) m pid p h =
      let ih = contains-collect points (insert q.id q m) pid p h in
      let step = lookup-insert q.id pid q m in
      elim (Bool-cases (q.id == pid)) [
        | inl e ↦ inl (rw (e, contains))
        | inr e ↦ elim ih [
          | inl there ↦ inl (rw (e, contains) there)
          | inr before ↦ inr (sym (rw e at step) ∙ before)
        ]
      ]

  module _ (points_map : HashMap PointId (Point V)) (key : String) where
    pub has_key-batch :
        (pid : PointId) (pids : List PointId) (p : Point V)
        → contains pid pids ≡ true
        → lookup pid points_map ≡ some p
        → into_string p.id ≡ key
        → has_key key (batch points_map pids) ≡ true
    unfolding contains has_key
    has_key-batch pid [] p h found e = cc
    has_key-batch pid (q ∷ pids) p h found e = elim (Bool-cases (q == pid)) [
      | inl same ↦
          let here : q ≡ pid = (point_id_eq.beq_iff q pid).0 same in
          rw (here, found, (string_eq.beq_iff (into_string p.id) key).1 e)
      | inr other ↦
          let ih = has_key-batch pid pids p (rw (other) at h) found e in
          elim (Option-cases (lookup q points_map)) [
            | inl absent ↦ rw absent ih
            | inr (r, there) ↦ rw there (ground arith)
          ]
    ]

    pub batch_same :
        (p : Point V)
        → ((pid : PointId) (q : Point V)
            → lookup pid points_map ≡ some q
            → into_string q.id ≡ key
            → q ≡ p)
        → (pids : List PointId) → All (λ q. into_string q.id ≡ key → q ≡ p) (batch points_map pids)
    batch_same p same [] = tt
    batch_same p same (pid ∷ pids) = elim (Option-cases (lookup pid points_map)) [
      | inl absent ↦ rw absent (batch_same p same pids)
      | inr (q, there) ↦ rw there (same pid q there, batch_same p same pids)
    ]

    pub batch_absent :
        ((pid : PointId) (q : Point V) → lookup pid points_map ≡ some q → into_string q.id ≢ key)
        → (pids : List PointId) → has_key key (batch points_map pids) ≡ false
    unfolding has_key
    batch_absent other [] = refl
    batch_absent other (pid ∷ pids) = elim (Option-cases (lookup pid points_map)) [
      | inl absent ↦ rw absent (batch_absent other pids)
      | inr (q, there) ↦
          rw (there, beq_ne (into_string q.id) key (other pid q there)) (batch_absent other pids)
    ]

module _ (env : Env) where
  open env use {Value, Db, Ring, Net, ring_get, arrange}

  pub contains-routed :
      (ring : Ring) (s : ShardId) (pid : PointId) (pids : List PointId)
      → ring_get ring pid ≡ some s
      → contains pid pids ≡ true
      → contains pid (routed env ring s pids) ≡ true
  unfolding contains routed
  contains-routed ring s pid [] e h = cc
  contains-routed ring s pid (q ∷ pids) e h = elim (Bool-cases (q == pid)) [
    | inl same ↦
        let here : q ≡ pid = (point_id_eq.beq_iff q pid).0 same in
        let there : ring_get ring q ≡ some s = rw here e in rw (there, routed, beq_refl s, same)
    | inr other ↦
        let ih = contains-routed ring s pid pids e (rw other at h) in
        elim (Option-cases (ring_get ring q)) [
          | inl gone ↦ rw (gone, routed) ih
          | inr (t, there) ↦ elim (Bool-cases (t == s)) [
            | inl here ↦ rw (there, routed, here, other) ih
            | inr away ↦ rw (there, routed, away) ih
          ]
        ]
  ]

  pub routes :
      (ring : Ring) (m m' : HashMap ShardId (List PointId)) (pid : PointId) (pids : List PointId)
      → select_onto env ring m pids ≡ ok m'
      → contains pid pids ≡ true
      → (s : ShardId) × (ring_get ring pid ≡ some s)
  unfolding select_onto contains
  routes ring m m' pid [] e h = cc
  routes ring m m' pid (q ∷ pids) e h = elim (Option-cases (ring_get ring q)) [
    | inl gone ↦ absurd (ground arith)
    | inr (t, there) ↦ elim (Bool-cases (q == pid)) [
      | inl same ↦ (t, rw (← (point_id_eq.beq_iff q pid).0 same) there)
      | inr other ↦ routes ring (push t q m) m' pid pids (ground arith) (rw other at h)
    ]
  ]
