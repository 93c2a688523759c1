-- ===== src/Storage/PointOrder/Laws.antt =====
-- The sorted map of points by their ids, and what it holds under an id.
use Prim.Native.Nat.{Ordering}
use mathlib.Core.Path.{subst}
use smoldb.Prelude.{
  ◌≡◌, refl, ◌∙◌, sym, ap, inl, inr, true, false, List, [], ◌∷◌, ◌++◌, Option, none, some, arith,
  All, ◌==◌, Bool-cases, if◌then◌else◌,
}
use smoldb.Storage.Point.{PointId, Point, point_id_eq}
use smoldb.Storage.PointOrder.{point_id_compare, insert_vacant, insert_all}
use smoldb.Storage.PointOrder.Ids.{
  IsBefore, IsBefore-trans, gt-IsBefore, eq-path, IsBefore-ne, order_cases,
}

module _ {V : Type 0} where
  -- The ids rise.
  abbrev pub IsSorted : List (Point V) → Type 0
  IsSorted [] = Unit
  IsSorted (p ∷ ps) = All (λ q. IsBefore p.id q.id) ps × IsSorted ps

  -- The first point with an id.
  unfoldable pub find : PointId → List (Point V) → Option (Point V)
  find pid [] = none
  find pid (p ∷ ps) = if p.id == pid then some p else find pid ps

  abbrev pub first : Option (Point V) → Option (Point V) → Option (Point V)
  first none other = other
  first (some p) other = some p

  All-IsBefore :
      (a b : PointId) (ps : List (Point V))
      → IsBefore a b
      → All (λ q. IsBefore b q.id) ps
      → All (λ q. IsBefore a q.id) ps
  All-IsBefore a b [] h hs = tt
  All-IsBefore a b (p ∷ ps) h hs = (IsBefore-trans a b p.id h hs.0, All-IsBefore a b ps h hs.1)

  insert_before :
      (p q : Point V) (ps : List (Point V))
      → point_id_compare p.id q.id ≡ Ordering.lt
      → insert_vacant p (q ∷ ps) ≡ p ∷ q ∷ ps
  unfolding insert_vacant
  insert_before p q ps e = rw (e, insert_vacant)

  insert_occupied :
      (p q : Point V) (ps : List (Point V))
      → point_id_compare p.id q.id ≡ Ordering.eq
      → insert_vacant p (q ∷ ps) ≡ q ∷ ps
  unfolding insert_vacant
  insert_occupied p q ps e = rw (e, insert_vacant)

  insert_after :
      (p q : Point V) (ps : List (Point V))
      → point_id_compare p.id q.id ≡ Ordering.gt
      → insert_vacant p (q ∷ ps) ≡ q ∷ insert_vacant p ps
  unfolding insert_vacant
  insert_after p q ps e = rw (e, insert_vacant)

  All-insert_vacant :
      (a : PointId) (p : Point V) (ps : List (Point V))
      → IsBefore a p.id
      → All (λ q. IsBefore a q.id) ps
      → All (λ q. IsBefore a q.id) (insert_vacant p ps)
  All-insert_vacant a p [] h hs = unfold insert_vacant in (h, tt)
  All-insert_vacant a p (q ∷ ps) h hs = elim (order_cases (point_id_compare p.id q.id)) [
    | inl e ↦ rw (insert_before p q ps e) (h, hs)
    | inr (inl e) ↦ rw (insert_occupied p q ps e) hs
    | inr (inr e) ↦ rw (insert_after p q ps e) (hs.0, All-insert_vacant a p ps h hs.1)
  ]

  insert_vacant-IsSorted :
      (p : Point V) (ps : List (Point V)) → IsSorted ps → IsSorted (insert_vacant p ps)
  insert_vacant-IsSorted p [] h = unfold insert_vacant in (tt, tt)
  insert_vacant-IsSorted p (q ∷ ps) h = elim (order_cases (point_id_compare p.id q.id)) [
    | inl e ↦ rw (insert_before p q ps e) ((e, All-IsBefore p.id q.id ps e h.0), h)
    | inr (inl e) ↦ rw (insert_occupied p q ps e) h
    | inr (inr e) ↦
        rw (insert_after p q ps e) (
          All-insert_vacant q.id p ps (gt-IsBefore p.id q.id e) h.0,
          insert_vacant-IsSorted p ps h.1,
        )
  ]

  pub insert_all-IsSorted : (ps qs : List (Point V)) → IsSorted qs → IsSorted (insert_all ps qs)
  unfolding insert_all
  insert_all-IsSorted [] qs h = h
  insert_all-IsSorted (p ∷ ps) qs h =
      insert_all-IsSorted ps (insert_vacant p qs) (insert_vacant-IsSorted p qs h)

  first-none : (o : Option (Point V)) → first o none ≡ o
  first-none none = refl
  first-none (some p) = refl

  first-find_nil : (pid : PointId) (o : Option (Point V)) → first o (find pid []) ≡ o
  unfolding find
  first-find_nil pid o = first-none o

  find-above :
      (pid : PointId) (ps : List (Point V)) → All (λ q. IsBefore pid q.id) ps → find pid ps ≡ none
  unfolding find
  find-above pid [] h = refl
  find-above pid (p ∷ ps) h = ground (
    arith,
    IsBefore-ne pid p.id h.0,
    point_id_eq.beq_iff p.id pid,
    point_id_eq.beq_iff pid p.id,
    find-above pid ps h.1,
  )

  find-here :
      (pid : PointId) (p : Point V) (ps : List (Point V))
      → (p.id == pid) ≡ true
      → find pid (p ∷ ps) ≡ some p
  unfolding find
  find-here pid p ps e = rw e refl

  find-there :
      (pid : PointId) (p : Point V) (ps : List (Point V))
      → (p.id == pid) ≡ false
      → find pid (p ∷ ps) ≡ find pid ps
  unfolding find
  find-there pid p ps e = rw e refl

  first-occupied :
      (pid : PointId) (p q : Point V) (ps : List (Point V))
      → p.id ≡ q.id
      → find pid (q ∷ ps) ≡ first (find pid (q ∷ ps)) (find pid (p ∷ []))
  first-occupied pid p q ps e = elim (Bool-cases (q.id == pid)) [
    | inl same ↦ rw (find-here pid q ps same) refl
    | inr other ↦
        rw (find-there pid p [] (ap (λ x. x == pid) e ∙ other))
          (sym (first-find_nil pid (find pid (q ∷ ps))))
  ]

  first_assoc : (a b c : Option (Point V)) → first (first a b) c ≡ first a (first b c)
  first_assoc none b c = refl
  first_assoc (some p) b c = refl

  pub find-++ :
      (pid : PointId) (ps qs : List (Point V))
      → find pid (ps ++ qs) ≡ first (find pid ps) (find pid qs)
  unfolding find
  find-++ pid [] qs = refl
  find-++ pid (p ∷ ps) qs = elim (Bool-cases (p.id == pid)) [
    | inl same ↦ rw same refl
    | inr other ↦ rw other (find-++ pid ps qs)
  ]

  find-insert_vacant :
      (pid : PointId) (p : Point V) (ps : List (Point V))
      → IsSorted ps
      → find pid (insert_vacant p ps) ≡ first (find pid ps) (find pid (p ∷ []))
  find-insert_vacant pid p [] h = unfold insert_vacant find in refl
  find-insert_vacant pid p (q ∷ ps) h = elim (order_cases (point_id_compare p.id q.id)) [
    | inl e ↦
        let gone = find-above p.id (q ∷ ps) (e, All-IsBefore p.id q.id ps e h.0) in
        rw (insert_before p q ps e) (elim (Bool-cases (p.id == pid)) [
          | inl same ↦
              let gone' : find pid (q ∷ ps) ≡ none =
                subst (λ x. find x (q ∷ ps) ≡ none) ((point_id_eq.beq_iff p.id pid).0 same) gone in
              rw (gone', find-here pid p (q ∷ ps) same, find-here pid p [] same) refl
          | inr other ↦
              rw (find-there pid p (q ∷ ps) other, find-there pid p [] other)
                (sym (first-find_nil pid (find pid (q ∷ ps))))
        ])
    | inr (inl e) ↦ rw (insert_occupied p q ps e) (first-occupied pid p q ps (eq-path p.id q.id e))
    | inr (inr e) ↦ rw (insert_after p q ps e) (elim (Bool-cases (q.id == pid)) [
      | inl same ↦ rw (find-here pid q (insert_vacant p ps) same, find-here pid q ps same) refl
      | inr other ↦
          rw (find-there pid q (insert_vacant p ps) other, find-there pid q ps other)
            (find-insert_vacant pid p ps h.1)
    ])
  ]

  -- A sorted map that takes points in turn reads as the map followed by the points.
  pub find-insert_all :
      (pid : PointId) (ps qs : List (Point V))
      → IsSorted qs
      → find pid (insert_all ps qs) ≡ first (find pid qs) (find pid ps)
  unfolding insert_all find
  find-insert_all pid [] qs h = sym (first-none (find pid qs))
  find-insert_all pid (p ∷ ps) qs h =
      find-insert_all pid ps (insert_vacant p qs) (insert_vacant-IsSorted p qs h)
      ∙ ap (λ o. first o (find pid ps)) (find-insert_vacant pid p qs h)
      ∙ first_assoc (find pid qs) (find pid (p ∷ [])) (find pid ps)
      ∙ ap (first (find pid qs)) (sym (find-++ pid (p ∷ []) ps))
