-- ===== src/Prelude/Map.antt =====
-- `HashMap` and `BTreeMap`: an association list in the order in which the map is iterated.
use mathlib.Core.Path.{◌≡◌, refl, subst}
use mathlib.Core.Bool.{Bool, true, false}
use mathlib.Core.List.{List, [], ◌∷◌}
use mathlib.Core.Option.{Option, none, some}
use native.Mathlib.Omega.{arith}
use mathlib.Core.Logic.{inl, inr}
use smoldb.Prelude.Lists.{All}
use smoldb.Prelude.Tests.{if◌then◌else◌, Bool-cases}
use smoldb.Prelude.Equality.{Eq, ◌==◌}

abbrev pub HashMap {ℓ} : Type ℓ → Type ℓ → Type ℓ
HashMap K V = List (K × V)

module _ {ℓ} {K V : Type ℓ} ⦃e : Eq K⦄ where
  -- `map.get(&k)`
  unfoldable pub lookup : K → HashMap K V → Option V
  lookup key [] = none
  lookup key ((other, v) ∷ m) = if other == key then some v else lookup key m

  -- `map.insert(k, v)`
  unfoldable pub insert : K → V → HashMap K V → HashMap K V
  insert key v [] = (key, v) ∷ []
  insert key v ((other, w) ∷ m) =
      if other == key then (other, v) ∷ m else (other, w) ∷ insert key v m

  -- `map.remove(&k)`
  unfoldable pub remove : K → HashMap K V → HashMap K V
  remove key [] = []
  remove key ((other, w) ∷ m) =
      let rest = remove key m in if other == key then rest else (other, w) ∷ rest

  -- `iter.collect()` onto a map: the entries are inserted from left to right
  unfoldable pub collect : List (K × V) → HashMap K V → HashMap K V
  collect [] m = m
  collect ((key, v) ∷ entries) m = collect entries (insert key v m)

  -- `map.contains_key(&k)`
  unfoldable pub contains_key : K → HashMap K V → Bool
  contains_key key m = elim (lookup key m) [ none ↦ false | some v ↦ true ]

  pub lookup-insert :
      (key other : K) (v : V) (m : HashMap K V)
      → lookup other (insert key v m) ≡ (if key == other then some v else lookup other m)
  unfolding lookup insert
  lookup-insert key other v [] = refl
  lookup-insert key other v ((first, w) ∷ m) = ground (
    arith,
    e.beq_iff key other,
    e.beq_iff first key,
    e.beq_iff first other,
    lookup-insert key other v m,
  )

  pub lookup-remove :
      (key other : K) (m : HashMap K V)
      → lookup other (remove key m) ≡ (if key == other then none else lookup other m)
  unfolding lookup remove
  lookup-remove key other [] = ground arith
  lookup-remove key other ((first, w) ∷ m) = ground (
    arith,
    e.beq_iff key other,
    e.beq_iff first key,
    e.beq_iff first other,
    lookup-remove key other m,
  )

  -- No key stands twice.
  abbrev pub Unique : HashMap K V → Type ℓ
  Unique [] = Unit
  Unique ((key, v) ∷ m) = (lookup key m ≡ none) × Unique m

  pub insert-Unique : (key : K) (v : V) (m : HashMap K V) → Unique m → Unique (insert key v m)
  unfolding insert lookup
  insert-Unique key v [] h = (refl, tt)
  insert-Unique key v ((other, w) ∷ m) h = ground (
    arith,
    e.beq_iff other key,
    e.beq_iff key other,
    lookup-insert key other v m,
    insert-Unique key v m h.1,
  )

  inserted {κ} :
      (Q : K → V → Type κ) (other : K) (w : V) (m : HashMap K V)
      → Q other w
      → ((key : K) (v : V) → lookup key m ≡ some v → Q key v)
      → (key : K) (v : V) → lookup key (insert other w m) ≡ some v
      → Q key v
  inserted Q other w m q old key v found = elim (Bool-cases (other == key)) [
    | inl same ↦
        let here : other ≡ key = (e.beq_iff other key).0 same in
        let new : w ≡ v = ground (arith, lookup-insert other key w m) in
        subst (λ x. Q x v) here (subst (Q other) new q)
    | inr apart ↦ old key v (ground (arith, lookup-insert other key w m))
  ]

  -- What is found after `collect` was among the entries, or in the map before.
  pub lookup-collect {κ} :
      (Q : K → V → Type κ) (entries : List (K × V)) (m : HashMap K V)
      → All (λ e. Q e.0 e.1) entries
      → ((key : K) (v : V) → lookup key m ≡ some v → Q key v)
      → (key : K) (v : V) → lookup key (collect entries m) ≡ some v
      → Q key v
  unfolding collect
  lookup-collect Q [] m qs old key v found = old key v found
  lookup-collect Q ((other, w) ∷ entries) m qs old key v found =
      lookup-collect Q entries (insert other w m) qs.1 (inserted Q other w m qs.0 old) key v found
