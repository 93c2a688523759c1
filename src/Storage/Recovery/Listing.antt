-- ===== src/Storage/Recovery/Listing.antt =====
-- The segments that a directory lists.
use mathlib.Core.Path.{subst}
use mathlib.Core.List.Memᴰ
use mathlib.Core.List.{Memᴰ}
use smoldb.Prelude.{
  ◌≡◌, ◌≢◌, ◌⊎◌, refl, sym, inl, inr, List, [], ◌∷◌, map, some, ok, arith, All, HashMap, insert,
  collect, filter_map, nat_eq, nat_beq_iff, ◌==◌, Bool-cases,
}
use smoldb.Types.{FilePath, SegmentId}
use smoldb.Storage.Recovery.{segment_entry}

module _ {A : Type 0} (P : A → Type 0) where
  pub All-of_Mem : (xs : List A) → ((x : A) → Memᴰ x xs → P x) → All P xs
  All-of_Mem [] h = tt
  All-of_Mem (x ∷ xs) h = (h x (Memᴰ.head refl), All-of_Mem xs (λ y m. h y (Memᴰ.tail m)))

  pub Mem-of_All : (xs : List A) → All P xs → (x : A) → Memᴰ x xs → P x
  Mem-of_All [] h x m = absurd (Memᴰ.not-nil m)
  Mem-of_All (y ∷ xs) h x m = elim (Memᴰ.cases_cons m) [
    | inl here ↦ subst P (sym here) h.0
    | inr later ↦ Mem-of_All xs h.1 x later
  ]

abbrev Paths : Type 0
Paths = HashMap SegmentId FilePath

-- What holds of the entries holds of the map that they are collected to.
module _ (P : SegmentId × FilePath → Type 0) where
  insert-All :
      (k : SegmentId) (p : FilePath) (m : Paths) → P (k, p) → All P m → All P (insert k p m)
  unfolding insert
  insert-All k p [] q h = (q, tt)
  insert-All k p ((j, o) ∷ m) q h = elim (Bool-cases (j == k)) [
    | inl same ↦ rw same (subst (λ x. P (x, p)) (sym ((nat_beq_iff j k).0 same)) q, h.1)
    | inr other ↦ rw other (h.0, insert-All k p m q h.1)
  ]

  pub collect-All : (entries m : Paths) → All P entries → All P m → All P (collect entries m)
  unfolding collect
  collect-All [] m es h = h
  collect-All ((k, p) ∷ entries) m es h =
      collect-All entries (insert k p m) es.1 (insert-All k p m es.0 h)

insert-ne : (k : SegmentId) (p : FilePath) (m : Paths) → insert k p m ≢ []
unfolding insert
insert-ne k p [] e = absurd (ground arith)
insert-ne k p ((j, o) ∷ m) e = ground arith

pub collect-ne : (entries m : Paths) → (entries ≢ []) ⊎ (m ≢ []) → collect entries m ≢ []
unfolding collect
collect-ne [] m (inl h) = absurd (h refl)
collect-ne [] m (inr h) = h
collect-ne ((k, p) ∷ entries) m h = collect-ne entries (insert k p m) (inr (insert-ne k p m))

-- Where every path is that of an entry, each entry is that one.
module _ (path : FilePath) (k : SegmentId) (e : segment_entry (ok path) ≡ some (k, path)) where
  pub entries-All :
      (paths : List FilePath)
      → All (λ p. p ≡ path) paths
      → All (λ x. x ≡ (k, path)) (filter_map segment_entry (map ok paths))
  entries-All [] h = tt
  entries-All (p ∷ paths) h =
      let here : segment_entry (ok p) ≡ some (k, path) =
        subst (λ x. segment_entry (ok x) ≡ some (k, path)) (sym h.0) e in
      rw here (refl, entries-All paths h.1)

  pub entries-ne :
      (paths : List FilePath)
      → All (λ p. p ≡ path) paths
      → Memᴰ path paths
      → filter_map segment_entry (map ok paths) ≢ []
  entries-ne [] h m = absurd (Memᴰ.not-nil m)
  entries-ne (p ∷ paths) h m =
      let here : segment_entry (ok p) ≡ some (k, path) =
        subst (λ x. segment_entry (ok x) ≡ some (k, path)) (sym h.0) e in
      rw here (λ empty. ground arith)
