-- ===== src/Consensus/Ready/Applied.antt =====
-- The entries that are handled, and the index of the last one.
use smoldb.Prelude.{ℕ, map, ◌≡◌, refl, ◌∙◌, List, [], ◌∷◌, true, false, arith, Bool-cases, inl, inr}
use smoldb.Consensus.Ready.{Raft, Event, handled, handle_committed_entries}

module _ (raft : Raft) where
  open raft use {Entry, Message, index, no_data, entry_type}

  -- the index of the last entry
  unfoldable pub last_index : List Entry → ℕ → ℕ
  last_index [] old = old
  last_index (entry ∷ []) old = index entry
  last_index (entry ∷ next ∷ rest) old = last_index (next ∷ rest) old

  -- the entries with data
  unfoldable pub with_data : List Entry → List Entry
  with_data [] = []
  with_data (entry ∷ rest) = elim (no_data entry) [
    | true ↦ with_data rest
    | false ↦ entry ∷ with_data rest
  ]

  abbrev pub handle : Entry → Event Message Entry
  handle entry = handled (entry_type entry) entry

  last_index-cons :
      (entry : Entry) (rest : List Entry) (old : ℕ)
      → last_index rest (index entry) ≡ last_index (entry ∷ rest) old
  unfolding last_index
  last_index-cons entry [] old = refl
  last_index-cons entry (next ∷ rest) old = same next rest (index entry) old
    where
      same : (e : Entry) (es : List Entry) (a b : ℕ) → last_index (e ∷ es) a ≡ last_index (e ∷ es) b
      same e [] a b = refl
      same e (e' ∷ es) a b = same e' es a b

  -- Every committed entry with data is handled once, in order and by its type, and an entry without
  -- data is passed over; the index is that of the last entry, with data or without.
  pub handle_committed_entries_lem :
      (entries : List Entry) (old : ℕ)
      → ((handle_committed_entries raft entries old).0 ≡ last_index entries old)
        × ((handle_committed_entries raft entries old).1 ≡ map handle (with_data entries))
  unfolding handle_committed_entries with_data
  handle_committed_entries_lem [] old = unfold last_index in (refl, refl)
  handle_committed_entries_lem (entry ∷ rest) old =
      let (last, trace) = handle_committed_entries_lem rest (index entry) in
      let end = last ∙ last_index-cons entry rest old in
      elim (Bool-cases (no_data entry)) [
        | inl empty ↦ (ground arith, ground arith)
        | inr full ↦ (ground arith, ground arith)
      ]
