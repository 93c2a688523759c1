-- ===== src/Types.antt =====
-- types.rs and the aliases of the storage modules. A number of a machine type is a native number;
-- where its range matters, a theorem states the range.
use smoldb.Prelude.{ℕ, String, List, [], ◌∷◌, ◌++◌, format}

abbrev pub SegmentId : Type 0
SegmentId = ℕ

abbrev pub ShardId : Type 0
ShardId = ℕ

abbrev pub PeerId : Type 0
PeerId = ℕ

-- storage/collection.rs
abbrev pub CollectionName : Type 0
CollectionName = String

-- `std::path::Path`, by its components.
abbrev pub FilePath : Type 0
FilePath = List String

-- `path.join(name)`
unfoldable pub join : FilePath → String → FilePath
join path name = path ++ name ∷ []

-- `path.display()`
unfoldable pub display : FilePath → String
display [] = ""
display (name ∷ []) = name
display (name ∷ next ∷ path) = format (name ∷ "/" ∷ display (next ∷ path) ∷ [])
