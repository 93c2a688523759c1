-- ===== src/Tests/Trees.antt =====
-- A disk that is a list of the directories that were made, each with all that are above it, and the
-- files with what was written to them.
use mathlib.Core.Path.{subst}
use smoldb.Prelude.{
  ℕ, ◌≡◌, refl, inl, inr, String, List, [], ◌∷◌, ◌++◌, map, Bool, true, false, ◌&&◌, ◌||◌, Option,
  none, some, Result, ok, err, arith, filter_map, string_eq, ◌==◌, beq_refl, Bool-cases,
  if◌then◌else◌,
}
use smoldb.Types.{FilePath, join}
use smoldb.Storage.Point.{PointId, Point}
use smoldb.External.{Env, DiskLaws, DirLaws, RingLaws}
use smoldb.External.Tree.{is_prefix}
use smoldb.Tests.Demo.{demo, demo_ring}

abbrev pub same_path : FilePath → FilePath → Bool
same_path [] [] = true
same_path (x ∷ p) (y ∷ q) = x == y && same_path p q
same_path _ _ = false

pub same_path_refl : (p : FilePath) → same_path p p ≡ true
same_path_refl [] = refl
same_path_refl (x ∷ p) = ground (arith, beq_refl x, same_path_refl p)

pub same_path_eq : (p q : FilePath) → same_path p q ≡ true → p ≡ q
same_path_eq [] [] e = refl
same_path_eq [] (y ∷ q) e = absurd (ground arith)
same_path_eq (x ∷ p) [] e = absurd (ground arith)
same_path_eq (x ∷ p) (y ∷ q) e = ground (arith, string_eq.beq_iff x y, same_path_eq p q)

pub record Tree : Type 0 where
  pub dirs : List FilePath
  pub files : List FilePath
  pub texts : List (FilePath × Point ℕ)

unfoldable pub any : (FilePath → Bool) → List FilePath → Bool
any test [] = false
any test (p ∷ paths) = test p || any test paths

unfoldable pub is_dir : Tree → FilePath → Bool
is_dir d q = any (is_prefix q) d.dirs

unfoldable pub exists : Tree → FilePath → Bool
exists d q = is_dir d q || any (same_path q) d.files

unfoldable pub read : FilePath → List (FilePath × Point ℕ) → Option (Point ℕ)
read p [] = none
read p ((q, t) ∷ texts) = if same_path p q then some t else read p texts

-- The name below `p` on the way to a path.
unfoldable pub child : FilePath → FilePath → Option String
child [] [] = none
child [] (y ∷ q) = some y
child (x ∷ p) [] = none
child (x ∷ p) (y ∷ q) = if x == y then child p q else none

unfoldable pub leaf : FilePath → FilePath → Option String
leaf [] (y ∷ []) = some y
leaf (x ∷ p) (y ∷ q) = if x == y then leaf p q else none
leaf _ _ = none

unfoldable pub children : Tree → FilePath → List FilePath
children d p = map (join p) (filter_map (child p) d.dirs ++ filter_map (leaf p) d.files)

unfoldable pub without : FilePath → List FilePath → List FilePath
without p [] = []
without p (q ∷ paths) = let rest = without p paths in if is_prefix p q then rest else q ∷ rest

unfoldable pub config_of : Option (Point ℕ) → Result String String
config_of none = err "empty"
config_of (some t) = elim t.id [ PointId.uuid params ↦ ok params | PointId.id n ↦ err "a number" ]

abbrev pub tree_env : Env
tree_env = record demo {
  Disk = Tree;
  path_exists = exists;
  create_dir_all = λ d p. (ok tt, record d { dirs = p ∷ d.dirs });
  remove_dir_all = λ d p. (ok tt, record d { dirs = without p d.dirs; files = without p d.files });
  create_file = λ d p. (ok tt, record d { files = p ∷ d.files });
  write_all = λ d p t. (ok tt, record d { texts = (p, t) ∷ d.texts });
  is_dir = is_dir;
  read_dir = λ d p. ok (map ok (children d p));
  File = Option (Point ℕ);
  open_file = λ d p. ok (read p d.texts);
  config_from_reader = config_of;
  open_db = λ d p. (ok [], d);
}

pub prefix_refl : (p : FilePath) → is_prefix p p ≡ true
unfolding is_prefix
prefix_refl [] = refl
prefix_refl (x ∷ p) = ground (arith, beq_refl x, prefix_refl p)

same_prefix : (p q : FilePath) → same_path p q ≡ true → is_prefix p q ≡ true
same_prefix p q e = subst (λ x. is_prefix p x ≡ true) (same_path_eq p q e) (prefix_refl p)

any-without :
    (test : FilePath → Bool) (p : FilePath) (paths : List FilePath)
    → ((q : FilePath) → test q ≡ true → is_prefix p q ≡ true)
    → any test (without p paths) ≡ false
unfolding any without
any-without test p [] h = refl
any-without test p (q ∷ paths) h = elim (Bool-cases (is_prefix p q)) [
  | inl gone ↦ ground (arith, any-without test p paths h)
  | inr kept ↦ elim (Bool-cases (test q)) [
    | inl hit ↦ absurd (ground (arith, h q hit))
    | inr miss ↦ ground (arith, any-without test p paths h)
  ]
]

exists-new : (d : Tree) (p : FilePath) → exists (record d { dirs = p ∷ d.dirs }) p ≡ true
unfolding exists is_dir any
exists-new d p = ground (arith, prefix_refl p)

exists-dir :
    (d : Tree) (p q : FilePath)
    → exists d q ≡ true
    → exists (record d { dirs = p ∷ d.dirs }) q ≡ true
unfolding exists is_dir any
exists-dir d p q h = ground arith

is_dir-dir :
    (d : Tree) (p q : FilePath)
    → is_dir d q ≡ true
    → is_dir (record d { dirs = p ∷ d.dirs }) q ≡ true
unfolding is_dir any
is_dir-dir d p q h = ground arith

exists-file :
    (d : Tree) (p q : FilePath)
    → exists d q ≡ true
    → exists (record d { files = p ∷ d.files }) q ≡ true
unfolding exists is_dir any
exists-file d p q h = ground arith

exists-gone :
    (d : Tree) (p : FilePath)
    → exists (record d { dirs = without p d.dirs; files = without p d.files }) p ≡ false
unfolding exists is_dir
exists-gone d p = ground (
  arith,
  any-without (is_prefix p) p d.dirs (λ q e. e),
  any-without (same_path p) p d.files (same_prefix p),
)

pub tree_disk : DiskLaws tree_env
unfolding exists is_dir
tree_disk = record {
  created = λ d p e. exists-new d p;
  create_dir_keeps = exists-dir;
  create_file_keeps = exists-file;
  write_keeps = λ d p q t h. h;
  open_keeps = λ d p q h. h;
  removed = λ d p e. exists-gone d p;
}

pub tree_dirs : DirLaws tree_env
unfolding is_dir
tree_dirs = record { create_dir_keeps = is_dir-dir; open_keeps = λ d p q h. h }

pub tree_ring : RingLaws tree_env
tree_ring = record { empty = demo_ring.empty; total = demo_ring.total; moves = demo_ring.moves }
