-- ===== src/Tests/Listings.antt =====
-- The disk of the examples keeps the laws of a tree.
use mathlib.Core.Path.{subst}
use mathlib.Core.List.Memᴰ
use mathlib.Core.List.{Memᴰ}
use smoldb.Prelude.{
  ◌≡◌, refl, sym, ap, ◌∙◌, inl, inr, String, List, [], ◌∷◌, ◌++◌, map, Bool, true, Option, some,
  Result, ok, arith, filter_map, string_eq, Bool-cases, Option-cases,
}
use smoldb.Types.{FilePath, join}
use smoldb.Storage.Point.{PointId}
use smoldb.External.Tree.{is_prefix, TreeLaws, ConfigLaws, IsWorking, PathOrderLaws}
use smoldb.Tests.Trees.{
  Tree, any, is_dir, exists, read, child, leaf, children, config_of, same_path, same_path_refl,
  same_path_eq, tree_env,
}

is_prefix-child : (p q : FilePath) (n : String) → is_prefix (join p n) q ≡ true → child p q ≡ some n
unfolding is_prefix child join
is_prefix-child [] [] n e = absurd (ground arith)
is_prefix-child [] (y ∷ q) n e = ground (arith, string_eq.beq_iff n y)
is_prefix-child (x ∷ p) [] n e = absurd (ground arith)
is_prefix-child (x ∷ p) (y ∷ q) n e = ground (arith, is_prefix-child p q n)

child-is_prefix : (p q : FilePath) (n : String) → child p q ≡ some n → is_prefix (join p n) q ≡ true
unfolding is_prefix child join
child-is_prefix [] [] n e = absurd (ground arith)
child-is_prefix [] (y ∷ q) n e = ground (arith, string_eq.beq_iff n y)
child-is_prefix (x ∷ p) [] n e = absurd (ground arith)
child-is_prefix (x ∷ p) (y ∷ q) n e = ground (arith, child-is_prefix p q n)

same-leaf : (p q : FilePath) (n : String) → same_path (join p n) q ≡ true → leaf p q ≡ some n
unfolding leaf join
same-leaf [] [] n e = absurd (ground arith)
same-leaf [] (y ∷ []) n e = ground (arith, string_eq.beq_iff n y)
same-leaf [] (y ∷ z ∷ q) n e = absurd (ground arith)
same-leaf (x ∷ p) [] n e = absurd (ground arith)
same-leaf (x ∷ p) (y ∷ q) n e = ground (arith, same-leaf p q n)

leaf-same : (p q : FilePath) (n : String) → leaf p q ≡ some n → same_path (join p n) q ≡ true
unfolding leaf join
leaf-same [] [] n e = absurd (ground arith)
leaf-same [] (y ∷ []) n e = ground (arith, string_eq.beq_iff n y)
leaf-same [] (y ∷ z ∷ q) n e = absurd (ground arith)
leaf-same (x ∷ p) [] n e = absurd (ground arith)
leaf-same (x ∷ p) (y ∷ q) n e = ground (arith, leaf-same p q n)

-- A test that finds a path, and the names that are found.
module _ (test : String → FilePath → Bool) (name_of : FilePath → Option String) where
  any-named :
      (paths : List FilePath) (n : String)
      → ((q : FilePath) → test n q ≡ true → name_of q ≡ some n)
      → any (test n) paths ≡ true
      → Memᴰ n (filter_map name_of paths)
  unfolding any
  any-named [] n h e = absurd (ground arith)
  any-named (q ∷ paths) n h e = elim (Bool-cases (test n q)) [
    | inl hit ↦ rw (h q hit) (Memᴰ.head refl)
    | inr miss ↦
        let rest = any-named paths n h (ground arith) in
        elim (Option-cases (name_of q)) [
          | inl e0 ↦ rw e0 rest
          | inr (m, e0) ↦ rw e0 (Memᴰ.tail rest)
        ]
  ]

  named-any :
      (paths : List FilePath) (n : String)
      → ((q : FilePath) → name_of q ≡ some n → test n q ≡ true)
      → Memᴰ n (filter_map name_of paths)
      → any (test n) paths ≡ true
  unfolding any
  named-any [] n h m = absurd (Memᴰ.not-nil m)
  named-any (q ∷ paths) n h m = elim (Option-cases (name_of q)) [
    | inl e0 ↦
        let m' : Memᴰ n (filter_map name_of paths) = rw e0 at m in
        ground (arith, named-any paths n h m')
    | inr (k, e0) ↦
        let m' : Memᴰ n (k ∷ filter_map name_of paths) = rw e0 at m in
        elim (Memᴰ.cases_cons m') [
          | inl here ↦ ground (arith, h q (e0 ∙ ap some (sym here)))
          | inr later ↦ ground (arith, named-any paths n h later)
        ]
  ]

-- What a directory lists.
abbrev readable : FilePath → Result String FilePath
readable p = ok p

readable-injective : (ps qs : List FilePath) → map readable ps ≡ map readable qs → ps ≡ qs
readable-injective [] [] e = refl
readable-injective [] (q ∷ qs) e = absurd (cc)
readable-injective (p ∷ ps) [] e = absurd (cc)
readable-injective (p ∷ ps) (q ∷ qs) e =
    let rest : map readable ps ≡ map readable qs = cc in
    let first : p ≡ q = cc in let tail = readable-injective ps qs rest in cc

child-listed :
    (d : Tree) (p : FilePath) (n : String)
    → exists d (join p n) ≡ true
    → Memᴰ (join p n) (children d p)
unfolding exists is_dir children
child-listed d p n e = Memᴰ.map (join p) (elim (Bool-cases (any (is_prefix (join p n)) d.dirs)) [
  | inl dir ↦ Memᴰ.append_left (filter_map (leaf p) d.files) (
      any-named (λ m. is_prefix (join p m)) (child p) d.dirs n (λ q h. is_prefix-child p q n h) dir)
  | inr none_made ↦ Memᴰ.append_right (filter_map (child p) d.dirs) (
      any-named (λ m. same_path (join p m)) (leaf p) d.files n (λ q h. same-leaf p q n h)
        (ground arith))
])

listed-child :
    (d : Tree) (p q : FilePath)
    → Memᴰ q (children d p)
    → (n : String) × (q ≡ join p n) × (exists d q ≡ true)
unfolding exists is_dir children
listed-child d p q m =
    let (n, here, at) =
      Memᴰ.of_map (join p) (filter_map (child p) d.dirs ++ filter_map (leaf p) d.files) m in
    (
      n,
      sym at,
      subst (λ x. exists d x ≡ true) at
          (elim (Memᴰ.append_cases (filter_map (child p) d.dirs) here) [
            | inl dir ↦
                let found =
                  named-any (λ k. is_prefix (join p k)) (child p) d.dirs n
                    (λ o h. child-is_prefix p o n h) dir in
                ground arith
            | inr file ↦
                let found =
                  named-any (λ k. same_path (join p k)) (leaf p) d.files n
                    (λ o h. leaf-same p o n h) file in
                ground arith
          ]),
    )

prefix_trans :
    (q p r : FilePath) → is_prefix q p ≡ true → is_prefix p r ≡ true → is_prefix q r ≡ true
unfolding is_prefix
prefix_trans [] p r e f = refl
prefix_trans (y ∷ q) [] r e f = absurd (ground arith)
prefix_trans (y ∷ q) (x ∷ p) [] e f = absurd (ground arith)
prefix_trans (y ∷ q) (x ∷ p) (z ∷ r) e f =
    ground (
      arith,
      prefix_trans q p r,
      string_eq.beq_iff y x,
      string_eq.beq_iff x z,
      string_eq.beq_iff y z,
    )

any-above :
    (p q : FilePath) (paths : List FilePath)
    → is_prefix q p ≡ true
    → any (is_prefix p) paths ≡ true
    → any (is_prefix q) paths ≡ true
unfolding any
any-above p q [] h e = absurd (ground arith)
any-above p q (r ∷ paths) h e = elim (Bool-cases (is_prefix p r)) [
  | inl here ↦ ground (arith, prefix_trans q p r h here)
  | inr apart ↦ ground (arith, any-above p q paths h)
]

pub tree_laws : TreeLaws tree_env
unfolding exists is_dir any
tree_laws = record {
  dir_exists = λ d p e. ground arith;
  above = λ d p q e h. any-above p q d.dirs h e;
  mkdir_exists = λ d p q e. ground arith;
  mkdir_is_dir = λ d p q e. refl;
  file_made = λ d p e. ground (arith, same_path_refl p);
  file_exists = λ d p q e. elim (Bool-cases (same_path q p)) [
    | inl same ↦ inl (same_path_eq q p same)
    | inr other ↦ inr (ground arith)
  ];
  file_is_dir = λ d p q. refl;
  write_exists = λ d p q t. refl;
  write_is_dir = λ d p q t. refl;
  open_exists = λ d p q here e. refl;
  open_is_dir = λ d p q here e. refl;
  listed = λ d p paths n e there.
      subst (Memᴰ (join p n)) (readable-injective (children d p) paths (ground arith))
        (child-listed d p n there);
  listing = λ d p q paths e m.
      listed-child d p q
        (subst (Memᴰ q) (sym (readable-injective (children d p) paths (ground arith))) m);
}

pub tree_configs : ConfigLaws tree_env
unfolding read config_of
tree_configs = record {
  written = λ d p params t e made done. (some t, ground (arith, same_path_refl p), ground arith);
  mkdir_keeps = λ d p q params h. h;
  open_keeps = λ d p q params e h. h;
}

pub tree_works : IsWorking tree_env
tree_works = record {
  text = λ params. (record { id = PointId.uuid params; payload = 0 }, refl);
  file = λ d p name here free. refl;
  written = λ d p t there file. refl;
  made = λ d p clear. refl;
  opened = λ d p here. ([], refl);
  read = λ d p e. (children d p, refl);
}

pub tree_order : PathOrderLaws tree_env
tree_order = record { arranged = λ m e here. here; kept = λ m e here. here }
