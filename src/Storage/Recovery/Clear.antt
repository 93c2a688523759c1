-- ===== src/Storage/Recovery/Clear.antt =====
-- The way to a path while directories are made and databases are opened.
use mathlib.Core.Path.{subst, ap₂}
use smoldb.Prelude.{
  ◌≡◌, refl, sym, ◌∙◌, ◌⊎◌, inl, inr, String, [], ◌∷◌, ◌++◌, true, ok, arith, length, string_eq,
  ◌==◌, Bool-cases,
}
use smoldb.Types.{FilePath}
use smoldb.External.{Env, DirLaws}
use smoldb.External.Tree.{is_prefix, TreeLaws, IsClear}

is_prefix-append : (q p r : FilePath) → is_prefix q p ≡ true → is_prefix q (p ++ r) ≡ true
unfolding is_prefix
is_prefix-append [] p r e = refl
is_prefix-append (y ∷ q) [] r e = absurd (ground arith)
is_prefix-append (y ∷ q) (x ∷ p) r e = ground (arith, is_prefix-append q p r)

-- A prefix of a longer path is one of the shorter path, or goes on below it.
pub prefix_cases :
    (p r q : FilePath)
    → is_prefix q (p ++ r) ≡ true
    → (is_prefix q p ≡ true) ⊎ ((n : String) × (rest : FilePath) × (q ≡ p ++ n ∷ rest))
unfolding is_prefix
prefix_cases [] r [] e = inl refl
prefix_cases [] r (n ∷ rest) e = inr (n, rest, refl)
prefix_cases (x ∷ p) r [] e = inl refl
prefix_cases (x ∷ p) r (y ∷ q) e = elim (Bool-cases (y == x)) [
  | inr apart ↦ absurd (ground arith)
  | inl same ↦ elim (prefix_cases p r q (ground arith)) [
    | inl shorter ↦ inl (ground arith)
    | inr (n, rest, at) ↦ inr (n, rest, ap₂ (λ a b. a ∷ b) ((string_eq.beq_iff y x).0 same) at)
  ]
]

-- What is between two paths of one length is the first of them.
between :
    (p q r : FilePath) → is_prefix p q ≡ true → is_prefix q r ≡ true → length p ≡ length r → p ≡ q
unfolding is_prefix
between [] [] r e f h = refl
between [] (y ∷ q) [] e f h = absurd (ground arith)
between [] (y ∷ q) (z ∷ r) e f h = absurd (omega arith)
between (x ∷ p) [] r e f h = absurd (ground arith)
between (x ∷ p) (y ∷ q) [] e f h = absurd (omega arith)
between (x ∷ p) (y ∷ q) (z ∷ r) e f h = elim (Bool-cases (x == y)) [
  | inr apart ↦ absurd (ground arith)
  | inl same ↦ elim (Bool-cases (y == z)) [
    | inr apart ↦ absurd (ground arith)
    | inl same' ↦
        ap₂ (λ a b. a ∷ b) ((string_eq.beq_iff x y).0 same)
          (between p q r (ground arith) (ground arith) (omega arith))
  ]
]

module _ (env : Env) where
  open env use {Disk, path_exists, is_dir, create_dir_all, open_db}

  pub IsClear-shorter : (d : Disk) (p r : FilePath) → IsClear env d (p ++ r) → IsClear env d p
  IsClear-shorter d p r h q e there = h q (is_prefix-append q p r e) there

  module _ (dirs : DirLaws env) (laws : TreeLaws env) where
    pub IsClear-made :
        (d : Disk) (p made : FilePath)
        → (create_dir_all d made).0 ≡ ok tt
        → IsClear env d p
        → IsClear env (create_dir_all d made).1 p
    IsClear-made d p made done h q e there = elim (Bool-cases (is_prefix q made)) [
      | inl on_way ↦ ground (arith, laws.mkdir_is_dir d made q done)
      | inr off_way ↦
          dirs.create_dir_keeps d made q (h q e (ground (arith, laws.mkdir_exists d made q done)))
    ]

    pub IsClear-opened :
        (d : Disk) (p opened : FilePath)
        → is_dir d opened ≡ true
        → length opened ≡ length p
        → IsClear env d p
        → IsClear env (open_db d opened).1 p
    IsClear-opened d p opened dir long h q e there = elim (Bool-cases (is_prefix opened q)) [
      | inl below ↦
          subst (λ x. is_dir (open_db d opened).1 x ≡ true) (between opened q p below e long)
            (dirs.open_keeps d opened opened dir)
      | inr apart ↦
          dirs.open_keeps d opened q (h q e (sym (laws.open_exists d opened q dir apart) ∙ there))
    ]
