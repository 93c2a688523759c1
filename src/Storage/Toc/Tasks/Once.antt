-- ===== src/Storage/Toc/Tasks/Once.antt =====
-- Of creations of one name that run at the same time, one at most succeeds.
use smoldb.Prelude.{
  ℕ, zero, suc, ◌+◌, ◌≡◌, refl, ◌∙◌, ap, inl, inr, String, List, [], ◌∷◌, Bool, true, false, ◌&&◌,
  some, ok, err, arith, All, lookup, lookup-insert, contains_key, string_eq, ◌==◌, count_if,
  get_elem?, Bool-cases, Option-cases, if◌then◌else◌,
}
use smoldb.Types.{CollectionName}
use smoldb.Storage.Collection.{Collection}
use smoldb.Storage.Setup.{init_collection}
use smoldb.Storage.Toc.{Toc, add_collection, collection_path}
use smoldb.Storage.Toc.Tasks.{
  Stage, requested, checked, made, initialised, finished, panicked, Creation, System, set, advance,
  step, run,
}
use smoldb.External.{Env}

and_false : (b : Bool) → (b && false) ≡ false
and_false true = refl
and_false false = refl

balance :
    (p' p c c' before after : ℕ)
    → p' + before ≡ p + after
    → c' + before ≡ c + after
    → p' + c ≡ p + c'
balance p' p c c' before after e f = omega arith

module _ (env : Env) where
  open env use {Db, Ring, Disk, path_exists, create_dir_all}

  abbrev is_success : Stage (Collection Db Ring) → Bool
  is_success (finished (ok done)) = done
  is_success stage = false

  -- A creation of the name that succeeded.
  abbrev pub is_created : CollectionName → Creation env → Bool
  is_created name task = task.name == name && is_success task.stage

  -- How many creations of the name succeeded.
  abbrev pub created : CollectionName → List (Creation env) → ℕ
  created name = count_if (is_created name)

  -- Whether a collection of the name is in the table, as a number.
  abbrev pub present : CollectionName → Toc env → ℕ
  present name toc = if contains_key name toc.collections then 1 else 0

  module _ (left_over : CollectionName → Disk → Disk) (name : CollectionName) where
    -- A step of a creation is not counted before, and is counted after exactly if it brought the name
    -- into the table.
    advance_counts :
        (task : CollectionName) (params : String) (stage : Stage (Collection Db Ring))
        (toc : Toc env) (disk : Disk)
        → let (stage', toc', disk') = advance env left_over task params stage toc disk in
          present name toc' + (if task == name && is_success stage then 1 else 0)
          ≡ present name toc + (if task == name && is_success stage' then 1 else 0)
    unfolding advance add_collection contains_key
    advance_counts task params requested toc disk = ground arith
    advance_counts task params checked toc disk = ground arith
    advance_counts task params made toc disk =
        elim (Option-cases
          (init_collection env task (record { params = params }) (collection_path task) disk)) [
            | inl panics ↦ ground arith
            | inr ((err f, d), q) ↦ ground arith
            | inr ((ok c, d), q) ↦ ground arith
          ]
    advance_counts task params (initialised c) toc disk =
        elim (Bool-cases (contains_key task toc.collections)) [
          | inl taken ↦ ground arith
          | inr free ↦
              ground (arith, string_eq.beq_iff task name, lookup-insert task name c toc.collections)
        ]
    advance_counts task params (finished result) toc disk = ground arith
    advance_counts task params panicked toc disk = ground arith

    -- No step changes a collection that is in the table.
    advance_keeps :
        (task : CollectionName) (params : String) (stage : Stage (Collection Db Ring))
        (toc : Toc env) (disk : Disk) (c : Collection Db Ring)
        → lookup name toc.collections ≡ some c
        → lookup name (advance env left_over task params stage toc disk).1.collections ≡ some c
    unfolding advance add_collection contains_key
    advance_keeps task params requested toc disk c h = ground arith
    advance_keeps task params checked toc disk c h = ground arith
    advance_keeps task params made toc disk c h =
        elim (Option-cases
          (init_collection env task (record { params = params }) (collection_path task) disk)) [
            | inl panics ↦ ground arith
            | inr ((err f, d), q) ↦ ground arith
            | inr ((ok c', d), q) ↦ ground arith
          ]
    advance_keeps task params (initialised new) toc disk c h =
        elim (Bool-cases (contains_key task toc.collections)) [
          | inl taken ↦ ground arith
          | inr free ↦
              ground
                (arith, string_eq.beq_iff task name, lookup-insert task name new toc.collections)
        ]
    advance_keeps task params (finished result) toc disk c h = h
    advance_keeps task params panicked toc disk c h = h

    count-set :
        (p : Creation env → Bool) (tasks : List (Creation env)) (i : ℕ) (task task' : Creation env)
        → get_elem? tasks i ≡ some task
        → count_if p (set tasks i task') + (if p task then 1 else 0)
          ≡ count_if p tasks + (if p task' then 1 else 0)
    unfolding count_if
    count-set p [] i task task' e = absurd (ground arith)
    count-set p (t ∷ tasks) zero task task' e = ground arith
    count-set p (t ∷ tasks) (suc i) task task' e = ground (arith, count-set p tasks i task task' e)

    -- A collection of the name is in the table if there was one or a creation of the name succeeded,
    -- and one at most did.
    abbrev Balanced : System env → System env → Type 0
    Balanced s s' =
        (present name s'.toc + created name s.tasks ≡ present name s.toc + created name s'.tasks)
        × ((c : Collection Db Ring)
            → lookup name s.toc.collections ≡ some c
            → lookup name s'.toc.collections ≡ some c)

    step-Balanced : (i : ℕ) (s : System env) → Balanced s (step env left_over i s)
    unfolding step
    step-Balanced i s = elim (Option-cases (get_elem? s.tasks i)) [
      | inl q ↦ rw (step, q) (refl, λ c h. h)
      | inr (task, q) ↦
          let (stage, toc, disk) =
            advance env left_over task.name task.params task.stage s.toc s.disk in
          let new : Creation env = record task { stage = stage } in
          let counts = advance_counts task.name task.params task.stage s.toc s.disk in
          let counted = count-set (is_created name) s.tasks i task new q in
          rw (step, q)
            (
              balance (present name toc) (present name s.toc) (created name s.tasks)
                  (created name (set s.tasks i new)) (if is_created name task then 1 else 0)
                  (if is_created name new then 1 else 0) counts counted,
              λ c h. advance_keeps task.name task.params task.stage s.toc s.disk c h,
            )
    ]

    run-Balanced : (schedule : List ℕ) (s : System env) → Balanced s (run env left_over schedule s)
    unfolding run
    run-Balanced [] s = (refl, λ c h. h)
    run-Balanced (i ∷ schedule) s =
        let (here, kept) = step-Balanced i s in
        let (later, kept') = run-Balanced schedule (step env left_over i s) in
        (omega arith, λ c h. kept' c (kept c h))

    created-none :
        (tasks : List (Creation env))
        → All (λ task. task.stage ≡ requested) tasks
        → created name tasks ≡ 0
    unfolding count_if
    created-none [] h = refl
    created-none (task ∷ tasks) h =
        let rest = created-none tasks h.1 in
        let asked : is_created name task ≡ false =
          ap (λ x. task.name == name && is_success x) h.0 ∙ and_false (task.name == name) in
        rw (asked, rest) refl

  -- Creations run at the same time, in any order of their steps, and one that panics leaves the disk in
  -- any state: a collection that was in the table stays as it was, and of the creations of a name the
  -- number that succeeds is one if the name was not in the table and is there now, and none otherwise.
  pub create_once :
      (left_over : CollectionName → Disk → Disk) (name : CollectionName) (schedule : List ℕ)
      (s : System env)
      → All (λ task. task.stage ≡ requested) s.tasks
      → let s' = run env left_over schedule s in
        (present name s.toc + created name s'.tasks ≡ present name s'.toc)
        × ((c : Collection Db Ring)
            → lookup name s.toc.collections ≡ some c
            → lookup name s'.toc.collections ≡ some c)
  create_once left_over name schedule s asked =
      let (counts, kept) = run-Balanced left_over name schedule s in
      let none_yet = created-none left_over name s.tasks asked in (omega arith, kept)
